-- ===== src/Ring/Chain.antt =====
-- Entries of the slab that follow one another, each in use, as the list of their chunks.
use theo.Base.{ℕ, ◌+◌, ◌-◌, ◌*◌, ◌≤◌, ◌<◌, ◌≡◌, refl, sym, ◌∙◌, List, [], ◌∷◌, ◌++◌, length, arith}
use theo.Checksum.{Checksum}
use theo.Memory.{Memory, read}
use theo.Memory.Laws.{read-agree}
use theo.CellBodyEntry.{CellBodyEntry, load_body_entry}
use theo.CellBodyEntry.Layout.{load_body_entry-agree}
use theo.CellDir.{block_no}

-- A chunk under its checksum.
pub record Item : Type 0 where
  pub checksum : Checksum
  pub bytes : List ℕ

abbrev pub size : Item → ℕ
size i = length i.bytes

-- A chunk has from 2 to 24 KiB, and its checksum has 32 bytes.
pub record IsItem (i : Item) : Type 0 where
  pub key : length i.checksum ≡ 32
  pub low : block_no i.checksum < 256
  pub least : 2048 ≤ size i
  pub most : size i ≤ 24576

-- The header of a chunk whose predecessor has `p` bytes.
abbrev pub stored : ℕ → Item → CellBodyEntry
stored p i = record {
  checksum = i.checksum;
  free_space = 0;
  top_entry = 0;
  size = size i;
  previous_size = p;
}

-- From offset `a`, behind an entry of `p` bytes, the chunks follow one another up to offset `b`; the last
-- of them has `q` bytes.
abbrev pub Chain : Memory → ℕ → ℕ → List Item → ℕ → ℕ → Type 0
Chain m p a [] b q = (a ≡ b) × (p ≡ q)
Chain m p a (i ∷ is) b q =
    (load_body_entry m a ≡ stored p i)
    × (read m (a + 36) (size i) ≡ i.bytes)
    × IsItem i
    × Chain m (size i) (a + 36 + size i) is b q

-- Where chunks that begin at `a` end.
abbrev pub stop : ℕ → List Item → ℕ
stop a [] = a
stop a (i ∷ is) = stop (a + 36 + size i) is

-- The bytes of the chunks.
abbrev pub bytes_in : List Item → ℕ
bytes_in [] = 0
bytes_in (i ∷ is) = size i + bytes_in is

pub bytes_in-append : (is js : List Item) → bytes_in (is ++ js) ≡ bytes_in is + bytes_in js
bytes_in-append [] js = omega arith
bytes_in-append (i ∷ is) js = omega (arith, bytes_in-append is js)

-- How far a chain reaches.
pub Chain-length :
    (m : Memory) (p a : ℕ) (is : List Item) (b q : ℕ)
    → Chain m p a is b q
    → a + 36 * length is + bytes_in is ≡ b
Chain-length m p a [] b q (e, e') = omega (arith, e)
Chain-length m p a (i ∷ is) b q (h, c, v, rest) =
    omega (arith, Chain-length m (size i) (a + 36 + size i) is b q rest)

pub Chain-least :
    (m : Memory) (p a : ℕ) (is : List Item) (b q : ℕ)
    → Chain m p a is b q
    → a + 2084 * length is ≤ b
Chain-least m p a [] b q (e, e') = omega (arith, e)
Chain-least m p a (i ∷ is) b q (h, c, v, rest) =
    omega (arith, v.least, Chain-least m (size i) (a + 36 + size i) is b q rest)

pub Chain-bytes :
    (m : Memory) (p a : ℕ) (is : List Item) (b q : ℕ)
    → Chain m p a is b q
    → 2048 * length is ≤ bytes_in is
Chain-bytes m p a is b q h = omega (arith, Chain-least m p a is b q h, Chain-length m p a is b q h)

pub Chain-le : (m : Memory) (p a : ℕ) (is : List Item) (b q : ℕ) → Chain m p a is b q → a ≤ b
Chain-le m p a is b q h = omega (arith, Chain-least m p a is b q h)

-- A chain is its bytes.
pub Chain-agree :
    (m m' : Memory) (p a : ℕ) (is : List Item) (b q : ℕ)
    → ((x : ℕ) → a ≤ x → x < b → m' x ≡ m x)
    → Chain m p a is b q
    → Chain m' p a is b q
Chain-agree m m' p a [] b q same h = h
Chain-agree m m' p a (i ∷ is) b q same (h, c, v, rest) =
    let le = Chain-le m (size i) (a + 36 + size i) is b q rest in
    (
      load_body_entry-agree m m' a (λ x l u. same x l (omega arith)) ∙ h,
      read-agree m' m (a + 36) (size i) (λ x l u. same x (omega arith) (omega arith)) ∙ c,
      v,
      Chain-agree m m' (size i) (a + 36 + size i) is b q (λ x l u. same x (omega arith) u) rest,
    )

-- One chain behind another.
pub Chain-append :
    (m : Memory) (p a : ℕ) (is : List Item) (b q : ℕ) (js : List Item) (c r : ℕ)
    → Chain m p a is b q
    → Chain m q b js c r
    → Chain m p a (is ++ js) c r
Chain-append m p a [] b q js c r (e, e') h = rw (e, e') h
Chain-append m p a (i ∷ is) b q js c r (h, k, v, rest) t =
    (h, k, v, Chain-append m (size i) (a + 36 + size i) is b q js c r rest t)

-- The last chunk of a chain.
pub Chain-last :
    (m : Memory) (p a : ℕ) (is : List Item) (i : Item) (b q : ℕ)
    → Chain m p a (is ++ i ∷ []) b q
    → (r : ℕ) × Chain m p a is (b - (q + 36)) r
      × (load_body_entry m (b - (q + 36)) ≡ stored r i)
      × IsItem i
      × (q ≡ size i)
      × (a + 36 + q ≤ b)
Chain-last m p a [] i b q (h, c, v, (e, e')) =
    let at : b - (q + 36) ≡ a = omega (arith, e, e') in
    (p, (sym at, refl), rw at h, v, sym e', omega (arith, e, e'))
Chain-last m p a (j ∷ is) i b q (h, c, v, rest) =
    let (r, t, l, w, same, le) = Chain-last m (size j) (a + 36 + size j) is i b q rest in
    (r, (h, c, v, t), l, w, same, omega (arith, le))

pub Chain-stop :
    (m : Memory) (p a : ℕ) (is : List Item) (b q : ℕ) → Chain m p a is b q → stop a is ≡ b
Chain-stop m p a [] b q (e, e') = e
Chain-stop m p a (i ∷ is) b q (h, c, v, rest) = Chain-stop m (size i) (a + 36 + size i) is b q rest

pub Chain-most :
    (m : Memory) (p a : ℕ) (is : List Item) (b q : ℕ)
    → Chain m p a is b q
    → b ≤ a + 32804 * length is
Chain-most m p a [] b q (e, e') = omega (arith, e)
Chain-most m p a (i ∷ is) b q (h, c, v, rest) =
    omega (arith, v.most, Chain-most m (size i) (a + 36 + size i) is b q rest)
