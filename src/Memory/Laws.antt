-- ===== src/Memory/Laws.antt =====
-- Reading after writing: the same bytes, or bytes apart.
use theo.Base.{ℕ, zero, suc, ◌+◌, ◌≤◌, ◌<◌, ◌≡◌, refl, ap, ◌∙◌, ◌⊎◌, List, [], ◌∷◌, length, arith}
use mathlib.Core.Path.{ap₂}
use theo.Memory.{Memory, read, write, load_word, store_word}

-- Two ranges of bytes do not overlap.
abbrev pub Apart : ℕ → ℕ → ℕ → ℕ → Type 0
Apart a n b k = (a + n ≤ b) ⊎ (b + k ≤ a)

pub length-read : (m : Memory) (a n : ℕ) → length (read m a n) ≡ n
unfolding read
length-read m a zero = refl
length-read m a (suc n) = ap suc (length-read m (a + 1) n)

pub write-outside :
    (m : Memory) (a : ℕ) (bs : List ℕ) (x : ℕ)
    → (x < a) ⊎ (a + length bs ≤ x)
    → write m a bs x ≡ m x
unfolding write
write-outside m a [] x h = refl
write-outside m a (b ∷ bs) x h = ground (arith, write-outside m (a + 1) bs x)

pub read-agree :
    (m m' : Memory) (a n : ℕ)
    → ((x : ℕ) → a ≤ x → x < a + n → m x ≡ m' x)
    → read m a n ≡ read m' a n
unfolding read
read-agree m m' a zero h = refl
read-agree m m' a (suc n) h =
    ap₂ ◌∷◌ (h a (omega arith) (omega arith))
      (read-agree m m' (a + 1) n (λ x l u. h x (omega arith) (omega arith)))

pub read-write_self : (m : Memory) (a : ℕ) (bs : List ℕ) → read (write m a bs) a (length bs) ≡ bs
unfolding read write
read-write_self m a [] = refl
read-write_self m a (b ∷ bs) = ap₂ ◌∷◌ (ground arith) (
    read-agree _ (write m (a + 1) bs) (a + 1) (length bs) (λ x l u. ground arith)
    ∙ read-write_self m (a + 1) bs)

pub read-write-Apart :
    (m : Memory) (a : ℕ) (bs : List ℕ) (b n : ℕ)
    → Apart a (length bs) b n
    → read (write m a bs) b n ≡ read m b n
read-write-Apart m a bs b n h =
    read-agree (write m a bs) m b n (λ x l u. write-outside m a bs x (omega arith))

pub load_word-agree :
    (m m' : Memory) (a : ℕ)
    → ((x : ℕ) → a ≤ x → x < a + 4 → m x ≡ m' x)
    → load_word m a ≡ load_word m' a
unfolding load_word
load_word-agree m m' a h = ground (
  arith,
  h a (omega arith) (omega arith),
  h (a + 1) (omega arith) (omega arith),
  h (a + 2) (omega arith) (omega arith),
  h (a + 3) (omega arith) (omega arith),
)

pub load_word-store_word :
    (m : Memory) (a w : ℕ) → w < 4294967296 → load_word (store_word m a w) a ≡ w
unfolding load_word store_word write
load_word-store_word m a w h = ground arith

pub load_word-write-Apart :
    (m : Memory) (a : ℕ) (bs : List ℕ) (b : ℕ)
    → Apart a (length bs) b 4
    → load_word (write m a bs) b ≡ load_word m b
load_word-write-Apart m a bs b h =
    load_word-agree (write m a bs) m b (λ x l u. write-outside m a bs x (omega arith))

pub load_word-store_word-Apart :
    (m : Memory) (a w b : ℕ) → Apart a 4 b 4 → load_word (store_word m a w) b ≡ load_word m b
unfolding store_word
load_word-store_word-Apart m a w b h = load_word-write-Apart m a _ b h

pub read-store_word-Apart :
    (m : Memory) (a w b n : ℕ) → Apart a 4 b n → read (store_word m a w) b n ≡ read m b n
unfolding store_word
read-store_word-Apart m a w b n h = read-write-Apart m a _ b n h
