-- ===== src/Ring/Find.antt =====
-- What a cell has for a checksum, read off the lists of its chunks: the directory functions and
-- `cell_get_chunk` of src/theo/cell.c.
use theo.Base.{
  ℕ, ◌+◌, ◌<◌, ◌≡◌, ◌⊎◌, refl, sym, ap, ◌∙◌, inl, inr, Bool, true, false, Option, none, some, List,
  [], ◌∷◌, ◌++◌, if◌then◌else◌, Bool-cases, arith,
}
use mathlib.Core.Path.{subst}
use mathlib.Core.Option
use theo.Checksum.{Checksum, checksum_compare}
use theo.Memory.{Memory, read}
use theo.CellDirEntry.{CellDirEntry}
use theo.CellDirEntry.Lookup.{lookup, lookup_hits, hit_checksum}
use theo.CellBodyEntry.{CellBodyEntry, load_body_entry}
use theo.CellDir.{block_no, block_at}
use theo.CellDir.View.{or_else, cell_dir_get_chunk_lem, spilt}
use theo.CellState.{Cell, buffer_top}
use theo.CellBody.{next_offset}
use theo.Chunk.{Chunk}
use theo.Cell.{dir_entry, cell_get_chunk}
use theo.Cell.Chunks.{filled, copy-Holds, get-found, get-none}
use theo.Cell.Valid.{listed}
use theo.Ring.Chain.{Item, IsItem, size, Chain}
use theo.Ring.Place.{place, first_of, spot-none, spot-zero, copies}
use theo.Ring.Gap.{offset_of, Gap}

-- The chunk of a checksum.
abbrev pub find : Checksum → List Item → Option Item
find c [] = none
find c (i ∷ is) = if checksum_compare i.checksum c then some i else find c is

pub find-append :
    (c : Checksum) (is js : List Item) → find c (is ++ js) ≡ first_of (find c is) (find c js)
find-append c [] js = refl
find-append c (i ∷ is) js = ground (arith, find-append c is js)

pub find-none : (c : Checksum) (is : List Item) → copies c is ≡ 0 → find c is ≡ none
find-none c [] h = refl
find-none c (i ∷ is) h = ground (arith, find-none c is)

pub find-some : (c : Checksum) (is : List Item) (i : Item) → find c is ≡ some i → 0 < copies c is
find-some c [] i h = ground arith
find-some c (j ∷ is) i h = ground (arith, find-some c is i)

-- A chunk stands in the slab at an offset.
pub record StandsAt (m : Memory) (a : ℕ) (i : Item) : Type 0 where
  pub head_size : (load_body_entry m a).size ≡ size i
  pub content : read m (a + 36) (size i) ≡ i.bytes
  pub item : IsItem i

-- The list and the offsets agree.
data Found (m : Memory) : Option Item → Option ℕ → Type 0 where
  missing : Found m none none
  present : {i : Item} {a : ℕ} → StandsAt m a i → Found m (some i) (some a)

found :
    (m : Memory) (p a : ℕ) (is : List Item) (b q : ℕ) (c : Checksum)
    → Chain m p a is b q
    → Found m (find c is) (place a is c)
found m p a [] b q c h = missing
found m p a (i ∷ is) b q c (h, k, w, rest) = elim (Bool-cases (checksum_compare i.checksum c)) [
  | inl e ↦
      rw e (
        present
          (record { head_size = ap (λ (b : CellBodyEntry). b.size) h; content = k; item = w }))
  | inr e ↦ rw e (found m (size i) (a + 36 + size i) is b q c rest)
]

found-first_of :
    (m : Memory) (o : Option Item) (x : Option ℕ) (o' : Option Item) (x' : Option ℕ)
    → Found m o x
    → Found m o' x'
    → Found m (first_of o o') (first_of x x')
found-first_of m _ _ o' x' missing f = f
found-first_of m _ _ o' x' (present s) f = present s

either_of :
    (o o' : Option CellDirEntry) (e : CellDirEntry)
    → or_else o o' ≡ some e
    → (o ≡ some e) ⊎ (o' ≡ some e)
either_of (some x) o' e h = inl h
either_of none o' e h = inr h

listed_key :
    (cell : Cell) (c : Checksum) (e : CellDirEntry) → listed cell c ≡ some e → e.checksum ≡ c
listed_key cell c e h =
    let d = cell.cell_header.cell_dir in
    let es = (block_at d (block_no c)).entries in
    let fs = spilt d cell.slab (buffer_top cell) in
    elim (either_of (lookup c es) (lookup c fs) e h) [
      | inl at ↦ sym (hit_checksum c e (lookup_hits c es e at).0)
      | inr at ↦ sym (hit_checksum c e (lookup_hits c fs e at).0)
    ]

-- What `cell_get_chunk` returns for a chunk that is there, or is not.
abbrev pub got : Checksum → Chunk → Option Item → Option (Bool × Chunk)
got c chunk none = some (false, chunk)
got c chunk (some i) = some (true, filled chunk c i.bytes)

module _ (cell : Cell) (before post : List Item) (q g r : ℕ) (c : Checksum)
    (v : Gap cell before q g r post) (low : block_no c < 256) where
  dir_entry-listed : dir_entry cell c ≡ listed cell c
  dir_entry-listed =
      cell_dir_get_chunk_lem cell.cell_header.cell_dir cell.slab (buffer_top cell) v.dir c low

  in_ring : Found cell.slab (find c (before ++ post)) (offset_of cell c)
  in_ring =
      subst (λ o. Found cell.slab (find c (before ++ post)) o) (sym (v.listing c))
        (rw (find-append c before post) (
          found-first_of cell.slab (find c before) (place 0 before c) (find c post) (place g post c)
            (found cell.slab 0 0 before (next_offset cell) q c v.front)
            (found cell.slab r g post _ _ c v.back)))

  get-Found :
      (chunk : Chunk) (o : Option CellDirEntry) (x : Option Item)
      → listed cell c ≡ o
      → Found cell.slab x (Option.map (λ (e : CellDirEntry). e.offset) o)
      → cell_get_chunk cell c chunk ≡ got c chunk x
  get-Found chunk none _ at missing = get-none cell c chunk (dir_entry-listed ∙ at)
  get-Found chunk (some e) none at x = elim x [ ]
  get-Found chunk (some e) (some i) at (present s) =
      get-found cell c chunk e (dir_entry-listed ∙ at)
      ∙ copy-Holds cell i.bytes e chunk s.head_size s.content (omega (arith, s.item.most))
      ∙ ap (λ k. some (true, filled chunk k i.bytes)) (listed_key cell c e at)

  -- On a ring `cell_get_chunk` copies out the bytes that the list has for the checksum.
  pub cell_get_chunk-find :
      (chunk : Chunk) → cell_get_chunk cell c chunk ≡ got c chunk (find c (before ++ post))
  cell_get_chunk-find chunk = get-Found chunk (listed cell c) (find c (before ++ post)) refl in_ring

  pub listed-fresh : copies c before + copies c post ≡ 0 → dir_entry cell c ≡ none
  listed-fresh fresh = dir_entry-listed ∙ no_entry (listed cell c) refl
    where
      no_entry : (o : Option CellDirEntry) → listed cell c ≡ o → listed cell c ≡ none
      no_entry none at = at
      no_entry (some e) at = ground (arith, at, v.listing c, spot-none before g post c fresh)

  pub listed-none : dir_entry cell c ≡ none → copies c before + copies c post ≡ 0
  listed-none unlisted = spot-zero before g post c (
      sym (v.listing c)
      ∙ ap (λ o. Option.map (λ (e : CellDirEntry). e.offset) o) (sym dir_entry-listed ∙ unlisted))
