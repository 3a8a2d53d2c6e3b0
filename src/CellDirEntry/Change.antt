-- ===== src/CellDirEntry/Change.antt =====
-- What it means that a row of directory entries gained an entry, or lost one of a checksum.
use theo.Base.{
  ℕ, ◌+◌, ◌<◌, ◌≡◌, ◌≢◌, refl, true, false, some, List, length, get_or, set, Bool-cases, inl, inr,
  ◌≤◌, arith,
}
use theo.Checksum.{Checksum, checksum_compare, checksum_compare→eq, checksum_compare-false_ne}
use theo.CellDirEntry.{CellDirEntry, cell_dir_entry_init}
use theo.CellDirEntry.Lookup.{
  is_hit, lookup, hits, count, uses, used, count-set, lookup-set_miss, lookup-set_hit, used-set,
  is_hit_unique,
}

pub record Added (e : CellDirEntry) (es es' : List CellDirEntry) : Type 0 where
  pub counts : (c : Checksum) → count c es' ≡ count c es + hits c e
  pub same : (c : Checksum) → is_hit c e ≡ false → lookup c es' ≡ lookup c es
  pub found : (c : Checksum) → is_hit c e ≡ true → count c es ≡ 0 → lookup c es' ≡ some e
  pub more : used es' ≡ used es + uses e

pub record Removed (c : Checksum) (es es' : List CellDirEntry) : Type 0 where
  pub once : count c es' + 1 ≡ count c es
  pub counts : (d : Checksum) → c ≢ d → count d es' ≡ count d es
  pub same : (d : Checksum) → c ≢ d → lookup d es' ≡ lookup d es
  pub less : used es' + 1 ≡ used es

pub init-miss : (c : Checksum) → is_hit c cell_dir_entry_init ≡ false
unfolding cell_dir_entry_init
init-miss c = ground arith

uses-init : uses cell_dir_entry_init ≡ 0
unfolding cell_dir_entry_init
uses-init = refl

-- Filling a free position.
pub set-Added :
    (es : List CellDirEntry) (i : ℕ) (e : CellDirEntry)
    → i < length es
    → (get_or es i cell_dir_entry_init).set ≡ 0
    → Added e es (set es i e)
set-Added es i e h free = record {
  counts = λ c. ground (arith, count-set c es i e cell_dir_entry_init h);
  same = λ c miss. lookup-set_miss c es i e cell_dir_entry_init miss (ground arith);
  found = λ c hit none. lookup-set_hit c es i e h none hit;
  more = ground (arith, used-set es i e cell_dir_entry_init h);
}

-- Clearing a position in use for a checksum.
pub set-Removed :
    (c : Checksum) (es : List CellDirEntry) (i : ℕ)
    → i < length es
    → is_hit c (get_or es i cell_dir_entry_init) ≡ true
    → Removed c es (set es i cell_dir_entry_init)
set-Removed c es i h hit = record {
  once = ground (arith, count-set c es i cell_dir_entry_init cell_dir_entry_init h, init-miss c);
  counts = λ d ne. ground (
    arith,
    count-set d es i cell_dir_entry_init cell_dir_entry_init h,
    init-miss d,
    is_hit_unique c d (get_or es i cell_dir_entry_init) ne hit,
  );
  same = λ d ne.
      lookup-set_miss d es i cell_dir_entry_init cell_dir_entry_init (init-miss d)
        (is_hit_unique c d (get_or es i cell_dir_entry_init) ne hit);
  less = ground (arith, used-set es i cell_dir_entry_init cell_dir_entry_init h, uses-init);
}

pub Removed-count_le :
    (c : Checksum) (es es' : List CellDirEntry)
    → Removed c es es'
    → (k : Checksum) → count k es' ≤ count k es
Removed-count_le c es es' out k = elim (Bool-cases (checksum_compare c k)) [
  | inl e ↦ let eq : c ≡ k = checksum_compare→eq c k e in rw (← eq) (omega (arith, out.once))
  | inr e ↦ omega (arith, out.counts k (λ eq. checksum_compare-false_ne c k e eq))
]
