-- ===== src/CellDirOverflow/Swap.antt =====
-- Taking an entry out of the overflow: the front entry takes its place.
use theo.Base.{
  ℕ, zero, suc, ◌+◌, ◌*◌, ◌≤◌, ◌<◌, ◌≡◌, ◌≢◌, refl, sym, ◌∙◌, inl, inr, Bool, true, false, List, [],
  ◌∷◌, length, get_or, set, if◌then◌else◌, Bool-cases, arith,
}
use theo.Memory.{Memory}
use theo.Checksum.{Checksum}
use theo.CellDirEntry.{CellDirEntry, cell_dir_entry_init, load_dir_entry, store_dir_entry}
use theo.CellDirEntry.Layout.{cell_dir_entry_init-IsDirEntry, load_dir_entry-IsDirEntry}
use theo.CellDirEntry.Lookup.{
  is_hit, hit_checksum, lookup, count, used, count-set, lookup-set_miss, lookup-set_hit, used-set,
  is_hit_unique,
}
use theo.CellDirEntry.Change.{Added, Removed}
use theo.CellDirOverflow.Rows.{rows, rows-store-Apart, rows-store_at}

-- The front entry moves to the place of the one that is taken out.
unfoldable pub swap_out : List CellDirEntry → ℕ → List CellDirEntry
swap_out [] i = []
swap_out (x ∷ xs) zero = xs
swap_out (x ∷ xs) (suc i) = set xs i x

abbrev pub Unique : List CellDirEntry → Type 0
Unique es = (c : Checksum) → count c es ≤ 1

pub swap_out-Removed :
    (c : Checksum) (es : List CellDirEntry) (i : ℕ)
    → i < length es
    → is_hit c (get_or es i cell_dir_entry_init) ≡ true
    → Unique es
    → Removed c es (swap_out es i)
unfolding swap_out count used lookup
swap_out-Removed c [] i h hit one = absurd (omega arith)
swap_out-Removed c (x ∷ xs) zero h hit one = record {
  once = ground arith;
  counts = λ d ne. ground (arith, is_hit_unique c d x ne hit);
  same = λ d ne. ground (arith, is_hit_unique c d x ne hit);
  less = ground arith;
}
swap_out-Removed c (x ∷ xs) (suc i) h hit one =
    let y : CellDirEntry = get_or xs i cell_dir_entry_init in
    let miss : (d : Checksum) → c ≢ d → is_hit d y ≡ false = λ d ne. is_hit_unique c d y ne hit in
    record {
      once = ground (arith, count-set c xs i x cell_dir_entry_init);
      counts = λ d ne. ground (arith, count-set d xs i x cell_dir_entry_init, miss d ne);
      same = λ d ne. elim (Bool-cases (is_hit d x)) [
        | inl yes' ↦ rw yes' (lookup-set_hit d xs i x (omega arith) (ground (arith, one d)) yes')
        | inr no' ↦ rw no' (lookup-set_miss d xs i x cell_dir_entry_init no' (miss d ne))
      ];
      less = ground (arith, used-set xs i x cell_dir_entry_init);
    }

pub cons-Added : (e : CellDirEntry) (es : List CellDirEntry) → Added e es (e ∷ es)
unfolding count used lookup
cons-Added e es = record {
  counts = λ c. omega arith;
  same = λ c miss. ground arith;
  found = λ c hit none. ground arith;
  more = omega arith;
}

-- The two stores of `cell_dir_overflow_remove` leave that list.
pub rows-swap_out :
    (m : Memory) (a n i : ℕ)
    → i < suc n
    → let m' = store_dir_entry m (a + i * 36) (load_dir_entry m a) in
      rows (store_dir_entry m' a cell_dir_entry_init) (a + 36) n ≡ swap_out (rows m a (suc n)) i
unfolding swap_out rows
rows-swap_out m a n zero h =
    rows-store-Apart _ cell_dir_entry_init cell_dir_entry_init-IsDirEntry a (a + 36) n
      (inl (omega arith))
    ∙ rows-store-Apart m _ (load_dir_entry-IsDirEntry m a) (a + 0 * 36) (a + 36) n
        (inl (omega arith))
rows-swap_out m a n (suc i) h =
    rows-store-Apart _ cell_dir_entry_init cell_dir_entry_init-IsDirEntry a (a + 36) n
      (inl (omega arith))
    ∙ rows-store_at m _ (load_dir_entry-IsDirEntry m a) (a + 36) n i (a + suc i * 36) (omega arith)
        (omega arith)

-- How many entries have a checksum of some kind.
unfoldable pub spilled : (Checksum → Bool) → List CellDirEntry → ℕ
spilled p [] = 0
spilled p (e ∷ es) = (if p e.checksum then 1 else 0) + spilled p es

pub cons-spilled :
    (p : Checksum → Bool) (e : CellDirEntry) (es : List CellDirEntry)
    → spilled p (e ∷ es) ≡ (if p e.checksum then 1 else 0) + spilled p es
unfolding spilled
cons-spilled p e es = refl

spilled-set :
    (p : Checksum → Bool) (es : List CellDirEntry) (i : ℕ) (e d : CellDirEntry)
    → i < length es
    → spilled p (set es i e) + (if p (get_or es i d).checksum then 1 else 0)
      ≡ spilled p es + (if p e.checksum then 1 else 0)
unfolding spilled
spilled-set p [] i e d h = absurd (omega arith)
spilled-set p (x ∷ es) zero e d h = omega arith
spilled-set p (x ∷ es) (suc i) e d h = omega (arith, spilled-set p es i e d)

pub spilled-swap_out :
    (p : Checksum → Bool) (c : Checksum) (es : List CellDirEntry) (i : ℕ)
    → i < length es
    → is_hit c (get_or es i cell_dir_entry_init) ≡ true
    → spilled p (swap_out es i) + (if p c then 1 else 0) ≡ spilled p es
unfolding spilled swap_out
spilled-swap_out p c [] i h hit = absurd (omega arith)
spilled-swap_out p c (x ∷ xs) zero h hit = rw (hit_checksum c x hit) (omega arith)
spilled-swap_out p c (x ∷ xs) (suc i) h hit =
    rw (hit_checksum c (get_or xs i cell_dir_entry_init) hit)
      (omega (arith, spilled-set p xs i x cell_dir_entry_init))

pub count-le-spilled :
    (p : Checksum → Bool) (c : Checksum) (es : List CellDirEntry)
    → p c ≡ true
    → count c es ≤ spilled p es
unfolding count spilled
count-le-spilled p c [] h = omega arith
count-le-spilled p c (x ∷ es) h = elim (Bool-cases (is_hit c x)) [
  | inl hit ↦
      let at : p x.checksum ≡ true = rw (sym (hit_checksum c x hit)) h in
      rw (hit, at) (omega (arith, count-le-spilled p c es h))
  | inr miss ↦ rw miss (omega (arith, count-le-spilled p c es h))
]

pub spilled-le-length : (p : Checksum → Bool) (es : List CellDirEntry) → spilled p es ≤ length es
unfolding spilled
spilled-le-length p [] = omega arith
spilled-le-length p (x ∷ es) = ground (arith, spilled-le-length p es)
