-- ===== src/CellDirOverflow/Laws.antt =====
-- The overflow as a list of entries, newest first: what each operation does to it, and which bytes
-- of the slab it leaves alone.
use theo.Base.{
  ℕ, zero, suc, ◌+◌, ◌-◌, ◌*◌, ◌%◌, ◌^◌, ◌≤◌, ◌<◌, ◌≡◌, refl, sym, ap, ◌∙◌, inl, inr, Bool, true,
  false, none, some, List, ◌∷◌, length, ◌==◌, if◌then◌else◌, Option-cases, arith,
}
use mathlib.Core.Path.{subst}
use theo.Memory.{Memory}
use theo.Checksum.{Checksum, checksum_compare}
use theo.CellDirEntry.{CellDirEntry, cell_dir_entry_init, load_dir_entry}
use theo.CellDirEntry.Layout.{
  IsDirEntry, cell_dir_entry_init-IsDirEntry, load_dir_entry-IsDirEntry, store_dir_entry-outside,
}
use theo.CellDirEntry.Lookup.{lookup, count, used, count-zero}
use theo.CellDirEntry.Change.{Removed}
use theo.CellDirBlock.{find_entry}
use theo.CellDirBlock.Laws.{find_entry-some, find_entry-none}
use theo.CellDirOverflow.{
  CellDirOverflow, overflow_bottom, find_overflow, cell_dir_overflow_add, cell_dir_overflow_remove,
  cell_dir_overflow_get_chunk,
}
use theo.CellDirOverflow.Swap.{
  Unique, swap_out, swap_out-Removed, rows-swap_out, spilled, spilled-swap_out,
}
use theo.CellDirOverflow.Rows.{rows, length-rows, get_or-rows, rows-push, find_overflow-rows}

abbrev pub overflow_entries : CellDirOverflow → Memory → ℕ → List CellDirEntry
overflow_entries o m bt = rows m (overflow_bottom o bt) o.overflow_count

-- The entries lie inside the slab and are all in use.
pub record IsOverflow (o : CellDirOverflow) (m : Memory) (bt : ℕ) : Type 0 where
  pub fits : o.overflow_count * 36 ≤ bt
  pub small : o.overflow_count < 65536
  pub all_used : used (overflow_entries o m bt) ≡ o.overflow_count

module _ (o : CellDirOverflow) (m : Memory) (bt : ℕ) (v : IsOverflow o m bt) where
  pub cell_dir_overflow_get_chunk_lem :
      (c : Checksum) → cell_dir_overflow_get_chunk o m bt c ≡ lookup c (overflow_entries o m bt)
  unfolding cell_dir_overflow_get_chunk
  cell_dir_overflow_get_chunk_lem c =
      let es : List CellDirEntry = overflow_entries o m bt in
      let found = find_overflow-rows m c (overflow_bottom o bt) o.overflow_count v.all_used in
      elim (Option-cases (find_entry c es)) [
        | inl e ↦ ground (arith, found, e, find_entry-none c es)
        | inr (i, e) ↦
            let size = length-rows m (overflow_bottom o bt) o.overflow_count in
            let f = find_entry-some c es i e in
            let at = get_or-rows m (overflow_bottom o bt) o.overflow_count i cell_dir_entry_init in
            ground (arith, found, e, f.0, f.2, size, at)
      ]

  -- With room for one more entry and fewer than 65535 there, `cell_dir_overflow_add` puts an entry in
  -- front of the others and counts it. It writes no other bytes than the 36 of the new entry: all below
  -- it and all from the old entries on stay as they are.
  pub cell_dir_overflow_add_lem :
      (e : CellDirEntry)
      → IsDirEntry e
      → o.overflow_count < 65535
      → (o.overflow_count + 1) * 36 ≤ bt
      → let (o', m') = cell_dir_overflow_add o m bt e in
        (o'.overflow_count ≡ o.overflow_count + 1)
        × (overflow_entries o' m' bt ≡ e ∷ overflow_entries o m bt)
        × ((x : ℕ) → x < bt - (o.overflow_count + 1) * 36 → m' x ≡ m x)
        × ((x : ℕ) → bt - o.overflow_count * 36 ≤ x → m' x ≡ m x)
  unfolding cell_dir_overflow_add
  cell_dir_overflow_add_lem e ve lt room =
      let n : ℕ = o.overflow_count in
      let wraps : (n + 1) % 2 ^ 16 ≡ suc n = omega arith in
      let step : overflow_bottom o bt ≡ bt - suc n * 36 + 36 = omega (arith, v.fits) in
      rw (wraps, step)
        (
          omega arith,
          rows-push m (bt - suc n * 36) n e ve,
          λ x h. store_dir_entry-outside m (bt - suc n * 36) e x ve.bytes (omega arith),
          λ x h. store_dir_entry-outside m (bt - suc n * 36) e x ve.bytes (omega arith),
        )

-- The second list is the first less the entry of the checksum.
abbrev pub Without : Checksum → List CellDirEntry → List CellDirEntry → Type 0
Without c es es' =
    Removed c es es'
    × ((p : Checksum → Bool) → spilled p es' + (if p c then 1 else 0) ≡ spilled p es)

-- What a false or a true result of `cell_dir_overflow_remove` says.
abbrev pub OverflowRemoved :
    CellDirOverflow → Memory → ℕ → Checksum → Bool × CellDirOverflow × Memory → Type 0
OverflowRemoved o m bt c (false, o', m') =
    (o' ≡ o) × (m' ≡ m) × (count c (overflow_entries o m bt) ≡ 0)
OverflowRemoved o m bt c (true, o', m') =
    (o'.overflow_count + 1 ≡ o.overflow_count)
    × Without c (overflow_entries o m bt) (overflow_entries o' m' bt)
    × ((x : ℕ) → x < overflow_bottom o bt → m' x ≡ m x)
    × ((x : ℕ) → bt ≤ x → m' x ≡ m x)
    × ((i : ℕ) × (i < o.overflow_count)
        × (overflow_entries o' m' bt ≡ swap_out (overflow_entries o m bt) i))

abbrev pub overflow : ℕ → CellDirOverflow
overflow n = record { overflow_count = n }

remove_none :
    (o : CellDirOverflow) (m : Memory) (bt : ℕ) (c : Checksum)
    → IsOverflow o m bt
    → find_overflow m c (overflow_bottom o bt) o.overflow_count ≡ none
    → count c (overflow_entries o m bt) ≡ 0
remove_none o m bt c v e = count-zero c _ (
    find_entry-none c _
      (sym (find_overflow-rows m c (overflow_bottom o bt) o.overflow_count v.all_used) ∙ e))

remove_some :
    (n : ℕ) (m : Memory) (bt : ℕ) (c : Checksum) (i : ℕ)
    → IsOverflow (overflow (suc n)) m bt
    → Unique (overflow_entries (overflow (suc n)) m bt)
    → find_overflow m c (bt - suc n * 36) (suc n) ≡ some i
    → (i < suc n)
      × Without c
          (overflow_entries (overflow (suc n)) m bt)
          (swap_out (overflow_entries (overflow (suc n)) m bt) i)
remove_some n m bt c i v one e =
    let es : List CellDirEntry = rows m (bt - suc n * 36) (suc n) in
    let found = find_overflow-rows m c (bt - suc n * 36) (suc n) v.all_used in
    let f = find_entry-some c es i (sym found ∙ e) in
    (
      omega (arith, f.0, length-rows m (bt - suc n * 36) (suc n)),
      (swap_out-Removed c es i f.0 f.1 one, λ p. spilled-swap_out p c es i f.0 f.1),
    )

remove-eq_none :
    (n : ℕ) (m : Memory) (bt : ℕ) (c : Checksum)
    → find_overflow m c (bt - n * 36) n ≡ none
    → cell_dir_overflow_remove (overflow n) m bt c ≡ (false, overflow n, m)
unfolding cell_dir_overflow_remove find_overflow
remove-eq_none zero m bt c e = refl
remove-eq_none (suc zero) m bt c e = ground arith
remove-eq_none (suc (suc n)) m bt c e =
    let many : (suc (suc n) == 1) ≡ false = ground arith in rw (many, e)

find_one :
    (m : Memory) (c : Checksum) (a : ℕ)
    → find_overflow m c a 1 ≡ some 0
    → checksum_compare (load_dir_entry m a).checksum c ≡ true
unfolding find_overflow
find_one m c a e = ground arith

swap_out_one : (m m' : Memory) (a b : ℕ) → rows m' b 0 ≡ swap_out (rows m a 1) 0
unfolding rows swap_out
swap_out_one m m' a b = refl

bytes : length cell_dir_entry_init.checksum ≡ 32
bytes = cell_dir_entry_init-IsDirEntry.bytes

-- What a successful removal of the entry at index `i` comes to.
abbrev RemovedAt : ℕ → Memory → ℕ → ℕ → Bool × CellDirOverflow × Memory → Type 0
RemovedAt n m bt i (r, o', m') =
    (r ≡ true)
    × (o' ≡ overflow n)
    × (rows m' (bt - suc n * 36 + 36) n ≡ swap_out (rows m (bt - suc n * 36) (suc n)) i)
    × ((x : ℕ) → x < bt - suc n * 36 → m' x ≡ m x)
    × ((x : ℕ) → bt ≤ x → m' x ≡ m x)

remove-eq_some :
    (n : ℕ) (m : Memory) (bt : ℕ) (c : Checksum) (i : ℕ)
    → suc n < 65536
    → suc n * 36 ≤ bt
    → i < suc n
    → find_overflow m c (bt - suc n * 36) (suc n) ≡ some i
    → RemovedAt n m bt i (cell_dir_overflow_remove (overflow (suc n)) m bt c)
unfolding cell_dir_overflow_remove
remove-eq_some zero m bt c zero small fits lt e = rw (find_one m c (bt - 1 * 36) e) (
  refl,
  refl,
  swap_out_one m _ _ _,
  λ x h. store_dir_entry-outside m (bt - 1 * 36) _ x bytes (inl h),
  λ x h. store_dir_entry-outside m (bt - 1 * 36) _ x bytes (omega (arith, fits)),
)
remove-eq_some zero m bt c (suc i) small fits lt e = absurd (omega arith)
remove-eq_some (suc n) m bt c i small fits lt e =
    let many : (suc (suc n) == 1) ≡ false = ground arith in
    rw (many, e)
      (
        refl,
        ap overflow (omega arith),
        rows-swap_out m (bt - suc (suc n) * 36) (suc n) i lt,
        λ x h.
            store_dir_entry-outside _ (bt - suc (suc n) * 36) cell_dir_entry_init x bytes (inl h)
            ∙ store_dir_entry-outside m (bt - suc (suc n) * 36 + i * 36) _ x
                (load_dir_entry-IsDirEntry m _).bytes (omega arith),
        λ x h.
            store_dir_entry-outside _ (bt - suc (suc n) * 36) cell_dir_entry_init x bytes
              (omega (arith, fits))
            ∙ store_dir_entry-outside m (bt - suc (suc n) * 36 + i * 36) _ x
                (load_dir_entry-IsDirEntry m _).bytes (omega (arith, fits, lt)),
      )

RemovedAt-OverflowRemoved :
    (n : ℕ) (m : Memory) (bt : ℕ) (c : Checksum) (i : ℕ)
    → suc n * 36 ≤ bt
    → i < suc n
    → Without c (rows m (bt - suc n * 36) (suc n)) (swap_out (rows m (bt - suc n * 36) (suc n)) i)
    → (r : Bool × CellDirOverflow × Memory) → RemovedAt n m bt i r
    → OverflowRemoved (overflow (suc n)) m bt c r
RemovedAt-OverflowRemoved n m bt c i fits lt removed (false, o', m') h = cc
RemovedAt-OverflowRemoved n m bt c i fits lt removed (true, o', m') h =
    let count : o'.overflow_count ≡ n = ap (λ (o : CellDirOverflow). o.overflow_count) h.1 in
    let bottom : bt - n * 36 ≡ bt - suc n * 36 + 36 = omega arith in
    (omega arith, rw (count, bottom, h.2) removed, h.3, h.4, (i, lt, rw (count, bottom) h.2))

-- On a valid overflow where no checksum has two entries, removing a checksum takes out its entry and no
-- other, by moving the front entry, which is the newest, into its place, with the bytes below the overflow
-- and from `buffer_top` on left alone, or reports false, with nothing changed and no
-- entry for the checksum.
pub cell_dir_overflow_remove_lem :
    (n : ℕ) (m : Memory) (bt : ℕ) (c : Checksum)
    → IsOverflow (overflow n) m bt
    → Unique (overflow_entries (overflow n) m bt)
    → OverflowRemoved (overflow n) m bt c (cell_dir_overflow_remove (overflow n) m bt c)
unfolding find_overflow
cell_dir_overflow_remove_lem zero m bt c v one =
    subst (OverflowRemoved (overflow 0) m bt c) (sym (remove-eq_none 0 m bt c refl))
      (refl, refl, remove_none (overflow 0) m bt c v refl)
cell_dir_overflow_remove_lem (suc n) m bt c v one =
    elim (Option-cases (find_overflow m c (bt - suc n * 36) (suc n))) [
      | inl e ↦
          subst (OverflowRemoved (overflow (suc n)) m bt c) (sym (remove-eq_none (suc n) m bt c e))
            (refl, refl, remove_none (overflow (suc n)) m bt c v e)
      | inr (i, e) ↦
          let r = remove_some n m bt c i v one e in
          RemovedAt-OverflowRemoved n m bt c i v.fits r.0 r.1 _
            (remove-eq_some n m bt c i v.small v.fits r.0 e)
    ]
