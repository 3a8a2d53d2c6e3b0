-- ===== src/Ring/Rest.antt =====
-- `cell_body_add_offset` of src/theo/cell_body.c on the ring, after its first eviction.
use theo.Base.{
  ℕ, ◌+◌, ◌*◌, ◌^◌, ◌<◌, ◌≡◌, ◌⊎◌, refl, ap, ◌∙◌, inl, inr, true, false, Option, none, some, List,
  [], ◌∷◌, ltb, ◌==◌, if◌then◌else◌, Bool-cases, ◌>>=◌, arith,
}
use mathlib.Core.Path.{subst}
use theo.Memory.{Memory}
use theo.CellBodyEntry.{CellBodyEntry, load_body_entry, store_body_entry}
use theo.CellBodyEntry.Layout.{
  IsBodyEntry, load_body_entry-IsBodyEntry, load-store_body_entry, store_body_entry-outside,
}
use theo.CellState.{Cell, buffer_top}
use theo.CellBody.{
  top_offset, next_offset, entry_at, add_u32, set_slab, evict, merge_entries, fill_merged,
  fill_exact, cell_body_add_offset,
}
use theo.Cell.Valid.{overflowed}
use theo.Ring.Chain.{Item, IsItem, size}
use theo.Ring.Place.{copies}
use theo.Ring.Gap.{Gap, top_lt}
use theo.Ring.Lower.{gap-write}
use theo.Ring.Room.{IsSafe}
use theo.Ring.Store.{Head}
use theo.Ring.Merge.{merge_entries_lem}
use theo.Ring.Finish.{Added, HasSpare, fill_exact_lem}
use theo.Ring.Stuck.{fill_exact-stuck}
use theo.Ring.Part.{fill_merged_lem}

-- The addition behind its first eviction.
abbrev pub go_on : ℕ → Cell → ℕ → ℕ → Item → Option Cell
go_on fuel used n len i =
    if len == size i
    then fill_exact used n i.checksum i.bytes
    else merge_entries fuel used n len (add_u32 (size i) 36) >>= fill_merged n i.checksum i.bytes

-- The entry is no longer free.
abbrev pub used_slab : Cell → ℕ → Memory
used_slab cell n =
    store_body_entry cell.slab n (record (load_body_entry cell.slab n) { free_space = 0 })

pub offset-eq :
    (cell cell' : Cell) (i : Item)
    → evict cell (entry_at cell (next_offset cell)) ≡ some cell'
    → cell.slab_size ≡ 1048576
    → cell_body_add_offset cell i.checksum i.bytes
      ≡ go_on 29128
          (set_slab cell' (used_slab cell' (next_offset cell)))
          (next_offset cell)
          (entry_at cell (next_offset cell)).size
          i
unfolding cell_body_add_offset
offset-eq cell cell' i evicts whole = rw (evicts, whole) refl

module _ (cell : Cell) (before : List Item) (q r : ℕ) (post : List Item) (i : Item)
    (v : Gap cell before q (next_offset cell + 36 + r) r post) (head : Head cell q)
    (len : (entry_at cell (next_offset cell)).size ≡ r) (safe : IsSafe cell before)
    (item : IsItem i) (fresh : copies i.checksum before + copies i.checksum post ≡ 0) where
  abbrev n : ℕ
  n = next_offset cell

  abbrev now : CellBodyEntry
  now = record (load_body_entry cell.slab n) { free_space = 0 }

  now-IsBodyEntry : IsBodyEntry now
  now-IsBodyEntry =
      let was = load_body_entry-IsBodyEntry cell.slab n in
      record {
        bytes = was.bytes;
        free_lt = omega arith;
        top_lt = was.top_lt;
        size_lt = was.size_lt;
        previous_lt = was.previous_lt;
      }

  abbrev used : Cell
  used = set_slab cell (used_slab cell n)

  at_n : entry_at used n ≡ now
  at_n = load-store_body_entry cell.slab n now now-IsBodyEntry

  used-Gap : Gap used before q (n + 36 + r) r post
  used-Gap =
      gap-write cell before q (n + 36 + r) r post (used_slab cell n) v
        (λ x h. store_body_entry-outside cell.slab n now x now-IsBodyEntry.bytes (omega (arith, h)))

  used-Head : Head used q
  used-Head = record {
    previous = ap (λ (b : CellBodyEntry). b.previous_size) at_n ∙ head.previous;
    not_top = ap (λ (b : CellBodyEntry). b.top_entry) at_n ∙ head.not_top;
  }

  r_small : r < 2 ^ 15
  r_small = omega (arith, len, (load_body_entry-IsBodyEntry cell.slab n).size_lt)

  -- The addition succeeds, or it aborts for the one reason.
  abbrev pub GoesOn : Type 0
  GoesOn =
      ((cell' : Cell) × (go_on 29128 used n r i ≡ some cell') × Added before post i cell')
      ⊎ ((go_on 29128 used n r i ≡ none)
          × (r ≡ size i)
          × (post ≡ [])
          × (buffer_top cell < top_offset cell + 72 + overflowed cell * 36))

  spare_or_not :
      HasSpare used post
      ⊎ ((post ≡ []) × (buffer_top cell < top_offset cell + 72 + overflowed cell * 36))
  spare_or_not = go post
    where
      go :
          (is : List Item)
          → HasSpare used is
            ⊎ ((is ≡ []) × (buffer_top cell < top_offset cell + 72 + overflowed cell * 36))
      go (j ∷ is) = inl (inr (omega arith))
      go [] =
          elim (Bool-cases (ltb (buffer_top cell) (top_offset cell + 72 + overflowed cell * 36))) [
            | inl full ↦ inr (refl, ground (arith, full))
            | inr room ↦ inl (inl (ground (arith, room)))
          ]

  exact_case : r ≡ size i → (r == size i) ≡ true → GoesOn
  exact_case same eq = elim spare_or_not [
    | inl spare ↦
        let (cell', fills, added) =
          fill_exact_lem used before q (n + 36 + r) r post i used-Gap used-Head item fresh safe
            spare (omega (arith, same)) same in
        inl (cell', rw eq fills, added)
    | inr (none', full) ↦
        let stuck =
          fill_exact-stuck used before q (n + 36 + r) r i
            (subst (λ is. Gap used before q (n + 36 + r) r is) none' used-Gap) used-Head item
            (omega (arith, fresh)) full (omega (arith, same)) same in
        inr (rw eq stuck, same, none', full)
  ]

  merge_case :
      (r == size i) ≡ false
      → (cell' : Cell) × (go_on 29128 used n r i ≡ some cell') × Added before post i cell'
  merge_case eq =
      let required : add_u32 (size i) 36 ≡ size i + 36 = omega (arith, item.most) in
      let outcome =
        merge_entries_lem before q (size i + 36) (omega (arith, item.least))
          (omega (arith, item.most)) 29128 used n r (n + 36 + r) r post used-Gap used-Head
          (record { has_size = ap (λ (b : CellBodyEntry). b.size) at_n ∙ len; ends = refl }) safe
          refl (omega (arith, r_small)) (omega (arith, top_lt v)) in
      let (cell', fills, added) = fill_merged_lem before q post i item fresh n _ outcome in
      let goes : go_on 29128 used n r i
          ≡ (merge_entries 29128 used n r (size i + 36) >>= fill_merged n i.checksum i.bytes) =
        rw (eq, required) refl in
      (cell', goes ∙ fills, added)

  pub go_on_lem : GoesOn
  go_on_lem = elim (Bool-cases (r == size i)) [
    | inl eq ↦ exact_case (ground (arith, eq)) eq
    | inr eq ↦ inl (merge_case eq)
  ]
