-- ===== src/Ring/Merge.antt =====
-- The loop of `cell_body_add_offset` in src/theo/cell_body.c: chunks behind the gap are deleted until the
-- gap is wide enough, or reaches the top.
use theo.Base.{
  ℕ, zero, suc, ◌+◌, ◌*◌, ◌^◌, ◌≤◌, ◌<◌, ◌≡◌, refl, sym, ap, ◌∙◌, inl, inr, true, false, Option,
  some, List, [], ◌∷◌, length, ltb, Bool-cases, arith,
}
use mathlib.Core.Path.{subst}
use theo.CellBodyEntry.{CellBodyEntry, cell_body_entry_free, cell_body_entry_top}
use theo.CellState.{Cell}
use theo.CellHeader.{cell_header_remove}
use theo.CellHeader.Remove.{less_one}
use theo.CellBody.{
  top_offset, next_offset, entry_at, add_u32, Merge, hit_top, merged, merge_entries,
}
use theo.Ring.Chain.{Item, IsItem, size, stored, Chain-most}
use theo.Ring.Gap.{Gap, g_le, top_lt}
use theo.Ring.Evict.{first_removed, first-Gap, removed-entry}
use theo.Ring.Room.{IsSafe}
use theo.Ring.Store.{Head}
use theo.Ring.Left.{Left, Left-refl, Left-step}

-- The last entry that was merged ends where the gap does.
pub record LastMerged (cell : Cell) (ptr g r : ℕ) : Type 0 where
  pub has_size : (entry_at cell ptr).size ≡ r
  pub ends : ptr + 36 + r ≡ g

-- How the loop ends: the gap reaches the top, or is wide enough.
pub data MergeOutcome (before : List Item) (q : ℕ) (post : List Item) (required next : ℕ)
    : Option Merge → Type 0 where
  at_top :
      {c : Cell} {g r : ℕ}
      → Gap c before q g r []
      → Head c q
      → next_offset c ≡ next
      → next_offset c + 36 ≤ g
      → MergeOutcome before q post required next (some (hit_top c))
  wide :
      {c : Cell} {g r ptr free : ℕ} {left : List Item}
      → Gap c before q g r left
      → Head c q
      → next_offset c ≡ next
      → LastMerged c ptr g r
      → Left post left
      → IsSafe c before
      → next_offset c + 36 + free ≡ g
      → required ≤ free
      → g < next_offset c + 36 + required + 32768
      → MergeOutcome before q post required next (some (merged c ptr free))

step-MergeOutcome :
    (before : List Item) (q : ℕ) (i : Item) (post : List Item) (required next : ℕ)
    (o : Option Merge)
    → MergeOutcome before q post required next o
    → MergeOutcome before q (i ∷ post) required next o
step-MergeOutcome before q i post required next o (at_top v h e le) = at_top v h e le
step-MergeOutcome before q i post required next o (wide {left = left} v h e l t s f w n) =
    wide v h e l (Left-step i post left t) s f w n

-- One round of the loop.
module _ (cell : Cell) (ptr free required fuel g r : ℕ) (l : LastMerged cell ptr g r) where
  at_g : ptr + ((entry_at cell ptr).size + 36) ≡ g
  at_g = omega (arith, l.has_size, l.ends)

  stops-wide :
      ltb free required ≡ false
      → merge_entries (suc fuel) cell ptr free required ≡ some (merged cell ptr free)
  unfolding merge_entries
  stops-wide enough = rw enough refl

  stops-top :
      ltb free required ≡ true
      → (entry_at cell g).top_entry ≡ 1
      → merge_entries (suc fuel) cell ptr free required ≡ some (hit_top cell)
  unfolding merge_entries cell_body_entry_top
  stops-top narrow top = rw (narrow, at_g, top) refl

  goes-on :
      (i : Item) (cell' : Cell)
      → ltb free required ≡ true
      → entry_at cell g ≡ stored r i
      → cell_header_remove cell (stored r i) ≡ some cell'
      → merge_entries (suc fuel) cell ptr free required
        ≡ merge_entries fuel cell' g (add_u32 free (size i + 36)) required
  unfolding merge_entries cell_body_entry_top cell_body_entry_free
  goes-on i cell' narrow at removes = rw (narrow, at_g, at, removes) refl

module _ (before : List Item) (q required : ℕ) (enough : 2084 ≤ required)
    (small : required ≤ 24612) where
  -- The rounds that a fuel allows end well.
  abbrev Merges : ℕ → Type 0
  Merges fuel =
      (cell : Cell) (ptr free g r : ℕ) (post : List Item)
      → Gap cell before q g r post
      → Head cell q
      → LastMerged cell ptr g r
      → IsSafe cell before
      → next_offset cell + 36 + free ≡ g
      → g < next_offset cell + 36 + required + 32768
      → top_offset cell < g + 36 * fuel
      → MergeOutcome before q post required (next_offset cell)
          (merge_entries fuel cell ptr free required)

  round :
      (n : ℕ)
      → Merges n
      → (cell : Cell) (ptr free g r : ℕ) (post : List Item) → Gap cell before q g r post
      → Head cell q
      → LastMerged cell ptr g r
      → IsSafe cell before
      → next_offset cell + 36 + free ≡ g
      → free < required
      → ltb free required ≡ true
      → top_offset cell < g + 36 * (suc n)
      → MergeOutcome before q post required
          (next_offset cell)
          (merge_entries (suc n) cell ptr free required)
  round n rec cell ptr free g r [] v h l safe is less go fuel =
      subst (λ o. MergeOutcome before q [] required (next_offset cell) o)
        (sym (
          stops-top cell ptr free required n g r l go
            (ap (λ a. (entry_at cell a).top_entry) v.back.0 ∙ v.top_is_top)))
        (at_top v h refl (omega (arith, is)))
  round n rec cell ptr free g r (i ∷ post) v h l safe is less go fuel =
      let item : IsItem i = v.back.2 in
      let others : 0 < length before + length post = omega (
        arith,
        safe,
        less,
        is,
        item.most,
        Chain-most _ _ _ _ _ _ v.front,
        Chain-most _ _ _ _ _ _ v.back.3,
      ) in
      let out = first_removed v others in
      let low : g + 2084 ≤ top_offset cell = omega (arith, g_le v) in
      let high : top_offset cell < 2 ^ 20 = omega (arith, top_lt v) in
      let same = removed-entry v out (next_offset cell) (omega (arith, v.order)) in
      let next' : add_u32 free (size i + 36) ≡ free + 36 + size i = omega (arith, item.most) in
      subst (λ o. MergeOutcome before q (i ∷ post) required (next_offset cell) o)
        (sym (goes-on cell ptr free required n g r l i _ go v.back.0 out.removes))
        (step-MergeOutcome before q i post required (next_offset cell) _ (
          rec (less_one cell (size i) out.dir out.slab) g (add_u32 free (size i + 36))
            (g + 36 + size i) (size i) post (first-Gap v others)
            (record {
              previous = ap (λ (b : CellBodyEntry). b.previous_size) same ∙ h.previous;
              not_top = ap (λ (b : CellBodyEntry). b.top_entry) same ∙ h.not_top;
            })
            (record {
              has_size =
                  ap (λ (b : CellBodyEntry). b.size)
                    (removed-entry v out g (omega (arith, low)) ∙ v.back.0);
              ends = refl;
            })
            safe (omega (arith, next', is)) (omega (arith, less, is, item.most))
            (omega (arith, fuel, item.least))))

  pub merge_entries_lem : (fuel : ℕ) → Merges fuel
  merge_entries_lem zero cell ptr free g r post v h l safe is near fuel =
      absurd (omega (arith, g_le v, fuel))
  merge_entries_lem (suc n) cell ptr free g r post v h l safe is near fuel =
      elim (Bool-cases (ltb free required)) [
        | inr stop ↦
            subst (λ o. MergeOutcome before q post required (next_offset cell) o)
              (sym (stops-wide cell ptr free required n g r l stop))
              (wide v h refl l (Left-refl post) safe is (ground (arith, stop)) near)
        | inl go ↦
            round n (merge_entries_lem n) cell ptr free g r post v h l safe is (ground (arith, go))
              go fuel
      ]
