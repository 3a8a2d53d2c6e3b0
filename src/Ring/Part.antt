-- ===== src/Ring/Part.antt =====
-- `cell_body_add_offset` of src/theo/cell_body.c after its loop, where the gap is wider than the chunk.
use theo.Base.{
  ℕ, ◌+◌, ◌-◌, ◌≤◌, ◌<◌, ◌≡◌, refl, ap, ◌∙◌, inr, true, Option, some, List, [], ◌∷◌, ◌++◌, length,
  ◌>>=◌, arith,
}
use mathlib.Core.Path.{subst}
use theo.CellBodyEntry.{CellBodyEntry, cell_body_entry_top}
use theo.CellState.{Cell}
use theo.CellBody.{
  next_offset, entry_at, add_u32, set_slab, cell_body_push_down_top, cell_body_next_entry_is_top,
  write_rest, Merge, hit_top, merged, fill_merged,
}
use theo.Ring.Chain.{Item, IsItem, size}
use theo.Ring.Place.{copies}
use theo.Ring.Gap.{Gap, g_le, top_lt}
use theo.Ring.Room.{IsSafe, past}
use theo.Ring.Store.{Head, ChunkListed, chunk_listed}
use theo.Ring.Fill.{write_rest-RingOf}
use theo.Ring.Push.{push_down_lem}
use theo.Ring.Left.{Left, Left-refl, Left-Shorter, Left-copies}
use theo.Ring.Merge.{LastMerged, MergeOutcome, at_top, wide}
use theo.Ring.Finish.{Added, kept, Pushed-Added, Added-Left}

-- A part of a gap that ends below the top is filled.
module _ (cell : Cell) (before : List Item) (q g r : ℕ) (post : List Item) (i : Item) (ptr free : ℕ)
    (v : Gap cell before q g r post) (head : Head cell q) (item : IsItem i)
    (fresh : copies i.checksum before + copies i.checksum post ≡ 0) (safe : IsSafe cell before)
    (l : LastMerged cell ptr g r) (some_left : 0 < length post)
    (is : next_offset cell + 36 + free ≡ g) (fits : size i + 36 ≤ free)
    (near : g < next_offset cell + 36 + (size i + 36) + 32768) where
  abbrev n : ℕ
  n = next_offset cell

  part-eq :
      (entry_at cell g).top_entry ≡ 0
      → (k : ChunkListed cell before q g r post i v head item (omega (arith, is, fits)))
      → fill_merged n i.checksum i.bytes (merged cell ptr free)
        ≡ some (
            set_slab (past k.cell' i) (
              write_rest k.cell'.slab
                (next_offset (past k.cell' i))
                (size i)
                (free - (size i + 36))))
  unfolding cell_body_next_entry_is_top cell_body_entry_top
  part-eq low k =
      let at : ptr + ((entry_at cell ptr).size + 36) ≡ g = omega (arith, l.has_size, l.ends) in
      let next' : add_u32 (next_offset k.cell') (36 + size i) ≡ next_offset k.cell' + 36 + size i =
        omega (arith, k.same_next, is, fits, g_le v, top_lt v) in
      let len : add_u32 (size i) 36 ≡ size i + 36 = omega (arith, item.most) in
      rw (at, low, k.adds, next', len) refl

  pub part_lem :
      (entry_at cell g).top_entry ≡ 0
      → (cell' : Cell) × (fill_merged n i.checksum i.bytes (merged cell ptr free) ≡ some cell')
        × Added before post i cell'
  part_lem low =
      let k =
        chunk_listed cell before q g r post i v head item (omega (arith, is, fits)) fresh
          (inr some_left) safe (omega (arith, near, item.most)) in
      (
        _,
        part-eq low k,
        kept (Left-Shorter post post k.left (Left-refl post) k.shorter) (
            write_rest-RingOf (past k.cell' i) (before ++ i ∷ []) (size i) g r k.left
              (free - (size i + 36)) k.gap (omega (arith, k.same_next, is, fits))
              (omega (arith, near, is, item.most)) (omega (arith, item.most))),
      )

next_top :
    (cell : Cell) (ptr g r : ℕ)
    → LastMerged cell ptr g r
    → (entry_at cell g).top_entry ≡ 1
    → cell_body_next_entry_is_top cell.slab ptr ≡ true
unfolding cell_body_next_entry_is_top cell_body_entry_top
next_top cell ptr g r l top =
    let at : ptr + ((entry_at cell ptr).size + 36) ≡ g = omega (arith, l.has_size, l.ends) in
    rw (at, top) refl

-- How the addition ends after the loop.
module _ (before : List Item) (q : ℕ) (post : List Item) (i : Item) (item : IsItem i)
    (fresh : copies i.checksum before + copies i.checksum post ≡ 0) where
  abbrev pub AddedAfter : ℕ → Option Merge → Type 0
  AddedAfter next o =
      (cell' : Cell) × ((o >>= fill_merged next i.checksum i.bytes) ≡ some cell')
      × Added before post i cell'

  pushed-AddedAfter :
      (c : Cell) (g r : ℕ)
      → Gap c before q g r []
      → Head c q
      → next_offset c + 36 ≤ g
      → Added before post i (cell_body_push_down_top c (next_offset c) i.checksum i.bytes)
  pushed-AddedAfter c g r v h le =
      Pushed-Added before post i _
        (push_down_lem c before q g r i v h.previous item (omega (arith, fresh)) le)

  wide-AddedAfter :
      (c : Cell) (g r ptr free : ℕ) (left : List Item)
      → Gap c before q g r left
      → Head c q
      → LastMerged c ptr g r
      → Left post left
      → IsSafe c before
      → next_offset c + 36 + free ≡ g
      → size i + 36 ≤ free
      → g < next_offset c + 36 + (size i + 36) + 32768
      → AddedAfter (next_offset c) (some (merged c ptr free))
  wide-AddedAfter c g r ptr free [] v h l t safe is w near =
      let top : (entry_at c g).top_entry ≡ 1 =
        ap (λ a. (entry_at c a).top_entry) v.back.0 ∙ v.top_is_top in
      (
        cell_body_push_down_top c (next_offset c) i.checksum i.bytes,
        rw (next_top c ptr g r l top) refl,
        pushed-AddedAfter c g r v h (omega (arith, is)),
      )
  wide-AddedAfter c g r ptr free (j ∷ left) v h l t safe is w near =
      let (cell', eq, added) =
        part_lem c before q g r (j ∷ left) i ptr free v h item
          (omega (arith, fresh, Left-copies i.checksum post (j ∷ left) t)) safe l (omega arith) is w
          near (ap (λ (b : CellBodyEntry). b.top_entry) v.back.0) in
      (cell', eq, Added-Left before post (j ∷ left) i cell' t added)

  pub fill_merged_lem :
      (next : ℕ) (o : Option Merge)
      → MergeOutcome before q post (size i + 36) next o
      → AddedAfter next o
  fill_merged_lem next o (at_top {c} {g} {r} v h e le) =
      subst (λ a. AddedAfter a (some (hit_top c))) e (_, refl, pushed-AddedAfter c g r v h le)
  fill_merged_lem next o (wide {c} {g} {r} {ptr} {free} {left} v h e l t s f w near) =
      subst (λ a. AddedAfter a (some (merged c ptr free))) e
        (wide-AddedAfter c g r ptr free left v h l t s f w near)
