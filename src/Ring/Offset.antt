-- ===== src/Ring/Offset.antt =====
-- `cell_body_add_offset` of src/theo/cell_body.c on the ring.
use theo.Base.{
  ℕ, ◌+◌, ◌*◌, ◌≤◌, ◌<◌, ◌≡◌, ◌⊎◌, refl, sym, ap, ◌∙◌, inl, inr, none, some, List, [], ◌∷◌, length,
  arith,
}
use mathlib.Core.Path.{subst}
use theo.CellBodyEntry.{CellBodyEntry, cell_body_entry_free}
use theo.CellState.{Cell, buffer_top}
use theo.CellHeader.Remove.{less_one}
use theo.CellBody.{top_offset, next_offset, entry_at, set_slab, evict, cell_body_add_offset}
use theo.Cell.Valid.{overflowed}
use theo.Ring.Chain.{Item, IsItem, size, stored, Chain-most}
use theo.Ring.Place.{copies}
use theo.Ring.Gap.{Gap, Filled, RingOf, g_le}
use theo.Ring.Evict.{first_removed, first-Gap, removed-entry}
use theo.Ring.Room.{IsSafe}
use theo.Ring.Store.{Head}
use theo.Ring.Left.{Left, Left-refl, Left-step, Left-copies}
use theo.Ring.Finish.{Added, Added-Left}
use theo.Ring.Rest.{used_slab, go_on, offset-eq, go_on_lem}

-- The gap once what was at the next entry has left the directory.
record Opened (cell : Cell) (before : List Item) (q : ℕ) (post : List Item) (i : Item)
    : Type 0 where
  pub r : ℕ
  pub left : List Item
  pub cell' : Cell
  pub evicts : evict cell (entry_at cell (next_offset cell)) ≡ some cell'
  pub was : (entry_at cell (next_offset cell)).size ≡ r
  pub is : entry_at cell' (next_offset cell') ≡ entry_at cell (next_offset cell)
  pub same_next : next_offset cell' ≡ next_offset cell
  pub gap : Gap cell' before q (next_offset cell' + 36 + r) r left
  pub head : Head cell' q
  pub behind : Left post left
  pub safe : IsSafe cell' before
  pub few : length post ≤ 1 + length left
  pub same_top : top_offset cell' ≡ top_offset cell
  pub same_end : buffer_top cell' ≡ buffer_top cell
  pub shrinks : overflowed cell' ≤ overflowed cell

module _ (cell : Cell) (before : List Item) (q g r : ℕ) (post : List Item) (i : Item)
    (v : Gap cell before q g r post) (safe : IsSafe cell before) where
  abbrev e : CellBodyEntry
  e = entry_at cell (next_offset cell)

  -- A free entry.
  open_free :
      e.free_space ≡ 1
      → e.top_entry ≡ 0
      → e.size ≡ r
      → e.previous_size ≡ q
      → g ≡ next_offset cell + 36 + r
      → Opened cell before q post i
  unfolding cell_body_entry_free
  open_free free low len prev ends = record {
    r = r;
    left = post;
    cell' = cell;
    evicts = rw free refl;
    was = len;
    is = refl;
    same_next = refl;
    gap = subst (λ a. Gap cell before q a r post) ends v;
    head = record { previous = prev; not_top = low };
    behind = Left-refl post;
    safe = safe;
    few = omega arith;
    same_top = refl;
    same_end = refl;
    shrinks = omega arith;
  }

-- The first chunk behind the next entry.
module _ (cell : Cell) (before : List Item) (q g r : ℕ) (j : Item) (post : List Item) (i : Item)
    (v : Gap cell before q g r (j ∷ post)) (safe : IsSafe cell before) (at : g ≡ next_offset cell)
    (same : r ≡ q) where
  here_r : entry_at cell (next_offset cell) ≡ stored r j
  here_r = ap (λ a. entry_at cell a) (sym at) ∙ v.back.0

  here : entry_at cell (next_offset cell) ≡ stored q j
  here = here_r ∙ ap (λ p. stored p j) same

  open_chunk : 0 < length before + length post → Opened cell before q (j ∷ post) i
  unfolding cell_body_entry_free
  open_chunk others =
      let out = first_removed v others in
      let is = removed-entry v out (next_offset cell) (omega (arith, g_le v, at)) in
      record {
        r = size j;
        left = post;
        cell' = less_one cell (size j) out.dir out.slab;
        evicts = rw here_r out.removes;
        was = ap (λ (b : CellBodyEntry). b.size) here;
        is = is;
        same_next = refl;
        gap =
            subst
              (λ a.
                Gap (less_one cell (size j) out.dir out.slab) before q (a + 36 + size j) (size j)
                  post)
              at (first-Gap v others);
        head = record {
          previous = ap (λ (b : CellBodyEntry). b.previous_size) (is ∙ here);
          not_top = ap (λ (b : CellBodyEntry). b.top_entry) (is ∙ here);
        };
        behind = Left-step j post post (Left-refl post);
        safe = safe;
        few = omega arith;
        same_top = refl;
        same_end = refl;
        shrinks = out.out.shrinks;
      }

opened :
    (cell : Cell) (before post : List Item) (i : Item) (ring : RingOf cell before post)
    → next_offset cell < top_offset cell
    → IsSafe cell before
    → Opened cell before ring.q post i
opened cell before post i ring below safe = go post ring.gap ring.filled
  where
    go :
        (is : List Item)
        → Gap cell before ring.q ring.g ring.r is
        → Filled cell ring.q ring.g ring.r
        → Opened cell before ring.q is i
    go is v (inr (free, low, len, ends)) =
        open_free cell before ring.q ring.g ring.r is i v safe free low len ring.next_previous ends
    go [] v (inl (at, same)) = absurd (omega (arith, below, at, v.back.0))
    go (j ∷ is) v (inl (at, same)) =
        open_chunk cell before ring.q ring.g ring.r j is i v safe at same (
          omega (
            arith,
            safe,
            at,
            v.back.2.most,
            Chain-most _ _ _ _ _ _ v.front,
            Chain-most _ _ _ _ _ _ v.back.3,
          ))

-- Why an addition can abort: the chunk has the length of the last entry below the top, and there is no room
-- for a directory entry.
pub record IsStuck (cell : Cell) (i : Item) (post : List Item) : Type 0 where
  pub below : next_offset cell < top_offset cell
  pub same_size : (entry_at cell (next_offset cell)).size ≡ size i
  pub last : length post ≤ 1
  pub full : buffer_top cell < top_offset cell + 72 + overflowed cell * 36

offset-go_on :
    (cell : Cell) (before post : List Item) (q : ℕ) (i : Item) (o : Opened cell before q post i)
    → cell.slab_size ≡ 1048576
    → cell_body_add_offset cell i.checksum i.bytes
      ≡ go_on 29128
          (set_slab o.cell' (used_slab o.cell' (next_offset o.cell')))
          (next_offset o.cell')
          o.r
          i
offset-go_on cell before post q i o whole =
    offset-eq cell o.cell' i o.evicts whole
    ∙ ap
        (λ a.
          go_on 29128 (set_slab o.cell' (used_slab o.cell' a)) a
            (entry_at cell (next_offset cell)).size i)
        (sym o.same_next)
    ∙ ap
        (λ b.
          go_on 29128 (set_slab o.cell' (used_slab o.cell' (next_offset o.cell')))
            (next_offset o.cell') b i)
        o.was

-- The addition where the next entry is below the top.
pub add_offset_lem :
    (cell : Cell) (before post : List Item) (i : Item) (ring : RingOf cell before post)
    → next_offset cell < top_offset cell
    → IsSafe cell before
    → IsItem i
    → copies i.checksum before + copies i.checksum post ≡ 0
    → ((cell' : Cell) × (cell_body_add_offset cell i.checksum i.bytes ≡ some cell')
        × Added before post i cell')
      ⊎ ((cell_body_add_offset cell i.checksum i.bytes ≡ none) × IsStuck cell i post)
add_offset_lem cell before post i ring below safe item fresh =
    let o = opened cell before post i ring below safe in
    let len : (entry_at o.cell' (next_offset o.cell')).size ≡ o.r =
      ap (λ (b : CellBodyEntry). b.size) o.is ∙ o.was in
    let start = offset-go_on cell before post ring.q i o ring.gap.whole in
    elim (go_on_lem o.cell' before ring.q o.r o.left i o.gap o.head len o.safe item
      (omega (arith, fresh, Left-copies i.checksum post o.left o.behind))) [
        | inl (cell', eq, added) ↦
            inl (cell', start ∙ eq, Added-Left before post o.left i cell' o.behind added)
        | inr (eq, same, none', full) ↦ inr (
          start ∙ eq,
          record {
            below = below;
            same_size = o.was ∙ same;
            last = omega (arith, o.few, ap (λ is. length is) none');
            full = omega (arith, full, o.same_top, o.same_end, o.shrinks);
          },
        )
      ]
