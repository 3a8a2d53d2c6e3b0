-- ===== src/Ring/Finish.antt =====
-- `cell_body_add_offset` of src/theo/cell_body.c after its loop: the chunk fills the gap, or a part of it
-- with a free entry behind it, or the gap becomes the top.
use theo.Base.{
  ℕ, ◌+◌, ◌*◌, ◌≤◌, ◌<◌, ◌≡◌, ◌⊎◌, refl, sym, ap, ◌∙◌, inl, some, List, [], ◌∷◌, ◌++◌, length,
  arith,
}
use theo.CellState.{Cell, buffer_top}
use theo.CellBody.{top_offset, next_offset, entry_at, add_u32, cell_body_free_space, fill_exact}
use theo.Cell.Valid.{overflowed}
use theo.Ring.Chain.{Item, IsItem, size}
use theo.Ring.Place.{copies}
use theo.Ring.Gap.{Gap, RingOf, g_le, top_lt}
use theo.Ring.Room.{IsSafe, past}
use theo.Ring.Store.{Head, chunk_listed}
use theo.Ring.Fill.{head_previous}
use theo.Ring.Push.{Pushed, has_room, dropped}
use theo.Ring.Left.{Left, Left-refl, Left-nil, Left-Shorter, Left-Left}

-- A cell after the addition. The chunk is before the next entry and some of those behind it are left, or
-- the top was lowered to the next entry and there is no room for the chunk even so.
pub data Added (before post : List Item) (i : Item) (cell : Cell) : Type 0 where
  kept :
      {left : List Item}
      → Left post left
      → RingOf cell (before ++ i ∷ []) left
      → Added before post i cell
  lost :
      RingOf cell before []
      → next_offset cell ≡ top_offset cell
      → cell_body_free_space cell < size i + 72
      → Added before post i cell

pub Pushed-Added :
    (before post : List Item) (i : Item) (cell : Cell)
    → Pushed before i cell
    → Added before post i cell
Pushed-Added before post i cell (has_room ring) = kept (Left-nil post) ring
Pushed-Added before post i cell (dropped ring top few) = lost ring top few

-- What is left of what was left.
pub Added-Left :
    (before post mid : List Item) (i : Item) (cell : Cell)
    → Left post mid
    → Added before mid i cell
    → Added before post i cell
Added-Left before post mid i cell t (kept {left} t' ring) = kept (Left-Left post mid left t t') ring
Added-Left before post mid i cell t (lost ring top few) = lost ring top few

-- There is room for a directory entry, or a chunk behind the gap to make some.
abbrev pub HasSpare : Cell → List Item → Type 0
HasSpare cell post =
    (top_offset cell + 72 + overflowed cell * 36 ≤ buffer_top cell) ⊎ (0 < length post)

module _ (cell : Cell) (before : List Item) (q g r : ℕ) (post : List Item) (i : Item)
    (v : Gap cell before q g r post) (head : Head cell q) (item : IsItem i)
    (fresh : copies i.checksum before + copies i.checksum post ≡ 0)
    (safe : IsSafe cell before) where
  abbrev n : ℕ
  n = next_offset cell

  -- The gap has the length of the chunk.
  pub fill_exact_lem :
      HasSpare cell post
      → n + 36 + size i ≡ g
      → r ≡ size i
      → (cell' : Cell) × (fill_exact cell n i.checksum i.bytes ≡ some cell')
        × Added before post i cell'
  fill_exact_lem spare fits same =
      let k =
        chunk_listed cell before q g r post i v head item (omega (arith, fits)) fresh spare safe
          (omega (arith, fits, item.most)) in
      let at : add_u32 (next_offset k.cell') (36 + size i) ≡ next_offset k.cell' + 36 + size i =
        omega (arith, k.same_next, fits, g_le v, top_lt v) in
      let ends : g ≡ next_offset k.cell' + 36 + size i = omega (arith, k.same_next, fits) in
      (
        past k.cell' i,
        rw (k.adds, at) refl,
        kept (Left-Shorter post post k.left (Left-refl post) k.shorter) (record {
          q = size i;
          g = g;
          r = r;
          gap = k.gap;
          filled = inl (ends, same);
          next_previous =
              ap (λ a. (entry_at (past k.cell' i) a).previous_size) (sym ends)
              ∙ head_previous (past k.cell' i) (before ++ i ∷ []) (size i) g r k.left k.gap
              ∙ same;
        }),
      )
