-- ===== src/Ring/History.antt =====
-- A cell from its start on: any number of calls of `cell_add_chunk` and `cell_init` of src/theo/cell.c, one
-- after another.
use theo.Base.{
  ◌+◌, ◌*◌, ◌<◌, ◌≡◌, ◌⊎◌, refl, sym, ap, ◌∙◌, inl, inr, Bool, true, false, Option, none, some,
  List, [], ◌∷◌, Bool-cases, arith,
}
use mathlib.Core.List.{Mem}
use mathlib.Core.Path.{subst}
use theo.Checksum.{Checksum}
use theo.CellDir.{block_no}
use theo.CellState.{Cell, CellHeader, buffer_top}
use theo.CellHeader.{cell_header_sane}
use theo.Memory.{Memory}
use theo.CellBody.{top_offset, next_offset, entry_at}
use theo.Chunk.{Chunk}
use theo.Cell.{cell_init, cell_add_chunk, cell_get_chunk}
use theo.Cell.Chunks.{filled}
use theo.Cell.Recover.{IsFresh, cell_init-insane}
use theo.Cell.Valid.{overflowed}
use theo.Ring.Chain.{Item, IsItem, size}
use theo.Ring.Fresh.{IsFresh-IsRing}
use theo.Ring.Past.{RingOfPast, called, past-get}

-- A cell after calls with these chunks, the last first. Between the calls it may be unmapped and mapped
-- again, in order, or with any bytes at all that a crash left under a header that is not sane.
pub data Filling : List Item → Cell → Type 0 where
  mapped : {cell : Cell} → IsFresh cell 1048576 → Filling [] cell
  taken :
      {past : List Item} {cell cell' : Cell} {i : Item} {b : Bool}
      → Filling past cell
      → IsItem i
      → cell_add_chunk cell i.checksum i.bytes ≡ some (b, cell')
      → Filling (i ∷ past) cell'
  reopened :
      {past : List Item} {cell cell' : Cell}
      → Filling past cell
      → cell_init true cell.cell_header cell.slab 1048576 ≡ some cell'
      → Filling past cell'
  crashed :
      {past : List Item} {cell cell' : Cell}
      → Filling past cell
      → (h : CellHeader) (m : Memory) → cell_header_sane h ≡ false
      → cell_init true h m 1048576 ≡ some cell'
      → Filling past cell'

cell_of : Cell → Option (Bool × Cell) → Cell
cell_of cell none = cell
cell_of cell (some (b, cell')) = cell'

init_of : Cell → Option Cell → Cell
init_of cell none = cell
init_of cell (some cell') = cell'

pub fresh-RingOfPast :
    (past : List Item) (cell : Cell) → IsFresh cell 1048576 → RingOfPast past cell
fresh-RingOfPast past cell f = record {
  before = [];
  post = [];
  ring = IsFresh-IsRing cell f;
  given = λ c i h. absurd (ground (arith, h));
}

-- A header that is not sane is made anew.
pub insane-RingOfPast :
    (past : List Item) (h : CellHeader) (m : Memory) (cell' : Cell)
    → cell_header_sane h ≡ false
    → cell_init true h m 1048576 ≡ some cell'
    → RingOfPast past cell'
unfolding init_of
insane-RingOfPast past h m cell' insane inits =
    let (made, eq, fresh) = cell_init-insane h m 1048576 (omega arith) (omega arith) insane in
    subst (RingOfPast past) (ap (init_of made) (sym eq ∙ inits)) (fresh-RingOfPast past made fresh)

-- A sane header is kept.
pub sane-eq :
    (cell cell' : Cell)
    → cell.slab_size ≡ 1048576
    → cell_header_sane cell.cell_header ≡ true
    → cell_init true cell.cell_header cell.slab 1048576 ≡ some cell'
    → cell ≡ cell'
unfolding cell_init init_of
sane-eq cell cell' whole sane inits =
    let kept : cell_init true cell.cell_header cell.slab 1048576
        ≡ some (record cell { slab_size = 1048576 }) =
      rw (sane, cell_init) refl in
    ap (λ n. record cell { slab_size = n }) whole ∙ ap (init_of cell) (sym kept ∙ inits)

-- A cell that is mapped again is as it was, or new.
pub reopened-RingOfPast :
    (past : List Item) (cell cell' : Cell)
    → RingOfPast past cell
    → cell_init true cell.cell_header cell.slab 1048576 ≡ some cell'
    → RingOfPast past cell'
reopened-RingOfPast past cell cell' v inits =
    elim (Bool-cases (cell_header_sane cell.cell_header)) [
      | inl sane ↦ subst (RingOfPast past) (sane-eq cell cell' v.ring.ring.gap.whole sane inits) v
      | inr insane ↦ insane-RingOfPast past cell.cell_header cell.slab cell' insane inits
    ]

pub next_of :
    (past : List Item) (cell cell' : Cell) (i : Item) (b : Bool)
    → RingOfPast past cell
    → IsItem i
    → cell_add_chunk cell i.checksum i.bytes ≡ some (b, cell')
    → RingOfPast (i ∷ past) cell'
unfolding cell_of
next_of past cell cell' i b v item returns = elim (called past cell i v item) [
  | inl next ↦
      subst (RingOfPast (i ∷ past)) (ap (cell_of cell) (sym next.returns ∙ returns)) next.after
  | inr (aborts, stuck) ↦ absurd (ground (arith, aborts, returns))
]

Filling-RingOfPast : (past : List Item) (cell : Cell) → Filling past cell → RingOfPast past cell
Filling-RingOfPast _ _ (mapped {cell} f) = fresh-RingOfPast [] cell f
Filling-RingOfPast _ _ (taken {past} {cell} {cell'} {i} {b} was item returns) =
    next_of past cell cell' i b (Filling-RingOfPast past cell was) item returns
Filling-RingOfPast _ _ (crashed {past} {cell} {cell'} was h m insane inits) =
    insane-RingOfPast past h m cell' insane inits
Filling-RingOfPast _ _ (reopened {past} {cell} {cell'} was inits) =
    reopened-RingOfPast past cell cell' (Filling-RingOfPast past cell was) inits

-- A cell of 1 MiB after calls of `cell_add_chunk` with chunks of 2 to 24 KiB, between which it may be
-- mapped again, also after a crash. One more such call returns, or it aborts. It aborts only where the
-- next entry is below the top and has the size of the chunk, and fewer than 36 bytes are free.
pub Filling-cell_add_chunk :
    (past : List Item) (cell : Cell) (i : Item)
    → Filling past cell
    → IsItem i
    → ((b : Bool) × (cell' : Cell) × (cell_add_chunk cell i.checksum i.bytes ≡ some (b, cell'))
        × Filling (i ∷ past) cell')
      ⊎ ((cell_add_chunk cell i.checksum i.bytes ≡ none)
          × (next_offset cell < top_offset cell)
          × ((entry_at cell (next_offset cell)).size ≡ size i)
          × (buffer_top cell < top_offset cell + 72 + overflowed cell * 36))
Filling-cell_add_chunk past cell i was item =
    elim (called past cell i (Filling-RingOfPast past cell was) item) [
      | inl next ↦ inl (next.b, next.cell', next.returns, taken was item next.returns)
      | inr (eq, stuck) ↦ inr (eq, stuck.below, stuck.same_size, stuck.full)
    ]

-- A cell of 1 MiB after calls of `cell_add_chunk` with chunks of 2 to 24 KiB, between which it may be
-- mapped again, also after a crash. `cell_get_chunk` of a checksum then finds nothing, or it returns the
-- bytes that one of the calls was given under this checksum.
pub Filling-cell_get_chunk :
    (past : List Item) (cell : Cell) (c : Checksum) (chunk : Chunk)
    → Filling past cell
    → block_no c < 256
    → (cell_get_chunk cell c chunk ≡ some (false, chunk))
      ⊎ ((i : Item) × Mem i past
          × (i.checksum ≡ c)
          × (cell_get_chunk cell c chunk ≡ some (true, filled chunk c i.bytes)))
Filling-cell_get_chunk past cell c chunk was low =
    past-get past cell c chunk (Filling-RingOfPast past cell was) low
