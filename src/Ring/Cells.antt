-- ===== src/Ring/Cells.antt =====
-- `cell_add_chunk` of src/theo/cell.c on the ring.
use theo.Base.{
  ℕ, ◌+◌, ◌<◌, ◌≡◌, ◌⊎◌, refl, inl, inr, true, Option, none, some, List, [], ◌∷◌, ◌++◌,
  length-append, ◌>>=◌, arith,
}
use theo.CellIc.{CellIc, cell_ic_sane, cell_ic_on_entry, cell_ic_on_exit}
use theo.CellIc.Laws.{cell_ic_on_exit-sane}
use theo.CellState.{Cell}
use theo.CellHeader.{cell_header_bytes_used}
use theo.CellBody.{cell_body_free_space, cell_body_add}
use theo.Cell.{on_entry, on_exit, cell_add_chunk}
use theo.Ring.Chain.{Item, IsItem, size}
use theo.Ring.Place.{copies}
use theo.Ring.Gap.{Gap, RingOf}
use theo.Ring.Left.{Left}
use theo.Ring.Finish.{Added, kept, lost}
use theo.Ring.Offset.{IsStuck}
use theo.Ring.Add.{IsRing, RingAdded, behind, wrapped, cell_body_add_lem}
use theo.Ring.Find.{listed-fresh}

-- The counters have no part in the ring.
abbrev pub set_ic : Cell → CellIc → Cell
set_ic cell ic = record cell { cell_header = record (cell.cell_header) { cell_ic = ic } }

ic-Gap :
    (cell : Cell) (ic : CellIc) (before : List Item) (q g r : ℕ) (post : List Item)
    → Gap cell before q g r post
    → Gap (set_ic cell ic) before q g r post
ic-Gap cell ic before q g r post v = record {
  whole = v.whole;
  dir = v.dir;
  apart = v.apart;
  top_is_top = v.top_is_top;
  front = v.front;
  order = v.order;
  back = v.back;
  listing = v.listing;
  single = v.single;
  entries = v.entries;
  bytes = v.bytes;
  total = v.total;
}

ic-RingOf :
    (cell : Cell) (ic : CellIc) (before post : List Item)
    → RingOf cell before post
    → RingOf (set_ic cell ic) before post
ic-RingOf cell ic before post v = record {
  q = v.q;
  g = v.g;
  r = v.r;
  gap = ic-Gap cell ic before v.q v.g v.r post v.gap;
  filled = v.filled;
  next_previous = v.next_previous;
}

ic-Added :
    (cell : Cell) (ic : CellIc) (before post : List Item) (i : Item)
    → Added before post i cell
    → Added before post i (set_ic cell ic)
unfolding cell_body_free_space cell_header_bytes_used
ic-Added cell ic before post i (kept {left} t ring) =
    kept t (ic-RingOf cell ic (before ++ i ∷ []) left ring)
ic-Added cell ic before post i (lost ring top few) = lost (ic-RingOf cell ic before [] ring) top few

-- The rings after an addition are such that another chunk can be added to them.
pub data CellAdded (before post : List Item) (i : Item) (cell : Cell) : Type 0 where
  appended :
      {left : List Item}
      → Left post left
      → IsRing cell (before ++ i ∷ []) left
      → CellAdded before post i cell
  restarted :
      {left : List Item}
      → post ≡ []
      → Left before left
      → IsRing cell (i ∷ []) left
      → CellAdded before post i cell
  ignored :
      {kept_before : List Item}
      → (kept_before ≡ before) ⊎ ((post ≡ []) × (kept_before ≡ []))
      → IsRing cell kept_before []
      → cell_body_free_space cell < size i + 72
      → CellAdded before post i cell

kept-IsRing :
    (cell : Cell) (before left : List Item) (i : Item)
    → RingOf cell (before ++ i ∷ []) left
    → IsRing cell (before ++ i ∷ []) left
kept-IsRing cell before left i ring = record {
  ring = ring;
  settled = inl (omega (arith, length-append before (i ∷ [])));
}

RingAdded-CellAdded :
    (before post : List Item) (i : Item) (cell : Cell)
    → RingAdded before post i cell
    → CellAdded before post i cell
RingAdded-CellAdded before post i cell (behind (kept {left} t ring)) =
    appended t (kept-IsRing cell before left i ring)
RingAdded-CellAdded before post i cell (behind (lost ring top few)) =
    ignored (inl refl) (record { ring = ring; settled = inr (inr top) }) few
RingAdded-CellAdded before post i cell (wrapped e (kept {left} t ring)) =
    restarted e t (kept-IsRing cell [] left i ring)
RingAdded-CellAdded before post i cell (wrapped e (lost ring top few)) =
    ignored (inr (e, refl)) (record { ring = ring; settled = inr (inr top) }) few

ic-RingAdded :
    (cell : Cell) (ic : CellIc) (before post : List Item) (i : Item)
    → RingAdded before post i cell
    → RingAdded before post i (set_ic cell ic)
ic-RingAdded cell ic before post i (behind a) = behind (ic-Added cell ic before post i a)
ic-RingAdded cell ic before post i (wrapped e a) = wrapped e (ic-Added cell ic [] before i a)

module _ (cell : Cell) (before post : List Item) (i : Item) (v : IsRing cell before post)
    (item : IsItem i) (fresh : copies i.checksum before + copies i.checksum post ≡ 0) where
  entered-IsRing : IsRing (on_entry cell) before post
  entered-IsRing = record {
    ring = ic-RingOf cell (cell_ic_on_entry cell.cell_header.cell_ic) before post v.ring;
    settled = v.settled;
  }

  add-eq :
      (o : Option Cell)
      → cell_body_add (on_entry cell) i.checksum i.bytes ≡ o
      → cell_add_chunk cell i.checksum i.bytes ≡ (o >>= λ cell'. some (true, on_exit cell'))
  unfolding cell_add_chunk
  add-eq o e = rw (
    listed-fresh cell before post v.ring.q v.ring.g v.ring.r i.checksum v.ring.gap item.low fresh,
    e,
    cell_add_chunk,
  )

  entered-IsStuck : IsStuck (on_entry cell) i post → IsStuck cell i post
  entered-IsStuck s = record {
    below = s.below;
    same_size = s.same_size;
    last = s.last;
    full = s.full;
  }

  -- On a ring, at whatever place its next entry is, `cell_add_chunk` of a chunk of 2 to 24 KiB that is not
  -- there returns true, or aborts for the one reason there is.
  pub cell_add_chunk-CellAdded :
      ((cell' : Cell) × (cell_add_chunk cell i.checksum i.bytes ≡ some (true, cell'))
        × CellAdded before post i cell'
        × (cell_ic_sane cell'.cell_header.cell_ic ≡ true))
      ⊎ ((cell_add_chunk cell i.checksum i.bytes ≡ none) × IsStuck cell i post)
  cell_add_chunk-CellAdded =
      elim (cell_body_add_lem (on_entry cell) before post i entered-IsRing item fresh) [
        | inl (cell', eq, added) ↦ inl (
          on_exit cell',
          add-eq (some cell') eq,
          RingAdded-CellAdded before post i (on_exit cell')
              (ic-RingAdded cell' (cell_ic_on_exit cell'.cell_header.cell_ic) before post i added),
          cell_ic_on_exit-sane cell'.cell_header.cell_ic,
        )
        | inr (eq, stuck) ↦ inr (add-eq none eq, entered-IsStuck stuck)
      ]
