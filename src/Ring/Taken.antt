-- ===== src/Ring/Taken.antt =====
-- `cell_add_chunk` and then `cell_get_chunk` of src/theo/cell.c.
use theo.Base.{◌+◌, ◌<◌, ◌≡◌, ◌≢◌, ◌⊎◌, sym, ap, ◌∙◌, inl, inr, true, false, none, some, List, ◌++◌}
use theo.Checksum.{Checksum}
use theo.CellDir.{block_no}
use theo.CellIc.{cell_ic_sane}
use theo.CellState.{Cell}
use theo.CellBody.{cell_body_free_space}
use theo.Chunk.{Chunk}
use theo.Cell.{cell_add_chunk, cell_get_chunk}
use theo.Ring.Chain.{Item, IsItem, size}
use theo.Ring.Place.{copies}
use theo.Ring.Offset.{IsStuck}
use theo.Ring.Add.{IsRing}
use theo.Ring.Find.{find, got, cell_get_chunk-find}
use theo.Ring.Contents.{Contents, cell_add_chunk-Contents}

-- The cell is a ring again. The chunk can be got with its bytes, or there was no room for it even with
-- all chunks behind the next entry gone. Any other chunk is got as before, or is gone.
pub record Taken (cell : Cell) (i : Item) (cell' : Cell) : Type 0 where
  pub before' : List Item
  pub post' : List Item
  pub ring : IsRing cell' before' post'
  pub sane : cell_ic_sane cell'.cell_header.cell_ic ≡ true
  pub own :
      (chunk : Chunk)
      → (cell_get_chunk cell' i.checksum chunk ≡ got i.checksum chunk (some i))
        ⊎ ((cell_get_chunk cell' i.checksum chunk ≡ some (false, chunk))
            × (cell_body_free_space cell' < size i + 72))
  pub others :
      (c : Checksum)
      → c ≢ i.checksum
      → block_no c < 256
      → (chunk : Chunk)
      → (cell_get_chunk cell' c chunk ≡ cell_get_chunk cell c chunk)
        ⊎ (cell_get_chunk cell' c chunk ≡ some (false, chunk))

pub ring-find :
    (cell : Cell) (before post : List Item) (c : Checksum)
    → IsRing cell before post
    → block_no c < 256
    → (chunk : Chunk) → cell_get_chunk cell c chunk ≡ got c chunk (find c (before ++ post))
ring-find cell before post c v low chunk =
    cell_get_chunk-find cell before post v.ring.q v.ring.g v.ring.r c v.ring.gap low chunk

Contents-Taken :
    (cell : Cell) (before post : List Item) (i : Item) (cell' : Cell)
    → IsRing cell before post
    → IsItem i
    → Contents before post i cell'
    → cell_ic_sane cell'.cell_header.cell_ic ≡ true
    → Taken cell i cell'
Contents-Taken cell before post i cell' v item k sane = record {
  before' = k.before';
  post' = k.post';
  ring = k.ring;
  sane = sane;
  own = λ chunk. elim k.own [
    | inl here ↦ inl (
        ring-find cell' k.before' k.post' i.checksum k.ring item.low chunk
        ∙ ap (got i.checksum chunk) here)
    | inr (gone, few) ↦ inr (
      ring-find cell' k.before' k.post' i.checksum k.ring item.low chunk
          ∙ ap (got i.checksum chunk) gone,
      few,
    )
  ];
  others = λ c ne low chunk.
      let new = ring-find cell' k.before' k.post' c k.ring low chunk in
      let old = ring-find cell before post c v low chunk in
      elim (k.others c ne) [
        | inl same ↦ inl (new ∙ ap (got c chunk) same ∙ sym old)
        | inr gone ↦ inr (new ∙ ap (got c chunk) gone)
      ];
}

-- On a ring, wherever its next entry is, `cell_add_chunk` of a chunk of 2 to 24 KiB whose checksum is not
-- there returns true, or it aborts. Where it returns, the cell is a ring and sane. The chunk can be got
-- with its bytes, or it was dropped since there is no room for it. Getting any other chunk gives what it
-- gave, or nothing. It aborts only where the next entry is below the top and has the size of the chunk,
-- fewer than 36 bytes are free, and at most one chunk lies behind the next entry.
pub cell_add_chunk-Taken :
    (cell : Cell) (before post : List Item) (i : Item)
    → IsRing cell before post
    → IsItem i
    → copies i.checksum before + copies i.checksum post ≡ 0
    → ((cell' : Cell) × (cell_add_chunk cell i.checksum i.bytes ≡ some (true, cell'))
        × Taken cell i cell')
      ⊎ ((cell_add_chunk cell i.checksum i.bytes ≡ none) × IsStuck cell i post)
cell_add_chunk-Taken cell before post i v item fresh =
    elim (cell_add_chunk-Contents cell before post i v item fresh) [
      | inl (cell', eq, k, sane) ↦
          inl (cell', eq, Contents-Taken cell before post i cell' v item k sane)
      | inr stuck ↦ inr stuck
    ]
