-- ===== src/Cell/Valid.antt =====
-- The invariant of a cell whose ring has its next entry anywhere: the directory is valid, the ring
-- and the overflow do not meet, and every listed chunk lies below the top.
use theo.Base.{ℕ, ◌+◌, ◌*◌, ◌^◌, ◌≤◌, ◌<◌, ◌≡◌, some, Option, arith, true}
use theo.Checksum.{Checksum}
use theo.CellDirEntry.{CellDirEntry}
use theo.CellDir.View.{IsDir, entry_of}
use theo.CellState.{Cell, buffer_top, sizeof_cell_header}
use theo.CellHeader.{cell_header_bytes_used}
use theo.CellBody.{top_offset, cell_body_free_space, entry_at}
use theo.CellIc.{cell_ic_sane}
use theo.CellIc.Laws.{IsIc}

abbrev pub overflowed : Cell → ℕ
overflowed cell = cell.cell_header.cell_dir.overflow.overflow_count

-- The entry of a checksum in the directory of the cell.
abbrev pub listed : Cell → Checksum → Option CellDirEntry
listed cell c = entry_of cell.cell_header.cell_dir cell.slab (buffer_top cell) c

-- The end of the entry at an offset.
abbrev pub end_of : Cell → ℕ → ℕ
end_of cell a = a + 36 + (entry_at cell a).size

pub record IsCell (cell : Cell) : Type 0 where
  pub header_fits : sizeof_cell_header < cell.slab_size
  pub small : cell.slab_size < 2 ^ 31
  pub dir : IsDir cell.cell_header.cell_dir cell.slab (buffer_top cell)
  pub apart : top_offset cell + 36 + overflowed cell * 36 ≤ buffer_top cell
  pub placed :
      (c : Checksum) (e : CellDirEntry)
      → listed cell c ≡ some e
      → end_of cell e.offset ≤ top_offset cell
  pub top_is_top : (entry_at cell (top_offset cell)).top_entry ≡ 1

-- No call is under way on the cell, nor was one cut short.
pub record IsQuiet (cell : Cell) : Type 0 where
  pub codes : IsIc cell.cell_header.cell_ic
  pub sane : cell_ic_sane cell.cell_header.cell_ic ≡ true

module _ (cell : Cell) (v : IsCell cell) where
  -- The free space is what lies between the ring and the overflow: nothing wraps.
  pub cell_body_free_space_lem :
      cell_body_free_space cell + top_offset cell + 36 + overflowed cell * 36 ≡ buffer_top cell
  unfolding cell_body_free_space cell_header_bytes_used
  cell_body_free_space_lem = omega (arith, v.header_fits, v.small, v.apart)
