-- ===== src/Tests/Cells.antt =====
-- The theorems on cells at a fresh cell of 1 MiB.
use theo.Base.{◌≡◌, ◌≤◌, refl, [], ◌∷◌, true, false, some, arith}
use theo.CellBodyEntry.{CellBodyEntry}
use theo.CellBodyEntry.Layout.{IsBodyEntry}
use theo.CellIc.{cell_ic_sane, cell_ic_on_entry}
use theo.CellIc.Laws.{cell_ic_on_entry-insane}
use theo.CellDir.{cell_dir_init}
use theo.CellState.{Cell, CellHeader}
use theo.CellHeader.{cell_header_init}
use theo.CellBody.{cell_body_free_space}
use theo.Cell.{cell_init, cell_add_chunk}
use theo.Cell.Valid.{cell_body_free_space_lem}
use theo.Cell.Chunks.{ChunkAdded, cell_add_chunk_lem}
use theo.Cell.Recover.{IsFresh, cell_header_init-IsFresh, cell_init-crashed}
use theo.Tests.{sum, blank}

abbrev body_entry : CellBodyEntry
body_entry = record {
  checksum = sum 7;
  free_space = 0;
  top_entry = 1;
  size = 3;
  previous_size = 20000;
}

body_entry-IsBodyEntry : IsBodyEntry body_entry
body_entry-IsBodyEntry = record {
  bytes = refl;
  free_lt = omega arith;
  top_lt = omega arith;
  size_lt = omega arith;
  previous_lt = omega arith;
}

abbrev mapped_header : CellHeader
mapped_header = record {
  magic = 0;
  entry_count = 0;
  byte_count = 0;
  cell_ic = record { entry_code = 2; exit_code = 1 };
  cell_body = record { top_entry_offset = 0; next_entry_offset = 0 };
  cell_dir = cell_dir_init;
}

-- What is mapped, and the cell that is made of it.
abbrev mapped : Cell
mapped = record { cell_header = mapped_header; slab = blank; slab_size = 1048576 }

abbrev cell : Cell
cell = cell_header_init mapped

cell-IsFresh : IsFresh cell 1048576
cell-IsFresh = cell_header_init-IsFresh mapped (omega arith) (omega arith)

room : 75 ≤ cell_body_free_space cell
room = omega (
  arith,
  cell_body_free_space_lem cell cell-IsFresh.valid,
  cell-IsFresh.top_is_zero,
  cell-IsFresh.none_overflowed,
  cell-IsFresh.size,
)

cell_add_chunk_example :
    (cell' : Cell) × (cell_add_chunk cell (sum 7) (1 ∷ 2 ∷ 3 ∷ []) ≡ some (true, cell'))
    × ChunkAdded cell (sum 7) (1 ∷ 2 ∷ 3 ∷ []) cell'
cell_add_chunk_example =
    cell_add_chunk_lem cell (sum 7) (1 ∷ 2 ∷ 3 ∷ []) cell-IsFresh.valid cell-IsFresh.quiet refl
      (omega arith) (cell-IsFresh.empty (sum 7)) (omega (arith, cell-IsFresh.none_overflowed))
      (omega arith) room cell-IsFresh.next_is_top

-- A header in the midst of a call: its other fields hold anything.
abbrev crashed : CellHeader
crashed = record mapped_header {
  magic = 26061973;
  cell_ic = cell_ic_on_entry cell.cell_header.cell_ic;
}

cell_init-crashed_example :
    (cell' : Cell) × (cell_init true crashed blank 1048576 ≡ some cell') × IsFresh cell' 1048576
cell_init-crashed_example =
    cell_init-crashed cell crashed blank 1048576 cell-IsFresh.quiet refl (omega arith) (omega arith)

cell_ic_on_entry-insane_example : cell_ic_sane (cell_ic_on_entry cell.cell_header.cell_ic) ≡ false
cell_ic_on_entry-insane_example =
    cell_ic_on_entry-insane cell.cell_header.cell_ic cell-IsFresh.quiet.codes
      cell-IsFresh.quiet.sane
