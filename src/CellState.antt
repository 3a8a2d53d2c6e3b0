-- ===== src/CellState.antt =====
-- The structures of cell.h, cell_header.h and cell_body.h. A cell is a slab of `slab_size` bytes. Its
-- last `sizeof_cell_header` bytes are the header, here a record; the bytes below it are a memory.
use theo.Base.{ℕ, ◌-◌}
use theo.Memory.{Memory}
use theo.CellDir.{CellDir}
use theo.CellIc.{CellIc}

pub record CellBody : Type 0 where
  pub top_entry_offset : ℕ
  pub next_entry_offset : ℕ

-- `entry_count` and `byte_count` are `int32_t`, here their bit patterns.
pub record CellHeader : Type 0 where
  pub magic : ℕ
  pub entry_count : ℕ
  pub byte_count : ℕ
  pub cell_ic : CellIc
  pub cell_body : CellBody
  pub cell_dir : CellDir

-- Three words, the counters, the two offsets, 256 blocks of 112 bytes and the overflow count.
abbrev pub sizeof_cell_header : ℕ
sizeof_cell_header = 28704

pub record Cell : Type 0 where
  pub cell_header : CellHeader
  pub slab : Memory
  pub slab_size : ℕ

-- The offset of the header, `buffer_top` in the functions of the directory.
abbrev pub buffer_top : Cell → ℕ
buffer_top cell = cell.slab_size - sizeof_cell_header
