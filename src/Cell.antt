-- ===== src/Cell.antt =====
-- src/theo/cell.c: the functions of a cell as whole calls. Threads has their steps under the mutex.
pub mod Valid
pub mod Chunks
pub mod Reads
pub mod Replace
pub mod Recover
pub mod Top
pub mod Writes
pub mod Threads
use theo.Base.{
  ℕ, ◌+◌, ◌-◌, ◌%◌, ◌^◌, Bool, true, false, Option, none, some, List, ltb, if◌then◌else◌, ◌>>=◌,
  ◌>>◌, always,
}
use mathlib.Core.Option
use theo.Checksum.{Checksum}
use theo.Memory.{Memory, read}
use theo.CellDirEntry.{CellDirEntry}
use theo.CellDir.{cell_dir_get_chunk}
use theo.CellIc.{cell_ic_on_entry, cell_ic_on_exit}
use theo.CellBodyEntry.{CellBodyEntry, sizeof_cell_body_entry, load_body_entry}
use theo.CellState.{Cell, CellHeader, sizeof_cell_header, buffer_top}
use theo.CellHeader.{
  cell_header_sane, cell_header_init, cell_header_entry_count, cell_header_byte_count,
}
use theo.CellBody.{cell_body_add}
use theo.Chunk.{Chunk, chunk_set}

-- The header and the bytes are those of the mapped file; an insane header is made anew. `made` is whether
-- pthread_mutex_init returns 0, which it must.
unfoldable pub cell_init : Bool → CellHeader → Memory → ℕ → Option Cell
cell_init made h m slab_size =
    let cell : Cell = record { cell_header = h; slab = m; slab_size = slab_size } in
    always (ltb sizeof_cell_header slab_size)
    >> always made
    >> some (if cell_header_sane h then cell else cell_header_init cell)

-- `destroyed` is whether pthread_mutex_destroy returns 0, which it must.
unfoldable pub cell_release : Bool → Cell → Option Cell
cell_release destroyed cell = always destroyed >> some cell

abbrev pub on_entry : Cell → Cell
on_entry cell = record cell {
  cell_header = record (cell.cell_header) { cell_ic = cell_ic_on_entry cell.cell_header.cell_ic };
}

abbrev pub on_exit : Cell → Cell
on_exit cell = record cell {
  cell_header = record (cell.cell_header) { cell_ic = cell_ic_on_exit cell.cell_header.cell_ic };
}

-- What the directory of the cell says of a checksum.
abbrev pub dir_entry : Cell → Checksum → Option CellDirEntry
dir_entry cell c = cell_dir_get_chunk cell.cell_header.cell_dir cell.slab (buffer_top cell) c

-- `none` is an abort; else the function's result comes first.
unfoldable pub cell_add_chunk : Cell → Checksum → List ℕ → Option (Bool × Cell)
cell_add_chunk cell c buffer = elim (dir_entry cell c) [
  | some _ ↦ some (false, cell)
  | none ↦ cell_body_add (on_entry cell) c buffer >>= λ cell'. some (true, on_exit cell')
]

-- The chunk of a directory entry, copied out.
abbrev pub copy_chunk : Cell → Chunk → CellDirEntry → Option (Bool × Chunk)
copy_chunk cell chunk e =
    chunk_set chunk e.checksum
      (read cell.slab (e.offset + sizeof_cell_body_entry) (load_body_entry cell.slab e.offset).size)
    >>= λ chunk'. some (true, chunk')

unfoldable pub cell_get_chunk : Cell → Checksum → Chunk → Option (Bool × Chunk)
cell_get_chunk cell c chunk = elim (dir_entry cell c) [
  | some e ↦ copy_chunk cell chunk e
  | none ↦ some (false, chunk)
]

unfoldable pub cell_has_chunk : Cell → Checksum → Bool
cell_has_chunk cell c = elim (dir_entry cell c) [ some _ ↦ true | none ↦ false ]

unfoldable pub cell_entry_count : Cell → ℕ
cell_entry_count cell = cell_header_entry_count cell.cell_header

unfoldable pub cell_byte_count : Cell → ℕ
cell_byte_count cell = cell_header_byte_count cell.cell_header

-- `struct cache_metrics` of src/theo/cache_metrics.h, two `uint64_t`.
pub record CacheMetrics : Type 0 where
  pub byte_count : ℕ
  pub entry_count : ℕ

unfoldable pub cache_metrics_init : CacheMetrics
cache_metrics_init = record { byte_count = 0; entry_count = 0 }

-- An `int32_t` in 64 bits.
abbrev pub sign_extend : ℕ → ℕ
sign_extend w = if ltb w (2 ^ 31) then w else w + 2 ^ 64 - 2 ^ 32

unfoldable pub cell_get_metrics : Cell → CacheMetrics → CacheMetrics
unfolding cell_byte_count cell_entry_count
cell_get_metrics cell metrics = record {
  byte_count = (metrics.byte_count + sign_extend (cell_byte_count cell)) % 2 ^ 64;
  entry_count = (metrics.entry_count + sign_extend (cell_entry_count cell)) % 2 ^ 64;
}
