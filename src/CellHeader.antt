-- ===== src/CellHeader.antt =====
-- src/theo/cell_header.c.
pub mod Remove
use theo.Base.{
  ℕ, ◌+◌, ◌-◌, ◌*◌, ◌%◌, ◌^◌, Bool, false, ◌&&◌, Option, some, ◌==◌, ltb, if◌then◌else◌, ◌>>=◌,
  ◌>>◌, always,
}
use theo.Memory.{Memory}
use theo.CellDirEntry.{CellDirEntry, sizeof_cell_dir_entry}
use theo.CellDir.{CellDir, cell_dir_init, cell_dir_add, cell_dir_remove}
use theo.CellIc.{cell_ic_init, cell_ic_sane}
use theo.CellBodyEntry.{CellBodyEntry, load_body_entry, store_body_entry}
use theo.CellState.{Cell, CellBody, CellHeader, sizeof_cell_header, buffer_top}

abbrev pub cell_header_magic : ℕ
cell_header_magic = 26061973

-- Whether an `int32_t` is above 0.
abbrev pub is_positive : ℕ → Bool
is_positive w = ltb 0 w && ltb w (2 ^ 31)

-- cell_body_set_top, on the entry at an offset of the slab.
unfoldable pub cell_body_set_top : Memory → ℕ → Memory
cell_body_set_top m a =
    store_body_entry m a (record (load_body_entry m a) { free_space = 1; top_entry = 1; size = 0 })

-- cell_body_init: the slab, and the `struct cell_body`.
unfoldable pub cell_body_init : Memory → Memory × CellBody
unfolding cell_body_set_top
cell_body_init m =
    let m' : Memory = cell_body_set_top m 0 in
    (
      store_body_entry m' 0 (record (load_body_entry m' 0) { previous_size = 0 }),
      record { top_entry_offset = 0; next_entry_offset = 0 },
    )

unfoldable pub cell_header_init : Cell → Cell
cell_header_init cell =
    let (m, body) = cell_body_init cell.slab in
    record cell {
      slab = m;
      cell_header = record {
        magic = cell_header_magic;
        entry_count = 0;
        byte_count = 0;
        cell_ic = cell_ic_init;
        cell_body = body;
        cell_dir = cell_dir_init;
      };
    }

unfoldable pub cell_header_sane : CellHeader → Bool
cell_header_sane h = if h.magic == cell_header_magic then cell_ic_sane h.cell_ic else false

unfoldable pub cell_header_bytes_used : CellHeader → ℕ
cell_header_bytes_used h =
    (sizeof_cell_header + h.cell_dir.overflow.overflow_count * sizeof_cell_dir_entry) % 2 ^ 32

-- The counts after `cell_header_remove`, which aborts when one of them is not above 0.
abbrev pub discount : Cell → ℕ → CellDir → Memory → Option Cell
discount cell size d m =
    let entries : ℕ = (cell.cell_header.entry_count + 2 ^ 32 - 1) % 2 ^ 32 in
    let bytes : ℕ = (cell.cell_header.byte_count + 2 ^ 32 - size) % 2 ^ 32 in
    always (is_positive entries)
    >> always (is_positive bytes)
    >> some (record cell {
      slab = m;
      cell_header = record (cell.cell_header) {
        entry_count = entries;
        byte_count = bytes;
        cell_dir = d;
      };
    })

-- It aborts too when the directory has nothing to remove.
unfoldable pub cell_header_remove : Cell → CellBodyEntry → Option Cell
cell_header_remove cell e =
    cell_dir_remove cell.cell_header.cell_dir cell.slab (buffer_top cell) e.checksum
    >>= λ (found, d, m). always found >> discount cell e.size d m

unfoldable pub cell_header_add : Cell → CellDirEntry → ℕ → Cell
cell_header_add cell e size =
    let (d, m) = cell_dir_add cell.cell_header.cell_dir cell.slab (buffer_top cell) e in
    record cell {
      slab = m;
      cell_header = record (cell.cell_header) {
        entry_count = (cell.cell_header.entry_count + 1) % 2 ^ 32;
        byte_count = (cell.cell_header.byte_count + size) % 2 ^ 32;
        cell_dir = d;
      };
    }

unfoldable pub cell_header_byte_count : CellHeader → ℕ
cell_header_byte_count h = h.byte_count

unfoldable pub cell_header_entry_count : CellHeader → ℕ
cell_header_entry_count h = h.entry_count
