-- ===== src/CellDirEntry.antt =====
-- src/theo/cell_dir_entry.c and cell_dir_entry.h: a reference to a chunk of the cell.
pub mod Change
pub mod Lookup
pub mod Layout
use theo.Base.{ℕ, ◌+◌, ◌*◌, ◌/◌, ◌%◌, ◌^◌}
use theo.Checksum.{Checksum, checksum_init}
use theo.Memory.{Memory, read, write, load_word, store_word}

-- `offset` has 31 bits and `set` one.
pub record CellDirEntry : Type 0 where
  pub checksum : Checksum
  pub offset : ℕ
  pub set : ℕ

-- sizeof(struct cell_dir_entry): 32 bytes of checksum and a word of bit-fields.
abbrev pub sizeof_cell_dir_entry : ℕ
sizeof_cell_dir_entry = 36

unfoldable pub cell_dir_entry_init : CellDirEntry
unfolding checksum_init
cell_dir_entry_init = record { checksum = checksum_init; offset = 0; set = 0 }

unfoldable pub cell_dir_entry_set : Checksum → ℕ → CellDirEntry
cell_dir_entry_set c offset = record { checksum = c; offset = offset % 2 ^ 31; set = 1 }

-- An entry in the slab: the bit-fields fill a word from its low end.
unfoldable pub load_dir_entry : Memory → ℕ → CellDirEntry
load_dir_entry m a = record {
  checksum = read m a 32;
  offset = load_word m (a + 32) % 2 ^ 31;
  set = load_word m (a + 32) / 2 ^ 31 % 2;
}

-- cell_dir_entry_copy, or a memset by the empty entry, to offset `a` of the slab.
unfoldable pub store_dir_entry : Memory → ℕ → CellDirEntry → Memory
store_dir_entry m a e = store_word (write m a e.checksum) (a + 32) (e.offset + 2 ^ 31 * e.set)
