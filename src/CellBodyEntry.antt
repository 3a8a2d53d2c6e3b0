-- ===== src/CellBodyEntry.antt =====
-- src/theo/cell_body_entry.c and cell_body_entry.h: the header of an entry of the ring buffer.
pub mod Layout
pub mod Store
use theo.Base.{ℕ, ◌+◌, ◌*◌, ◌/◌, ◌%◌, ◌^◌, Bool, ◌==◌}
use theo.Checksum.{Checksum, checksum_init}
use theo.Memory.{Memory, read, write, load_word, store_word}

-- `free_space` and `top_entry` have one bit, `size` and `previous_size` 15.
pub record CellBodyEntry : Type 0 where
  pub checksum : Checksum
  pub free_space : ℕ
  pub top_entry : ℕ
  pub size : ℕ
  pub previous_size : ℕ

-- sizeof(struct cell_body_entry): 32 bytes of checksum and a word of bit-fields.
abbrev pub sizeof_cell_body_entry : ℕ
sizeof_cell_body_entry = 36

unfoldable pub cell_body_entry_init : CellBodyEntry
cell_body_entry_init = record {
  checksum = checksum_init;
  free_space = 0;
  top_entry = 0;
  size = 0;
  previous_size = 0;
}

unfoldable pub cell_body_entry_free : CellBodyEntry → Bool
cell_body_entry_free e = e.free_space == 1

unfoldable pub cell_body_entry_top : CellBodyEntry → Bool
cell_body_entry_top e = e.top_entry == 1

-- The entry at an offset of the slab: the bit-fields fill a word from its low end.
unfoldable pub load_body_entry : Memory → ℕ → CellBodyEntry
load_body_entry m a =
    let w : ℕ = load_word m (a + 32) in
    record {
      checksum = read m a 32;
      free_space = w % 2;
      top_entry = w / 2 % 2;
      size = w / 4 % 2 ^ 15;
      previous_size = w / 2 ^ 17 % 2 ^ 15;
    }

unfoldable pub store_body_entry : Memory → ℕ → CellBodyEntry → Memory
store_body_entry m a e =
    store_word (write m a e.checksum) (a + 32)
      (e.free_space + 2 * e.top_entry + 4 * e.size + 2 ^ 17 * e.previous_size)
