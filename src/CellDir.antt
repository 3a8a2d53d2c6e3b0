-- ===== src/CellDir.antt =====
-- src/theo/cell_dir.c and cell_dir.h: 256 blocks chosen by a byte of the checksum, and the overflow
-- that they share.
pub mod Empty
pub mod Frame
pub mod View
pub mod Add
pub mod Remove
use theo.Base.{
  ℕ, ◌+◌, Bool, true, false, Option, none, some, List, get_or, set, replicate, if◌then◌else◌, ◌>>=◌,
}
use theo.Checksum.{Checksum}
use theo.Memory.{Memory}
use theo.CellDirEntry.{CellDirEntry}
use theo.CellDirBlock.{
  CellDirBlock, cell_dir_block_init, cell_dir_block_add, cell_dir_block_remove,
  cell_dir_block_get_chunk, cell_dir_block_overflowed, cell_dir_block_increment_overflow,
  cell_dir_block_decrement_overflow,
}
use theo.CellDirOverflow.{
  CellDirOverflow, cell_dir_overflow_init, cell_dir_overflow_add, cell_dir_overflow_remove,
  cell_dir_overflow_get_chunk,
}

abbrev pub cell_dir_block_count : ℕ
cell_dir_block_count = 256

abbrev pub cell_dir_block_checksum_byte : ℕ
cell_dir_block_checksum_byte = 17

pub record CellDir : Type 0 where
  pub blocks : List CellDirBlock
  pub overflow : CellDirOverflow

unfoldable pub cell_dir_init : CellDir
cell_dir_init = record {
  blocks = replicate cell_dir_block_count cell_dir_block_init;
  overflow = cell_dir_overflow_init;
}

-- `block_no` of the three functions below.
abbrev pub block_no : Checksum → ℕ
block_no c = get_or c cell_dir_block_checksum_byte 0

-- `cell_dir->blocks[block_no]`.
abbrev pub block_at : CellDir → ℕ → CellDirBlock
block_at d n = get_or d.blocks n cell_dir_block_init

abbrev pub put_block : CellDir → ℕ → CellDirBlock → CellDir
put_block d n b = record d { blocks = set d.blocks n b }

-- `cell_dir_add` after its call of `cell_dir_block_add`.
abbrev pub add_or_overflow :
    CellDir → Memory → ℕ → CellDirEntry → Bool × CellDirBlock → CellDir × Memory
add_or_overflow d m buffer_top e (true, b) = (put_block d (block_no e.checksum) b, m)
add_or_overflow d m buffer_top e (false, b) =
    let (o, m') = cell_dir_overflow_add d.overflow m buffer_top e in
    (
      record (put_block d (block_no e.checksum) (cell_dir_block_increment_overflow b)) {
        overflow = o;
      },
      m',
    )

unfoldable pub cell_dir_add : CellDir → Memory → ℕ → CellDirEntry → CellDir × Memory
cell_dir_add d m buffer_top e =
    add_or_overflow d m buffer_top e (cell_dir_block_add (block_at d (block_no e.checksum)) e)

-- `cell_dir_remove` after its call of `cell_dir_overflow_remove`.
abbrev pub remove_overflowed :
    CellDir
    → Memory
    → Checksum
    → CellDirBlock
    → Bool × CellDirOverflow × Memory
    → Option (Bool × CellDir × Memory)
remove_overflowed d m c b (true, o, m') = cell_dir_block_decrement_overflow b >>= λ b'.
    some (true, record (put_block d (block_no c) b') { overflow = o }, m')
remove_overflowed d m c b (false, o, m') = some (false, record d { overflow = o }, m')

-- `cell_dir_remove` after its call of `cell_dir_block_remove`.
abbrev pub remove_or_overflow :
    CellDir → Memory → ℕ → Checksum → Bool × CellDirBlock → Option (Bool × CellDir × Memory)
remove_or_overflow d m buffer_top c (true, b) = some (true, put_block d (block_no c) b, m)
remove_or_overflow d m buffer_top c (false, b) =
    if cell_dir_block_overflowed b
    then remove_overflowed d m c b (cell_dir_overflow_remove d.overflow m buffer_top c)
    else some (false, d, m)

-- `none` is an abort; else the function's result comes first.
unfoldable pub cell_dir_remove : CellDir → Memory → ℕ → Checksum → Option (Bool × CellDir × Memory)
cell_dir_remove d m buffer_top c =
    remove_or_overflow d m buffer_top c (cell_dir_block_remove (block_at d (block_no c)) c)

-- `some e`: the function returns true and has copied `e` out; `none`: it returns false.
unfoldable pub cell_dir_get_chunk : CellDir → Memory → ℕ → Checksum → Option CellDirEntry
cell_dir_get_chunk d m buffer_top c =
    let b : CellDirBlock = block_at d (block_no c) in
    elim (cell_dir_block_get_chunk b c) [
      | some e ↦ some e
      | none ↦
          if cell_dir_block_overflowed b
          then cell_dir_overflow_get_chunk d.overflow m buffer_top c
          else none
    ]
