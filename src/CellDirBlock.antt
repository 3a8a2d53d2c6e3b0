-- ===== src/CellDirBlock.antt =====
-- src/theo/cell_dir_block.c and cell_dir_block.h: a directory block of three entries, with the
-- number of its entries and of those that went to the overflow.
pub mod Laws
use theo.Base.{
  ℕ, zero, suc, ◌+◌, ◌-◌, ◌%◌, ◌^◌, Bool, true, false, Option, none, some, List, [], ◌∷◌, get_or,
  set, replicate, ◌==◌, ltb, if◌then◌else◌, ◌>>◌, always,
}
use mathlib.Core.Option
use theo.Checksum.{Checksum, checksum_compare}
use theo.CellDirEntry.{CellDirEntry, cell_dir_entry_init}

abbrev pub cell_dir_block_entries : ℕ
cell_dir_block_entries = 3

-- `entry_count` has 4 bits and `overflow_count` 12.
pub record CellDirBlock : Type 0 where
  pub entries : List CellDirEntry
  pub entry_count : ℕ
  pub overflow_count : ℕ

unfoldable pub cell_dir_block_init : CellDirBlock
unfolding cell_dir_entry_init
cell_dir_block_init = record {
  entries = replicate cell_dir_block_entries cell_dir_entry_init;
  entry_count = 0;
  overflow_count = 0;
}

-- The loop of `cell_dir_block_add`: the first entry that is not in use.
unfoldable pub free_slot : List CellDirEntry → Option ℕ
free_slot [] = none
free_slot (e ∷ es) = if e.set == 0 then some 0 else Option.map suc (free_slot es)

unfoldable pub cell_dir_block_add : CellDirBlock → CellDirEntry → Bool × CellDirBlock
unfolding free_slot
cell_dir_block_add b e = elim (free_slot b.entries) [
  | none ↦ (false, b)
  | some i ↦
      (true, record b { entries = set b.entries i e; entry_count = (b.entry_count + 1) % 2 ^ 4 })
]

-- The loop of `cell_dir_block_find`: the first entry in use for the checksum.
unfoldable pub find_entry : Checksum → List CellDirEntry → Option ℕ
find_entry c [] = none
find_entry c (e ∷ es) =
    let rest = Option.map suc (find_entry c es) in
    if e.set == 0 then rest else if checksum_compare c e.checksum then some 0 else rest

-- The pointer that the function returns is an index into `entries`, NULL is `none`.
unfoldable pub cell_dir_block_find : CellDirBlock → Checksum → Option ℕ
unfolding find_entry
cell_dir_block_find b c = if b.entry_count == 0 then none else find_entry c b.entries

unfoldable pub cell_dir_block_remove : CellDirBlock → Checksum → Bool × CellDirBlock
cell_dir_block_remove b c = elim (cell_dir_block_find b c) [
  | none ↦ (false, b)
  | some i ↦ (
    true,
    record b {
      entries = set b.entries i cell_dir_entry_init;
      entry_count = (b.entry_count + 2 ^ 4 - 1) % 2 ^ 4;
    },
  )
]

unfoldable pub cell_dir_block_full : CellDirBlock → Bool
cell_dir_block_full b = b.entry_count == cell_dir_block_entries

-- `some e`: the function returns true and has copied `e` out; `none`: it returns false.
unfoldable pub cell_dir_block_get_chunk : CellDirBlock → Checksum → Option CellDirEntry
cell_dir_block_get_chunk b c =
    Option.map (λ i. get_or b.entries i cell_dir_entry_init) (cell_dir_block_find b c)

unfoldable pub cell_dir_block_overflowed : CellDirBlock → Bool
cell_dir_block_overflowed b = ltb 0 b.overflow_count

unfoldable pub cell_dir_block_increment_overflow : CellDirBlock → CellDirBlock
cell_dir_block_increment_overflow b = record b { overflow_count = (b.overflow_count + 1) % 2 ^ 12 }

unfoldable pub cell_dir_block_decrement_overflow : CellDirBlock → Option CellDirBlock
cell_dir_block_decrement_overflow b =
    always (ltb 0 b.overflow_count)
    >> some (record b { overflow_count = (b.overflow_count + 2 ^ 12 - 1) % 2 ^ 12 })
