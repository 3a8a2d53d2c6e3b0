-- ===== src/Tests/Dir.antt =====
-- The theorems on the directory at concrete directories.
use theo.Base.{◌≤◌, ℕ, ◌≡◌, refl, ◌<◌, [], ◌∷◌, arith}
use theo.Memory.{Memory}
use theo.CellDirEntry.{cell_dir_entry_init}
use theo.CellDirEntry.Layout.{IsDirEntry}
use theo.CellDirEntry.Lookup.{used, count}
use theo.CellDirBlock.{CellDirBlock, cell_dir_block_add, cell_dir_block_remove}
use theo.CellDirBlock.Laws.{
  IsBlock, AddResult, RemoveResult, cell_dir_block_add_lem, cell_dir_block_remove_lem,
}
use theo.CellDirOverflow.{cell_dir_overflow_add, cell_dir_overflow_remove}
use theo.CellDirOverflow.Rows.{rows}
use theo.CellDirOverflow.Swap.{Unique}
use theo.CellDirOverflow.Laws.{
  IsOverflow, OverflowRemoved, overflow, overflow_entries, cell_dir_overflow_add_lem,
  cell_dir_overflow_remove_lem,
}
use theo.CellDir.{CellDir, cell_dir_init, cell_dir_add, cell_dir_remove, cell_dir_get_chunk}
use theo.CellDir.View.{IsDir, held, entry_of, entry_of-none, cell_dir_get_chunk_lem}
use theo.CellDir.Add.{DirAdded, cell_dir_add_lem}
use theo.CellDir.Remove.{RemoveOutcome, cell_dir_remove_lem}
use theo.CellDir.Empty.{cell_dir_init-empty, cell_dir_init-IsDir, zero'}
use theo.Tests.{sum, blank, entry, other}

abbrev top : ℕ
top = 1000

entry-IsDirEntry : IsDirEntry entry
entry-IsDirEntry = record { bytes = refl; offset_lt = omega arith; set_lt = omega arith }

other-IsDirEntry : IsDirEntry other
other-IsDirEntry = record { bytes = refl; offset_lt = omega arith; set_lt = omega arith }

-- A block of three entries, two of them in use.
abbrev block : CellDirBlock
block = record {
  entries = entry ∷ cell_dir_entry_init ∷ other ∷ [];
  entry_count = 2;
  overflow_count = 0;
}

block-IsBlock : IsBlock block
unfolding used cell_dir_entry_init
block-IsBlock = record { three = refl; counted = refl; overflow_lt = omega arith }

cell_dir_block_add_example : AddResult block block-IsBlock entry (cell_dir_block_add block entry)
cell_dir_block_add_example = cell_dir_block_add_lem block block-IsBlock entry refl

cell_dir_block_remove_example :
    RemoveResult block block-IsBlock (sum 9) (cell_dir_block_remove block (sum 9))
cell_dir_block_remove_example = cell_dir_block_remove_lem block block-IsBlock (sum 9)

empty-IsOverflow : IsOverflow (overflow 0) blank top
unfolding rows used
empty-IsOverflow = record { fits = omega arith; small = omega arith; all_used = refl }

empty-IsDir : IsDir cell_dir_init blank top
empty-IsDir = cell_dir_init-IsDir blank top

nothing_held : held cell_dir_init blank top (sum 7) ≡ 0
nothing_held =
    (entry_of-none cell_dir_init blank top (sum 7)).0 (cell_dir_init-empty blank top (sum 7))

cell_dir_add_example :
    DirAdded cell_dir_init blank top entry
      (cell_dir_add cell_dir_init blank top entry).0
      (cell_dir_add cell_dir_init blank top entry).1
cell_dir_add_example =
    cell_dir_add_lem cell_dir_init blank top entry empty-IsDir (omega arith) refl nothing_held
      entry-IsDirEntry (omega (arith, zero' blank top)) (omega (arith, zero' blank top))

-- The directory with the one entry.
abbrev one : CellDir × Memory
one = cell_dir_add cell_dir_init blank top entry

one-IsDir : IsDir one.0 one.1 top
one-IsDir =
    (cell_dir_add_lem cell_dir_init blank top entry empty-IsDir (omega arith) refl nothing_held
      entry-IsDirEntry (omega (arith, zero' blank top)) (omega (arith, zero' blank top))).valid

cell_dir_remove_example :
    RemoveOutcome one.0 one.1 top (sum 7) (cell_dir_remove one.0 one.1 top (sum 7))
cell_dir_remove_example = cell_dir_remove_lem one.0 one.1 top (sum 7) one-IsDir (omega arith)

cell_dir_get_chunk_example :
    cell_dir_get_chunk one.0 one.1 top (sum 7) ≡ entry_of one.0 one.1 top (sum 7)
cell_dir_get_chunk_example = cell_dir_get_chunk_lem one.0 one.1 top one-IsDir (sum 7) (omega arith)

cell_dir_overflow_add_example :
    let (o', m') = cell_dir_overflow_add (overflow 0) blank top entry in
    (o'.overflow_count ≡ 1)
    × (overflow_entries o' m' top ≡ entry ∷ overflow_entries (overflow 0) blank top)
    × ((x : ℕ) → x < 964 → m' x ≡ blank x)
    × ((x : ℕ) → 1000 ≤ x → m' x ≡ blank x)
cell_dir_overflow_add_example =
    cell_dir_overflow_add_lem (overflow 0) blank top empty-IsOverflow entry entry-IsDirEntry
      (omega arith) (omega arith)

-- The slab with the one entry.
abbrev spilt_one : Memory
spilt_one = (cell_dir_overflow_add (overflow 0) blank top entry).1

spilt_one-entries : overflow_entries (overflow 1) spilt_one top ≡ entry ∷ []
unfolding cell_dir_overflow_add rows
spilt_one-entries =
    (cell_dir_overflow_add_lem (overflow 0) blank top empty-IsOverflow entry entry-IsDirEntry
      (omega arith) (omega arith)).1

spilt_one-IsOverflow : IsOverflow (overflow 1) spilt_one top
unfolding used
spilt_one-IsOverflow = record {
  fits = omega arith;
  small = omega arith;
  all_used = rw spilt_one-entries refl;
}

spilt_one-Unique : Unique (overflow_entries (overflow 1) spilt_one top)
unfolding count
spilt_one-Unique c = rw spilt_one-entries (ground arith)

cell_dir_overflow_remove_example :
    OverflowRemoved
      (overflow 1)
      spilt_one
      top
      (sum 7)
      (cell_dir_overflow_remove (overflow 1) spilt_one top (sum 7))
cell_dir_overflow_remove_example =
    cell_dir_overflow_remove_lem 1 spilt_one top (sum 7) spilt_one-IsOverflow spilt_one-Unique
