-- ===== src/Tests.antt =====
-- The data of the tests.
mod Dir
mod Cells
mod Stream
mod Divide
mod Files
mod Replace
mod Ring
mod Threads
mod Life
mod Wrap
mod Whole
use theo.Base.{ℕ, List, replicate}
use theo.Checksum.{Checksum}
use theo.Memory.{Memory}
use theo.CellDirEntry.{CellDirEntry, cell_dir_entry_set}

-- A checksum of 32 equal bytes.
abbrev pub sum : ℕ → Checksum
sum k = replicate 32 k

abbrev pub blank : Memory
blank x = 0

abbrev pub entry : CellDirEntry
entry = record { checksum = sum 7; offset = 128; set = 1 }

abbrev pub other : CellDirEntry
other = record { checksum = sum 9; offset = 300; set = 1 }
