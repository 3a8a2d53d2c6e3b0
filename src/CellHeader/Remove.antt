-- ===== src/CellHeader/Remove.antt =====
-- `cell_header_remove` of src/theo/cell_header.c: what it takes away, and its aborts.
use theo.Base.{
  ℕ, ◌+◌, ◌-◌, ◌%◌, ◌^◌, ◌≤◌, ◌<◌, ◌≡◌, inl, inr, Bool, Option, none, some, Bool-cases, ◌>>=◌, ◌>>◌,
  always, arith,
}
use theo.Checksum.{Checksum}
use theo.Memory.{Memory}
use theo.CellBodyEntry.{CellBodyEntry}
use theo.CellDir.{CellDir, block_no}
use theo.CellDir.View.{IsDir, held}
use theo.CellDir.Remove.{DirRemoved, RemoveOutcome, removed, absent, cell_dir_remove_lem}
use theo.CellState.{Cell, buffer_top}
use theo.CellHeader.{is_positive, discount, cell_header_remove}

-- How many entries the directory of the cell holds for a checksum.
abbrev pub held_in : Cell → Checksum → ℕ
held_in cell c = held cell.cell_header.cell_dir cell.slab (buffer_top cell) c

-- The cell with another directory and slab, less one entry of a size.
abbrev pub less_one : Cell → ℕ → CellDir → Memory → Cell
less_one cell size d m = record cell {
  slab = m;
  cell_header = record (cell.cell_header) {
    entry_count = cell.cell_header.entry_count - 1;
    byte_count = cell.cell_header.byte_count - size;
    cell_dir = d;
  };
}

-- It returns where there is an entry to remove and entries and bytes are left, else it aborts.
pub data HeaderOutcome (cell : Cell) (e : CellBodyEntry) : Option Cell → Type 0 where
  returns :
      {d : CellDir} {m : Memory}
      → held_in cell e.checksum ≡ 1
      → 1 < cell.cell_header.entry_count
      → e.size < cell.cell_header.byte_count
      → DirRemoved cell.cell_header.cell_dir cell.slab (buffer_top cell) e.checksum d m
      → HeaderOutcome cell e (some (less_one cell e.size d m))
  nothing_held : held_in cell e.checksum ≡ 0 → HeaderOutcome cell e none
  last_entry : cell.cell_header.entry_count ≤ 1 → HeaderOutcome cell e none
  last_bytes : cell.cell_header.byte_count ≤ e.size → HeaderOutcome cell e none

module _ (cell : Cell) (e : CellBodyEntry)
    (v : IsDir cell.cell_header.cell_dir cell.slab (buffer_top cell))
    (low : block_no e.checksum < 256) (entries : cell.cell_header.entry_count < 2 ^ 31)
    (bytes : cell.cell_header.byte_count < 2 ^ 31) (short : e.size < 2 ^ 15) where
  discount_lem :
      (d : CellDir) (m : Memory)
      → held_in cell e.checksum ≡ 1
      → DirRemoved cell.cell_header.cell_dir cell.slab (buffer_top cell) e.checksum d m
      → HeaderOutcome cell e (discount cell e.size d m)
  discount_lem d m one out =
      let n : ℕ = (cell.cell_header.entry_count + 2 ^ 32 - 1) % 2 ^ 32 in
      let b : ℕ = (cell.cell_header.byte_count + 2 ^ 32 - e.size) % 2 ^ 32 in
      elim (Bool-cases (is_positive n)) [
        | inr no_more ↦ rw no_more (last_entry (ground arith))
        | inl more ↦ elim (Bool-cases (is_positive b)) [
          | inr no_bytes ↦ rw (more, no_bytes) (last_bytes (ground arith))
          | inl some_bytes ↦
              let left : 1 < cell.cell_header.entry_count = ground arith in
              let room : e.size < cell.cell_header.byte_count = ground arith in
              let n_eq : n ≡ cell.cell_header.entry_count - 1 = omega arith in
              let b_eq : b ≡ cell.cell_header.byte_count - e.size = omega arith in
              rw (more, some_bytes, n_eq, b_eq) (returns one left room out)
        ]
      ]

  after_dir :
      (o : Option (Bool × CellDir × Memory))
      → RemoveOutcome cell.cell_header.cell_dir cell.slab (buffer_top cell) e.checksum o
      → HeaderOutcome cell e (o >>= λ (found, d, m). always found >> discount cell e.size d m)
  after_dir o (removed {d'} {m'} one out) = discount_lem d' m' one out
  after_dir o (absent zero') = nothing_held zero'

  -- On a valid directory, with counts below 2^31: removing an entry of less than 32 KiB from the header
  -- takes it from the directory and from both counts, where it is listed and entries and bytes are left
  -- after it; the call aborts where it is not listed, is the last entry, or has the last bytes.
  pub cell_header_remove_lem : HeaderOutcome cell e (cell_header_remove cell e)
  unfolding cell_header_remove
  cell_header_remove_lem =
      after_dir _
        (cell_dir_remove_lem cell.cell_header.cell_dir cell.slab (buffer_top cell) e.checksum v low)
