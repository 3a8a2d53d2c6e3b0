-- ===== src/CellDirOverflow.antt =====
-- src/theo/cell_dir_overflow.c and cell_dir_overflow.h: directory entries that do not fit their
-- block, in the slab. They grow down from `buffer_top`, the offset of the cell's header.
pub mod Rows
pub mod Swap
pub mod Laws
use theo.Base.{
  ℕ, zero, suc, ◌+◌, ◌-◌, ◌*◌, ◌%◌, ◌^◌, Bool, true, false, Option, none, some, ◌==◌, if◌then◌else◌,
}
use mathlib.Core.Option
use theo.Checksum.{Checksum, checksum_compare}
use theo.Memory.{Memory}
use theo.CellDirEntry.{
  CellDirEntry, sizeof_cell_dir_entry, cell_dir_entry_init, load_dir_entry, store_dir_entry,
}

-- `overflow_count` has 16 bits.
pub record CellDirOverflow : Type 0 where
  pub overflow_count : ℕ

unfoldable pub cell_dir_overflow_init : CellDirOverflow
cell_dir_overflow_init = record { overflow_count = 0 }

-- The offset of the entry that was added last.
abbrev pub overflow_bottom : CellDirOverflow → ℕ → ℕ
overflow_bottom o buffer_top = buffer_top - o.overflow_count * sizeof_cell_dir_entry

unfoldable pub cell_dir_overflow_add :
    CellDirOverflow → Memory → ℕ → CellDirEntry → CellDirOverflow × Memory
cell_dir_overflow_add o m buffer_top e =
    let o' : CellDirOverflow = record { overflow_count = (o.overflow_count + 1) % 2 ^ 16 } in
    (o', store_dir_entry m (overflow_bottom o' buffer_top) e)

-- The loops of `cell_dir_overflow_remove` and `cell_dir_overflow_get_chunk`: `n` entries are left,
-- from offset `ptr` on.
unfoldable pub find_overflow : Memory → Checksum → ℕ → ℕ → Option ℕ
find_overflow m c ptr zero = none
find_overflow m c ptr (suc n) =
    if checksum_compare (load_dir_entry m ptr).checksum c
    then some 0
    else Option.map suc (find_overflow m c (ptr + sizeof_cell_dir_entry) n)

unfoldable pub cell_dir_overflow_remove :
    CellDirOverflow → Memory → ℕ → Checksum → Bool × CellDirOverflow × Memory
cell_dir_overflow_remove o m buffer_top c =
    let bottom : ℕ = overflow_bottom o buffer_top in
    if o.overflow_count == 1
    then (if checksum_compare (load_dir_entry m bottom).checksum c
        then (true, record { overflow_count = 0 }, store_dir_entry m bottom cell_dir_entry_init)
        else (false, o, m))
    else elim (find_overflow m c bottom o.overflow_count) [
      | none ↦ (false, o, m)
      | some i ↦ (
        true,
        record { overflow_count = (o.overflow_count + 2 ^ 16 - 1) % 2 ^ 16 },
        store_dir_entry
            (store_dir_entry m (bottom + i * sizeof_cell_dir_entry) (load_dir_entry m bottom))
            bottom cell_dir_entry_init,
      )
    ]

-- `some e`: the function returns true and has copied `e` out; `none`: it returns false.
unfoldable pub cell_dir_overflow_get_chunk :
    CellDirOverflow → Memory → ℕ → Checksum → Option CellDirEntry
cell_dir_overflow_get_chunk o m buffer_top c =
    let bottom : ℕ = overflow_bottom o buffer_top in
    if o.overflow_count == 0
    then none
    else Option.map (λ i. load_dir_entry m (bottom + i * sizeof_cell_dir_entry))
        (find_overflow m c bottom o.overflow_count)
