-- ===== src/CellIc.antt =====
-- src/theo/cell_ic.c: the integrity counters of a cell.
pub mod Laws
use theo.Base.{ℕ, ◌+◌, ◌%◌, ◌^◌, Bool, ◌==◌}

-- `struct cell_ic`, two `uint32_t`.
pub record CellIc : Type 0 where
  pub entry_code : ℕ
  pub exit_code : ℕ

unfoldable pub cell_ic_init : CellIc
cell_ic_init = record { entry_code = 0; exit_code = 0 }

unfoldable pub cell_ic_sane : CellIc → Bool
cell_ic_sane ic = ic.entry_code == ic.exit_code

unfoldable pub cell_ic_on_entry : CellIc → CellIc
cell_ic_on_entry ic = record ic { entry_code = (ic.entry_code + 1) % 2 ^ 32 }

unfoldable pub cell_ic_on_exit : CellIc → CellIc
cell_ic_on_exit ic = record ic { exit_code = ic.entry_code }
