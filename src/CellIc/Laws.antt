-- ===== src/CellIc/Laws.antt =====
-- The integrity counters of src/theo/cell_ic.c on entry and on exit.
use theo.Base.{◌^◌, ◌<◌, ◌≡◌, true, false, arith}
use theo.CellIc.{CellIc, cell_ic_sane, cell_ic_on_entry, cell_ic_on_exit}

-- The counters are `uint32_t`.
pub record IsIc (ic : CellIc) : Type 0 where
  pub entry_lt : ic.entry_code < 2 ^ 32
  pub exit_lt : ic.exit_code < 2 ^ 32

-- After `cell_ic_on_entry` a sane pair of counters in range is not sane, also where the counter wraps.
pub cell_ic_on_entry-insane :
    (ic : CellIc) → IsIc ic → cell_ic_sane ic ≡ true → cell_ic_sane (cell_ic_on_entry ic) ≡ false
unfolding cell_ic_sane cell_ic_on_entry
cell_ic_on_entry-insane ic v h = ground arith

-- After `cell_ic_on_exit` it is sane again.
pub cell_ic_on_exit-sane : (ic : CellIc) → cell_ic_sane (cell_ic_on_exit ic) ≡ true
unfolding cell_ic_sane cell_ic_on_exit
cell_ic_on_exit-sane ic = ground arith

pub on_entry-on_exit-IsIc : (ic : CellIc) → IsIc ic → IsIc (cell_ic_on_exit (cell_ic_on_entry ic))
unfolding cell_ic_on_entry cell_ic_on_exit
on_entry-on_exit-IsIc ic v = record { entry_lt = omega arith; exit_lt = omega arith }
