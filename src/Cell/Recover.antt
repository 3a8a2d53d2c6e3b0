-- ===== src/Cell/Recover.antt =====
-- `cell_init` of src/theo/cell.c on a cell that is mapped again after a crash in the midst of a call.
use theo.Base.{ℕ, ◌+◌, ◌≤◌, ◌<◌, ◌^◌, ◌≡◌, refl, ap, ◌∙◌, some, none, true, false, ltb, arith}
use theo.Checksum.{Checksum}
use theo.Memory.{Memory}
use theo.CellBodyEntry.{CellBodyEntry, load_body_entry}
use theo.CellBodyEntry.Layout.{IsBodyEntry, load-store_body_entry, load_body_entry-IsBodyEntry}
use theo.CellDir.Empty.{cell_dir_init-empty, cell_dir_init-IsDir, cell_dir_init-total, zero'}
use theo.CellDir.View.{dir_total}
use theo.CellIc.{cell_ic_sane, cell_ic_init, cell_ic_on_entry}
use theo.CellIc.Laws.{cell_ic_on_entry-insane}
use theo.CellState.{Cell, CellHeader, sizeof_cell_header, buffer_top}
use theo.CellHeader.{cell_body_init, cell_body_set_top, cell_header_init, cell_header_sane}
use theo.CellBody.{top_offset, next_offset, entry_at}
use theo.Cell.{cell_init}
use theo.Cell.Valid.{IsCell, IsQuiet, overflowed, listed}
use theo.Cell.Writes.{cell_body_set_top_lem}

-- A cell of a size that is valid and sane, and lists nothing.
pub record IsFresh (cell : Cell) (slab_size : ℕ) : Type 0 where
  pub valid : IsCell cell
  pub quiet : IsQuiet cell
  pub empty : (c : Checksum) → listed cell c ≡ none
  pub no_entries : cell.cell_header.entry_count ≡ 0
  pub no_bytes : cell.cell_header.byte_count ≡ 0
  pub none_overflowed : overflowed cell ≡ 0
  pub top_is_zero : top_offset cell ≡ 0
  pub next_is_top : next_offset cell ≡ top_offset cell
  pub size : cell.slab_size ≡ slab_size
  pub no_previous : (entry_at cell (top_offset cell)).previous_size ≡ 0
  pub nothing_used : dir_total cell.cell_header.cell_dir ≡ 0

module _ (m : Memory) where
  abbrev first_entry : CellBodyEntry
  first_entry = record (load_body_entry (cell_body_set_top m 0) 0) { previous_size = 0 }

  first_entry-IsBodyEntry : IsBodyEntry first_entry
  first_entry-IsBodyEntry =
      let old = load_body_entry-IsBodyEntry (cell_body_set_top m 0) 0 in
      record {
        bytes = old.bytes;
        free_lt = old.free_lt;
        top_lt = old.top_lt;
        size_lt = old.size_lt;
        previous_lt = omega arith;
      }

  first_is_top : (load_body_entry (cell_body_init m).0 0).top_entry ≡ 1
  unfolding cell_body_init
  first_is_top =
      ap (λ (e : CellBodyEntry). e.top_entry)
        (load-store_body_entry (cell_body_set_top m 0) 0 first_entry first_entry-IsBodyEntry)
      ∙ ap (λ (e : CellBodyEntry). e.top_entry) (cell_body_set_top_lem m 0)

  first_previous : (load_body_entry (cell_body_init m).0 0).previous_size ≡ 0
  unfolding cell_body_init
  first_previous =
      ap (λ (e : CellBodyEntry). e.previous_size)
        (load-store_body_entry (cell_body_set_top m 0) 0 first_entry first_entry-IsBodyEntry)

pub cell_header_init-IsFresh :
    (cell : Cell)
    → sizeof_cell_header + 36 ≤ cell.slab_size
    → cell.slab_size < 2 ^ 31
    → IsFresh (cell_header_init cell) cell.slab_size
unfolding cell_header_init cell_body_init cell_ic_init cell_ic_sane
cell_header_init-IsFresh cell fits small =
    let m = (cell_body_init cell.slab).0 in
    let bt = buffer_top cell in
    record {
      valid = record {
        header_fits = omega arith;
        small = small;
        dir = cell_dir_init-IsDir m bt;
        apart = rw (zero' m bt) (omega arith);
        placed = λ c e at. ground (arith, cell_dir_init-empty m bt c);
        top_is_top = first_is_top cell.slab;
      };
      quiet = record {
        codes = record { entry_lt = omega arith; exit_lt = omega arith };
        sane = refl;
      };
      empty = cell_dir_init-empty m bt;
      no_entries = refl;
      no_bytes = refl;
      none_overflowed = zero' m bt;
      top_is_zero = refl;
      next_is_top = refl;
      size = refl;
      no_previous = first_previous cell.slab;
      nothing_used = cell_dir_init-total;
    }

-- A header that is not sane makes `cell_init` give a fresh cell, whatever the bytes of the slab are.
pub cell_init-insane :
    (h : CellHeader) (m : Memory) (slab_size : ℕ)
    → sizeof_cell_header + 36 ≤ slab_size
    → slab_size < 2 ^ 31
    → cell_header_sane h ≡ false
    → (cell : Cell) × (cell_init true h m slab_size ≡ some cell) × IsFresh cell slab_size
unfolding cell_init
cell_init-insane h m slab_size fits small insane =
    let enough : ltb sizeof_cell_header slab_size ≡ true = ground arith in
    (
      cell_header_init (record { cell_header = h; slab = m; slab_size = slab_size }),
      rw (enough, insane) refl,
      cell_header_init-IsFresh (record { cell_header = h; slab = m; slab_size = slab_size }) fits
          small,
    )

-- A call that is cut short after `cell_ic_on_entry` leaves a header that is not sane, whatever else of
-- the header it has written.
crashed-insane :
    (cell : Cell) (h : CellHeader)
    → IsQuiet cell
    → h.cell_ic ≡ cell_ic_on_entry cell.cell_header.cell_ic
    → cell_header_sane h ≡ false
unfolding cell_header_sane
crashed-insane cell h quiet crashed =
    let insane : cell_ic_sane h.cell_ic ≡ false =
      rw crashed (cell_ic_on_entry-insane cell.cell_header.cell_ic quiet.codes quiet.sane) in
    ground arith

-- After a crash in the midst of a call on a sane cell, whatever bytes it left in the rest of the header
-- and in the slab, mapping the cell, with room for an entry, gives a fresh one: valid, sane and empty.
pub cell_init-crashed :
    (cell : Cell) (h : CellHeader) (m : Memory) (slab_size : ℕ)
    → IsQuiet cell
    → h.cell_ic ≡ cell_ic_on_entry cell.cell_header.cell_ic
    → sizeof_cell_header + 36 ≤ slab_size
    → slab_size < 2 ^ 31
    → (cell' : Cell) × (cell_init true h m slab_size ≡ some cell') × IsFresh cell' slab_size
cell_init-crashed cell h m slab_size quiet crashed fits small =
    cell_init-insane h m slab_size fits small (crashed-insane cell h quiet crashed)
