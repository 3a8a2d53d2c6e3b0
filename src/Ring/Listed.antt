-- ===== src/Ring/Listed.antt =====
-- A chunk enters the directory: `cell_header_add`.
use theo.Base.{
  ℕ, ◌+◌, ◌*◌, ◌%◌, ◌^◌, ◌≤◌, ◌<◌, ◌≡◌, ◌≢◌, refl, sym, ap, ◌∙◌, inl, inr, Option, none, some,
  Bool-cases, arith,
}
use mathlib.Core.Option
use theo.Checksum.{Checksum, checksum_compare, checksum_compare→eq, checksum_compare-false_ne}
use theo.Memory.{Memory}
use theo.CellDirEntry.{CellDirEntry, cell_dir_entry_set}
use theo.CellDirEntry.Layout.{IsDirEntry}
use theo.CellDir.{CellDir, cell_dir_add}
use theo.CellDir.View.{IsDir, entry_of-none}
use theo.CellDir.Add.{DirAdded, cell_dir_add_lem}
use theo.CellState.{Cell, buffer_top}
use theo.CellHeader.{cell_header_add}
use theo.Cell.Valid.{overflowed, listed}
use theo.Ring.Chain.{Item, IsItem, size}
use theo.Ring.Gap.{offset_of}

module _ (cell : Cell) (i : Item) (a : ℕ) where
  abbrev pub new_dir : CellDir × Memory
  new_dir =
      cell_dir_add cell.cell_header.cell_dir cell.slab (buffer_top cell)
        (cell_dir_entry_set i.checksum a)

  -- The cell with the chunk in its directory and counts.
  abbrev pub one_more : Cell
  one_more = record cell {
    slab = new_dir.1;
    cell_header = record (cell.cell_header) {
      entry_count = cell.cell_header.entry_count + 1;
      byte_count = cell.cell_header.byte_count + size i;
      cell_dir = new_dir.0;
    };
  }

  module _ (v : IsDir cell.cell_header.cell_dir cell.slab (buffer_top cell)) (w : IsItem i)
      (fresh : offset_of cell i.checksum ≡ none) (few : overflowed cell < 4095)
      (room : (overflowed cell + 1) * 36 ≤ buffer_top cell) (small : a < 2 ^ 31)
      (entries : cell.cell_header.entry_count < 2 ^ 31)
      (bytes : cell.cell_header.byte_count < 2 ^ 31) where
    unlisted : listed cell i.checksum ≡ none
    unlisted = ground (arith, fresh)

    is_entry : IsDirEntry (cell_dir_entry_set i.checksum a)
    unfolding cell_dir_entry_set
    is_entry = record { bytes = w.key; offset_lt = omega arith; set_lt = omega arith }

    pub dir_added :
        DirAdded cell.cell_header.cell_dir cell.slab
          (buffer_top cell)
          (cell_dir_entry_set i.checksum a)
          new_dir.0
          new_dir.1
    unfolding cell_dir_entry_set
    dir_added =
        cell_dir_add_lem cell.cell_header.cell_dir cell.slab (buffer_top cell) _ v w.low refl
          ((entry_of-none cell.cell_header.cell_dir cell.slab (buffer_top cell) i.checksum).0
            unlisted)
          is_entry few room

    pub cell_header_add-eq :
        cell_header_add cell (cell_dir_entry_set i.checksum a) (size i) ≡ one_more
    unfolding cell_header_add
    cell_header_add-eq =
        let n : (cell.cell_header.entry_count + 1) % 2 ^ 32 ≡ cell.cell_header.entry_count + 1 =
          omega arith in
        let b : (cell.cell_header.byte_count + size i) % 2 ^ 32
            ≡ cell.cell_header.byte_count + size i =
          omega (arith, w.most) in
        rw (n, b) refl

    listed_new : offset_of one_more i.checksum ≡ some a
    unfolding cell_dir_entry_set
    listed_new =
        ap (λ o. Option.map (λ (e : CellDirEntry). e.offset) o) dir_added.found
        ∙ ap some (omega arith)

    listed_other : (k : Checksum) → k ≢ i.checksum → offset_of one_more k ≡ offset_of cell k
    unfolding cell_dir_entry_set
    listed_other k ne =
        ap (λ o. Option.map (λ (e : CellDirEntry). e.offset) o) (dir_added.same k ne)

    -- What is listed after the addition.
    pub added-listing :
        (old new : Checksum → Option ℕ)
        → ((c : Checksum) → offset_of cell c ≡ old c)
        → new i.checksum ≡ some a
        → ((k : Checksum) → k ≢ i.checksum → new k ≡ old k)
        → (c : Checksum) → offset_of one_more c ≡ new c
    added-listing old new listing at same c = elim (Bool-cases (checksum_compare c i.checksum)) [
      | inl e ↦
          let eq : c ≡ i.checksum = checksum_compare→eq c i.checksum e in
          rw eq (listed_new ∙ sym at)
      | inr e ↦
          let ne : c ≢ i.checksum = checksum_compare-false_ne c i.checksum e in
          listed_other c ne ∙ listing c ∙ sym (same c ne)
    ]
