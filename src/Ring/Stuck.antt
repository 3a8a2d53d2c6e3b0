-- ===== src/Ring/Stuck.antt =====
-- `cell_body_add_dir_entry` of src/theo/cell_body.c where the last entry below the top is the chunk that was
-- just written: it is not in the directory yet, and its removal aborts.
use theo.Base.{
  ℕ, ◌+◌, ◌-◌, ◌*◌, ◌%◌, ◌^◌, ◌≤◌, ◌<◌, ◌≡◌, refl, sym, ◌∙◌, true, Option, none, List, [], ltb,
  arith,
}
use theo.CellDirEntry.{CellDirEntry, cell_dir_entry_set}
use theo.CellDir.View.{entry_of-none}
use theo.CellBodyEntry.{cell_body_entry_free}
use theo.CellState.{Cell, buffer_top}
use theo.CellHeader.{cell_header_remove}
use theo.CellHeader.Remove.{
  HeaderOutcome, returns, nothing_held, last_entry, last_bytes, cell_header_remove_lem,
}
use theo.CellBody.{
  top_offset, next_offset, entry_at, set_slab, cell_body_free_space, cell_body_add_dir_entry,
  fill_exact,
}
use theo.Cell.Valid.{overflowed, listed}
use theo.Ring.Chain.{Item, IsItem, size, stored}
use theo.Ring.Place.{copies, spot-none}
use theo.Ring.Gap.{Gap, few_entries, few_bytes, top_lt, free_space_lem}
use theo.Ring.Room.{Written}
use theo.Ring.Store.{Head, written_slab, written, written-Gap}

-- An entry that is not in the directory cannot be removed.
module _ (cell : Cell) (p : ℕ) (i : Item) (entries : cell.cell_header.entry_count < 2 ^ 31)
    (bytes : cell.cell_header.byte_count < 2 ^ 31) where
  none_removed :
      (o : Option Cell)
      → listed cell i.checksum ≡ none
      → HeaderOutcome cell (stored p i) o
      → o ≡ none
  none_removed o at (returns {d} {m} one left room out) = absurd (
      omega (
        arith,
        one,
        (entry_of-none cell.cell_header.cell_dir cell.slab (buffer_top cell) i.checksum).0 at,
      ))
  none_removed o at (nothing_held zero') = refl
  none_removed o at (last_entry few') = refl
  none_removed o at (last_bytes few') = refl

module _ (cell : Cell) (before : List Item) (q g r : ℕ) (i : Item) (v : Gap cell before q g r [])
    (head : Head cell q) (item : IsItem i) (fresh : copies i.checksum before ≡ 0)
    (full : buffer_top cell < top_offset cell + 72 + overflowed cell * 36)
    (fits : next_offset cell + 36 + size i ≡ g) (same : r ≡ size i) where
  abbrev n : ℕ
  n = next_offset cell

  fits' : n + 36 + size i ≤ g
  fits' = omega (arith, fits)

  abbrev c : Cell
  c = set_slab cell (written_slab cell before q g r [] i v head item fits')

  w : Written c q i
  w = written cell before q g r [] i v head item fits'

  v' : Gap c before q g r []
  v' = written-Gap cell before q g r [] i v head item fits'

  unlisted : listed c i.checksum ≡ none
  unlisted =
      ground (arith, v'.listing i.checksum, spot-none before g [] i.checksum (omega (arith, fresh)))

  removes : cell_header_remove c (stored q i) ≡ none
  removes =
      none_removed c q i (omega (arith, few_entries v')) (omega (arith, few_bytes v', top_lt v')) _
        unlisted
        (cell_header_remove_lem c (stored q i) v'.dir item.low (omega (arith, few_entries v'))
          (omega (arith, few_bytes v', top_lt v')) (omega (arith, item.most)))

  add_dir_entry-stuck : (e : CellDirEntry) (m : ℕ) → cell_body_add_dir_entry c e m ≡ none
  unfolding cell_body_add_dir_entry cell_body_entry_free
  add_dir_entry-stuck e m =
      let tight : ltb (cell_body_free_space c) 36 ≡ true =
        ground (arith, free_space_lem v', full) in
      let top : top_offset cell ≡ n + 36 + size i = sym v'.back.0 ∙ sym fits in
      let prev : (entry_at c (top_offset cell)).previous_size ≡ size i = sym v'.back.1 ∙ same in
      let below : (top_offset cell + 2 ^ 32 - (size i + 36)) % 2 ^ 32 ≡ n =
        omega (arith, top, top_lt v') in
      rw (tight, prev, below, w.header, removes) refl

  pub fill_exact-stuck : fill_exact cell n i.checksum i.bytes ≡ none
  fill_exact-stuck = rw (add_dir_entry-stuck (cell_dir_entry_set i.checksum n) (size i)) refl
