-- ===== src/Tests/Replace.antt =====
-- The theorems on replacing and on removing at a cell with two chunks of three bytes, the next entry
-- of which is set back to the first, and the theorem on getting.
use theo.Base.{
  ℕ, ◌≡◌, ◌≢◌, ◌≤◌, ◌<◌, ◌⊎◌, refl, sym, ap, ◌∙◌, inl, inr, List, [], ◌∷◌, false, some, none,
  Bool-cases, arith,
}
use mathlib.Core.Path.{subst}
use theo.Checksum.{Checksum, checksum_compare, checksum_compare→eq, checksum_compare-false_ne}
use theo.CellBodyEntry.{CellBodyEntry, cell_body_entry_free}
use theo.CellBodyEntry.Layout.{load_body_entry-agree}
use theo.CellDir.{cell_dir_init, block_no}
use theo.CellDirEntry.{CellDirEntry}
use theo.CellState.{Cell}
use theo.CellHeader.{cell_header_init, cell_header_remove}
use theo.CellHeader.Remove.{HeaderOutcome, cell_header_remove_lem}
use theo.CellBody.{top_offset, cell_body_free_space, entry_at, set_body, cell_body_add_offset}
use theo.Chunk.{Chunk}
use theo.Cell.Valid.{IsCell, overflowed, listed, end_of, cell_body_free_space_lem}
use theo.Cell.Top.{TopAdded, final, cell_body_add_top-TopAdded}
use theo.Cell.Recover.{IsFresh, cell_header_init-IsFresh}
use theo.Cell.Replace.{Replaced, cell_body_add_offset-Replaced}
use theo.Tests.{sum, blank}

abbrev mapped : Cell
mapped = record {
  cell_header = record {
    magic = 0;
    entry_count = 0;
    byte_count = 0;
    cell_ic = record { entry_code = 0; exit_code = 0 };
    cell_body = record { top_entry_offset = 0; next_entry_offset = 0 };
    cell_dir = cell_dir_init;
  };
  slab = blank;
  slab_size = 1048576;
}

abbrev bytes : List ℕ
bytes = 1 ∷ 2 ∷ 3 ∷ []

abbrev cell₀ : Cell
cell₀ = cell_header_init mapped

fresh₀ : IsFresh cell₀ 1048576
fresh₀ = cell_header_init-IsFresh mapped (omega arith) (omega arith)

few₀ : overflowed cell₀ < 4095
few₀ = omega (arith, fresh₀.none_overflowed)

room₀ : 75 ≤ cell_body_free_space cell₀
room₀ = omega (
  arith,
  cell_body_free_space_lem cell₀ fresh₀.valid,
  fresh₀.top_is_zero,
  fresh₀.none_overflowed,
  fresh₀.size,
)

abbrev cell₁ : Cell
cell₁ =
    final cell₀ (sum 7) bytes fresh₀.valid refl (omega arith) (fresh₀.empty (sum 7)) few₀
      (omega arith) room₀

added₁ : TopAdded cell₀ (sum 7) bytes cell₁
added₁ =
    cell_body_add_top-TopAdded cell₀ (sum 7) bytes fresh₀.valid refl (omega arith)
      (fresh₀.empty (sum 7)) few₀ (omega arith) room₀

differ : (a b : ℕ) → a ≢ b → sum a ≢ sum b
differ a b ne h = ground arith

unlisted₁ : (k : Checksum) → k ≢ sum 7 → listed cell₁ k ≡ none
unlisted₁ k ne = added₁.same k ne ∙ fresh₀.empty k

few₁ : overflowed cell₁ < 4095
few₁ = omega (arith, added₁.growth, fresh₀.none_overflowed)

room₁ : 75 ≤ cell_body_free_space cell₁
room₁ = omega (
  arith,
  cell_body_free_space_lem cell₁ added₁.valid,
  added₁.top_moves,
  fresh₀.top_is_zero,
  added₁.growth,
  fresh₀.none_overflowed,
  fresh₀.size,
)

fresh₁ : listed cell₁ (sum 9) ≡ none
fresh₁ = unlisted₁ (sum 9) (differ 9 7 (ground arith))

abbrev cell₂ : Cell
cell₂ = final cell₁ (sum 9) bytes added₁.valid refl (omega arith) fresh₁ few₁ (omega arith) room₁

added₂ : TopAdded cell₁ (sum 9) bytes cell₂
added₂ =
    cell_body_add_top-TopAdded cell₁ (sum 9) bytes added₁.valid refl (omega arith) fresh₁ few₁
      (omega arith) room₁

-- As `cell_body_add` leaves it when the top is reached.
abbrev cell : Cell
cell = set_body cell₂ (top_offset cell₂) 0

cell-IsCell : IsCell cell
cell-IsCell =
    let v = added₂.valid in
    record {
      header_fits = v.header_fits;
      small = v.small;
      dir = v.dir;
      apart = v.apart;
      placed = v.placed;
      top_is_top = v.top_is_top;
    }

first-offset : added₁.entry.offset ≡ 0
first-offset = added₁.place ∙ fresh₀.top_is_zero

top₁ : top_offset cell₁ ≡ 39
top₁ = omega (arith, added₁.top_moves, fresh₀.top_is_zero)

top₂ : top_offset cell₂ ≡ 78
top₂ = omega (arith, added₂.top_moves, top₁)

-- The first entry is where it was put, and as it was put there.
old-same : entry_at cell 0 ≡ entry_at cell₁ added₁.entry.offset
old-same =
    load_body_entry-agree cell₁.slab cell₂.slab 0 (λ x l u. added₂.below x (omega (arith, top₁)))
    ∙ ap (λ a. entry_at cell₁ a) (sym first-offset)

old-checksum : (entry_at cell 0).checksum ≡ sum 7
old-checksum = ap (λ (e : CellBodyEntry). e.checksum) old-same ∙ added₁.head_checksum

old-size : (entry_at cell 0).size ≡ 3
old-size = ap (λ (e : CellBodyEntry). e.size) old-same ∙ added₁.size

old-free : cell_body_entry_free (entry_at cell 0) ≡ false
unfolding cell_body_entry_free
old-free = ground (arith, ap (λ (e : CellBodyEntry). e.free_space) old-same ∙ added₁.head_free)

listed₂ : (k : Checksum) → k ≢ sum 9 → listed cell k ≡ listed cell₁ k
listed₂ k ne = added₂.same k ne

old-listed : listed cell (entry_at cell 0).checksum ≡ some added₁.entry
old-listed =
    ap (λ k. listed cell k) old-checksum
    ∙ listed₂ (sum 7) (differ 7 9 (ground arith))
    ∙ added₁.is_listed

new-fresh : listed cell (sum 11) ≡ none
new-fresh =
    listed₂ (sum 11) (differ 11 9 (ground arith)) ∙ unlisted₁ (sum 11) (differ 11 7 (ground arith))

-- The only other chunk begins behind the first.
others :
    (k : Checksum) (g : CellDirEntry)
    → k ≢ (entry_at cell 0).checksum
    → listed cell k ≡ some g
    → (end_of cell g.offset ≤ 0) ⊎ (39 ≤ g.offset)
others k g ne at = elim (Bool-cases (checksum_compare k (sum 9))) [
  | inl same ↦
      let eq : k ≡ sum 9 = checksum_compare→eq k (sum 9) same in
      let at' : listed cell₂ (sum 9) ≡ some g = subst (λ x. listed cell x ≡ some g) eq at in
      let is_e : added₂.entry ≡ g = cc (added₂.is_listed, at') in
      inr (omega (arith, ap (λ (x : CellDirEntry). x.offset) is_e, added₂.place, top₁))
  | inr other ↦
      let none' : listed cell k ≡ none =
        listed₂ k (checksum_compare-false_ne k (sum 9) other)
        ∙ unlisted₁ k (λ h. ne (h ∙ sym old-checksum)) in
      absurd (ground (arith, none', at))
]

space : 36 ≤ cell_body_free_space cell
space = omega (
  arith,
  cell_body_free_space_lem cell cell-IsCell,
  top₂,
  added₂.growth,
  added₁.growth,
  fresh₀.none_overflowed,
  fresh₀.size,
)

entries : cell.cell_header.entry_count ≡ 2
entries = omega (arith, fresh₀.no_entries)

byte_total : cell.cell_header.byte_count ≡ 6
byte_total = omega (arith, fresh₀.no_bytes)

old-low : block_no (entry_at cell 0).checksum < 256
old-low = rw old-checksum (omega arith)

cell_body_add_offset_example :
    (cell' : Cell) × (cell_body_add_offset cell (sum 11) bytes ≡ some cell')
    × Replaced cell (sum 11) bytes cell'
cell_body_add_offset_example =
    cell_body_add_offset-Replaced cell (sum 11) bytes added₁.entry cell-IsCell refl (omega arith)
      new-fresh (omega (arith, added₂.growth, added₁.growth, fresh₀.none_overflowed)) space
      (omega (arith, top₂)) old-size old-low old-listed others old-free (omega (arith, entries))
      (omega (arith, entries)) (omega (arith, old-size, byte_total)) (omega (arith, byte_total))

cell_header_remove_example :
    HeaderOutcome cell (entry_at cell 0) (cell_header_remove cell (entry_at cell 0))
cell_header_remove_example =
    cell_header_remove_lem cell (entry_at cell 0) cell-IsCell.dir old-low (omega (arith, entries))
      (omega (arith, byte_total)) (omega (arith, old-size))
