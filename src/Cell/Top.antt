-- ===== src/Cell/Top.antt =====
-- A chunk that is added at the top of the ring.
use theo.Base.{
  ℕ, ◌+◌, ◌-◌, ◌*◌, ◌%◌, ◌^◌, ◌≤◌, ◌<◌, ◌≡◌, ◌≢◌, ◌⊎◌, refl, sym, ap, ◌∙◌, inl, inr, some, none,
  List, true, false, length, ltb, Bool-cases, arith,
}
use mathlib.Core.Path.{subst}
use theo.Checksum.{Checksum, checksum_compare, checksum_compare→eq, checksum_compare-false_ne}
use theo.Memory.{Memory, read}
use theo.Memory.Laws.{read-agree}
use theo.CellDirEntry.{CellDirEntry, cell_dir_entry_set}
use theo.CellDirEntry.Layout.{IsDirEntry}
use theo.CellBodyEntry.{CellBodyEntry, load_body_entry}
use theo.CellBodyEntry.Layout.{load_body_entry-agree}
use theo.CellBodyEntry.Store.{write_entry-outside, write_entry-header, write_entry-bytes}
use theo.CellDir.{CellDir, block_no, cell_dir_add}
use theo.CellDir.View.{IsDir, held, entry_of-none}
use theo.CellDir.Add.{DirAdded, cell_dir_add_lem}
use theo.CellDir.Frame.{IsDir-frame, entry_of-frame, spilt-frame}
use theo.CellState.{Cell, buffer_top}
use theo.CellHeader.{cell_header_add}
use theo.CellBody.{
  top_offset, next_offset, cell_body_free_space, entry_at, write_top, write_new_top,
  cell_body_add_top,
}
use theo.Cell.Valid.{IsCell, overflowed, listed, end_of, cell_body_free_space_lem}
use theo.Cell.Writes.{top_entry, top_entry-IsBodyEntry, write_new_top-outside, write_new_top-is_top}

-- The cell has gained the chunk at its old top, with a new top behind it. All else is as before.
pub record TopAdded (cell : Cell) (c : Checksum) (buffer : List ℕ) (cell' : Cell) : Type 0 where
  pub valid : IsCell cell'
  pub entry : CellDirEntry
  pub is_listed : listed cell' c ≡ some entry
  pub key : entry.checksum ≡ c
  pub place : entry.offset ≡ top_offset cell
  pub head_checksum : (entry_at cell' entry.offset).checksum ≡ c
  pub head_free : (entry_at cell' entry.offset).free_space ≡ 0
  pub size : (entry_at cell' entry.offset).size ≡ length buffer
  pub content : read cell'.slab (entry.offset + 36) (length buffer) ≡ buffer
  pub same : (k : Checksum) → k ≢ c → listed cell' k ≡ listed cell k
  pub below : (x : ℕ) → x < top_offset cell → cell'.slab x ≡ cell.slab x
  pub top_moves : top_offset cell' ≡ top_offset cell + 36 + length buffer
  pub next_is_top : next_offset cell' ≡ top_offset cell'
  pub growth : overflowed cell' ≤ overflowed cell + 1

module _ (cell : Cell) (c : Checksum) (buffer : List ℕ) (v : IsCell cell) (bytes : length c ≡ 32)
    (low : block_no c < 256) (fresh : listed cell c ≡ none) (few : overflowed cell < 4095)
    (short : length buffer < 2 ^ 15) (room : length buffer + 72 ≤ cell_body_free_space cell) where
  abbrev pub t : ℕ
  t = top_offset cell

  abbrev pub bt : ℕ
  bt = buffer_top cell

  abbrev pub d : CellDir
  d = cell.cell_header.cell_dir

  -- The slab when the chunk is written, when it is listed, and when the new top is written.
  abbrev pub m₁ : Memory
  m₁ = write_top cell.slab t c buffer

  abbrev pub e : CellDirEntry
  e = cell_dir_entry_set c t

  abbrev pub d' : CellDir
  d' = (cell_dir_add d m₁ bt e).0

  abbrev pub m₂ : Memory
  m₂ = (cell_dir_add d m₁ bt e).1

  abbrev pub m₃ : Memory
  m₃ = write_new_top m₂ (t + 36 + length buffer) (length buffer)

  fits : t + length buffer + 72 + (overflowed cell + 1) * 36 ≤ bt
  fits = omega (arith, cell_body_free_space_lem cell v)

  e-fields : (e.checksum ≡ c) × (e.offset ≡ t) × (e.set ≡ 1)
  unfolding cell_dir_entry_set
  e-fields = (refl, omega (arith, v.small, v.apart), refl)

  e-IsDirEntry : IsDirEntry e
  unfolding cell_dir_entry_set
  e-IsDirEntry = record { bytes = bytes; offset_lt = omega arith; set_lt = omega arith }

  outside₁ : (x : ℕ) → (x < t) ⊎ (t + 36 + length buffer ≤ x) → m₁ x ≡ cell.slab x
  outside₁ =
      write_entry-outside cell.slab t (top_entry cell.slab t c buffer) buffer
        (top_entry-IsBodyEntry cell.slab t c buffer bytes)

  same₁ : (x : ℕ) → bt - overflowed cell * 36 ≤ x → x < bt → m₁ x ≡ cell.slab x
  same₁ x l u = outside₁ x (inr (omega (arith, fits)))

  dir₁ : IsDir d m₁ bt
  dir₁ = IsDir-frame d cell.slab m₁ bt v.dir.overflow_valid.fits same₁ v.dir

  fresh₁ : held d m₁ bt c ≡ 0
  fresh₁ =
      rw (spilt-frame d cell.slab m₁ bt v.dir.overflow_valid.fits same₁)
        ((entry_of-none d cell.slab bt c).0 fresh)

  added : DirAdded d m₁ bt e d' m₂
  unfolding cell_dir_entry_set
  added = cell_dir_add_lem d m₁ bt e dir₁ low refl fresh₁ e-IsDirEntry few (omega (arith, fits))

  outside₃ : (x : ℕ) → x < t + 36 + length buffer → m₃ x ≡ m₁ x
  outside₃ x u =
      write_new_top-outside m₂ (t + 36 + length buffer) (length buffer) x (inl u)
      ∙ added.frame x (omega (arith, fits))

  same₃ : (x : ℕ) → bt - d'.overflow.overflow_count * 36 ≤ x → x < bt → m₃ x ≡ m₂ x
  same₃ x l u =
      write_new_top-outside m₂ (t + 36 + length buffer) (length buffer) x
        (inr (omega (arith, fits, added.growth)))

  -- The cell that results.
  abbrev pub final : Cell
  final = record cell {
    slab = m₃;
    cell_header = record (cell.cell_header) {
      entry_count = (cell.cell_header.entry_count + 1) % 2 ^ 32;
      byte_count = (cell.cell_header.byte_count + length buffer) % 2 ^ 32;
      cell_dir = d';
      cell_body = record {
        top_entry_offset = t + 36 + length buffer;
        next_entry_offset = t + 36 + length buffer;
      };
    };
  }

  pub cell_body_add_top-eq : cell_body_add_top cell c buffer ≡ (true, final)
  unfolding cell_body_add_top cell_header_add
  cell_body_add_top-eq =
      let enough : ltb (cell_body_free_space cell) ((length buffer + 36 + 36) % 2 ^ 32) ≡ false =
        ground (arith, room) in
      let top : (t + (length buffer + 36)) % 2 ^ 32 ≡ t + 36 + length buffer =
        omega (arith, fits, v.small) in
      rw (enough, top)

  header : load_body_entry m₃ t ≡ top_entry cell.slab t c buffer
  header =
      load_body_entry-agree m₁ m₃ t (λ x l u. outside₃ x (omega arith))
      ∙ write_entry-header cell.slab t (top_entry cell.slab t c buffer) buffer
          (top_entry-IsBodyEntry cell.slab t c buffer bytes)

  content₃ : read m₃ (t + 36) (length buffer) ≡ buffer
  content₃ =
      read-agree m₃ m₁ (t + 36) (length buffer) (λ x l u. outside₃ x (omega arith))
      ∙ write_entry-bytes cell.slab t (top_entry cell.slab t c buffer) buffer
          (top_entry-IsBodyEntry cell.slab t c buffer bytes)

  new_listed : listed final c ≡ some e
  unfolding cell_dir_entry_set
  new_listed = entry_of-frame d' m₂ m₃ bt added.valid.overflow_valid.fits same₃ c ∙ added.found

  same_listed : (k : Checksum) → k ≢ c → listed final k ≡ listed cell k
  unfolding cell_dir_entry_set
  same_listed k ne =
      entry_of-frame d' m₂ m₃ bt added.valid.overflow_valid.fits same₃ k
      ∙ added.same k ne
      ∙ entry_of-frame d cell.slab m₁ bt v.dir.overflow_valid.fits same₁ k

  below_top : (x : ℕ) → x < t → m₃ x ≡ cell.slab x
  below_top x u = outside₃ x (omega arith) ∙ outside₁ x (inl u)

  placed_old :
      (k : Checksum) (f : CellDirEntry)
      → listed cell k ≡ some f
      → end_of final f.offset ≤ t + 36 + length buffer
  placed_old k f at =
      let same : load_body_entry m₃ f.offset ≡ load_body_entry cell.slab f.offset =
        load_body_entry-agree cell.slab m₃ f.offset
          (λ x l u. below_top x (omega (arith, v.placed k f at))) in
      omega (arith, v.placed k f at, ap (λ (b : CellBodyEntry). b.size) same)

  placed_final :
      (k : Checksum) (f : CellDirEntry)
      → listed final k ≡ some f
      → end_of final f.offset ≤ t + 36 + length buffer
  placed_final k f at = elim (Bool-cases (checksum_compare k c)) [
    | inl e' ↦
        let same : k ≡ c = checksum_compare→eq k c e' in
        let at' : listed final c ≡ some f = subst (λ x. listed final x ≡ some f) same at in
        let is_e : e ≡ f = cc new_listed in
        let offset : f.offset ≡ t = ap (λ (x : CellDirEntry). x.offset) (sym is_e) ∙ e-fields.1 in
        rw offset (omega (arith, ap (λ (b : CellBodyEntry). b.size) header))
    | inr ne ↦ placed_old k f (sym (same_listed k (checksum_compare-false_ne k c ne)) ∙ at)
  ]

  -- With room for it, a chunk that is not listed is added at the top of the ring.
  pub cell_body_add_top-TopAdded : TopAdded cell c buffer final
  cell_body_add_top-TopAdded = record {
    valid = record {
      header_fits = v.header_fits;
      small = v.small;
      dir = IsDir-frame d' m₂ m₃ bt added.valid.overflow_valid.fits same₃ added.valid;
      apart = omega (arith, fits, added.growth);
      placed = placed_final;
      top_is_top = write_new_top-is_top m₂ (t + 36 + length buffer) (length buffer);
    };
    entry = e;
    is_listed = new_listed;
    key = e-fields.0;
    place = e-fields.1;
    head_checksum = rw (e-fields.1) (ap (λ (b : CellBodyEntry). b.checksum) header);
    head_free = rw (e-fields.1) (ap (λ (b : CellBodyEntry). b.free_space) header);
    size = rw (e-fields.1) (ap (λ (b : CellBodyEntry). b.size) header ∙ omega arith);
    content = rw (e-fields.1) content₃;
    same = same_listed;
    below = below_top;
    top_moves = refl;
    next_is_top = refl;
    growth = added.growth;
  }
