-- ===== src/Cell/Replace.antt =====
-- A chunk that takes the place of another one of its size, where the next entry of the ring is.
use theo.Base.{
  ℕ, ◌+◌, ◌-◌, ◌*◌, ◌%◌, ◌^◌, ◌≤◌, ◌<◌, ◌≡◌, ◌≢◌, ◌⊎◌, refl, sym, ap, ◌∙◌, inl, inr, some, none,
  Option, List, true, false, length, ltb, ◌==◌, Bool-cases, arith,
}
use mathlib.Core.Path.{subst}
use theo.Checksum.{Checksum, checksum_compare, checksum_compare→eq, checksum_compare-false_ne}
use theo.Memory.{Memory, read}
use theo.Memory.Laws.{read-agree}
use theo.CellDirEntry.{CellDirEntry, cell_dir_entry_set}
use theo.CellDirEntry.Layout.{IsDirEntry}
use theo.CellBodyEntry.{CellBodyEntry, cell_body_entry_free, load_body_entry, store_body_entry}
use theo.CellBodyEntry.Layout.{
  IsBodyEntry, load_body_entry-agree, load_body_entry-IsBodyEntry, store_body_entry-outside,
}
use theo.CellBodyEntry.Store.{write_entry-outside, write_entry-header, write_entry-bytes}
use theo.CellDir.{CellDir, block_no, cell_dir_add}
use theo.CellDir.View.{IsDir, held, entry_of, entry_of-none}
use theo.CellDir.Add.{DirAdded, cell_dir_add_lem}
use theo.CellDir.Remove.{DirRemoved}
use theo.CellDir.Frame.{IsDir-frame, entry_of-frame}
use theo.CellState.{Cell, buffer_top}
use theo.CellHeader.{cell_header_add, cell_header_bytes_used, cell_header_remove}
use theo.CellHeader.Remove.{
  less_one, HeaderOutcome, returns, nothing_held, last_entry, last_bytes, cell_header_remove_lem,
}
use theo.CellBody.{
  top_offset, next_offset, cell_body_free_space, entry_at, cell_body_write_chunk,
  cell_body_add_dir_entry, cell_body_add_offset, set_slab, fill_exact,
}
use theo.Cell.Valid.{IsCell, overflowed, listed, end_of, cell_body_free_space_lem}

-- The chunk is in the place of the one that was there, whose checksum is no longer listed. All else is
-- as before.
pub record Replaced (cell : Cell) (c : Checksum) (buffer : List ℕ) (cell' : Cell) : Type 0 where
  pub valid : IsCell cell'
  pub entry : CellDirEntry
  pub is_listed : listed cell' c ≡ some entry
  pub key : entry.checksum ≡ c
  pub place : entry.offset ≡ next_offset cell
  pub head_checksum : (entry_at cell' entry.offset).checksum ≡ c
  pub head_free : (entry_at cell' entry.offset).free_space ≡ 0
  pub size : (entry_at cell' entry.offset).size ≡ length buffer
  pub content : read cell'.slab (entry.offset + 36) (length buffer) ≡ buffer
  pub gone : listed cell' (entry_at cell (next_offset cell)).checksum ≡ none
  pub same :
      (k : Checksum)
      → k ≢ c
      → k ≢ (entry_at cell (next_offset cell)).checksum
      → listed cell' k ≡ listed cell k
  pub kept :
      (x : ℕ)
      → x < top_offset cell + 36
      → (x < next_offset cell) ⊎ (next_offset cell + 36 + length buffer ≤ x)
      → cell'.slab x ≡ cell.slab x
  pub same_top : top_offset cell' ≡ top_offset cell
  pub next_moves : next_offset cell' ≡ next_offset cell + 36 + length buffer

module _ (cell : Cell) (c : Checksum) (buffer : List ℕ) (f : CellDirEntry) (v : IsCell cell)
    (bytes : length c ≡ 32) (low : block_no c < 256) (fresh : listed cell c ≡ none)
    (few : overflowed cell < 4095) (space : 36 ≤ cell_body_free_space cell)
    (inside : next_offset cell + 36 + length buffer ≤ top_offset cell)
    (exact : (entry_at cell (next_offset cell)).size ≡ length buffer)
    (old_low : block_no (entry_at cell (next_offset cell)).checksum < 256)
    (old_listed : listed cell (entry_at cell (next_offset cell)).checksum ≡ some f)
    (apart : (k : Checksum) (g : CellDirEntry)
      → k ≢ (entry_at cell (next_offset cell)).checksum
      → listed cell k ≡ some g
      → (end_of cell g.offset ≤ next_offset cell)
        ⊎ (next_offset cell + 36 + length buffer ≤ g.offset)) where
  abbrev n : ℕ
  n = next_offset cell

  abbrev old : CellBodyEntry
  old = entry_at cell n

  abbrev bt : ℕ
  bt = buffer_top cell

  -- One more overflow entry fits above the top.
  above : top_offset cell + 72 + overflowed cell * 36 ≤ bt
  above = omega (arith, cell_body_free_space_lem cell v)

  short : length buffer < 2 ^ 15
  short = omega (arith, (load_body_entry-IsBodyEntry cell.slab n).size_lt)

  -- The two checksums differ, for the one is listed and the other is not.
  differs : old.checksum ≢ c
  differs same = ground (arith, subst (λ k. listed cell k ≡ some f) same old_listed)

  -- From here on the directory and the slab are those after the removal.
  module _ (d : CellDir) (m : Memory)
      (out : DirRemoved cell.cell_header.cell_dir cell.slab bt old.checksum d m) where
    abbrev m₁ : Memory
    m₁ = store_body_entry m n (record (load_body_entry m n) { free_space = 0 })

    abbrev new : CellBodyEntry
    new = record (load_body_entry m₁ n) {
      checksum = c;
      size = length buffer % 2 ^ 15;
      free_space = 0;
    }

    abbrev m₂ : Memory
    m₂ = cell_body_write_chunk m₁ n c buffer

    abbrev e : CellDirEntry
    e = cell_dir_entry_set c n

    abbrev d' : CellDir
    d' = (cell_dir_add d m₂ bt e).0

    abbrev m₃ : Memory
    m₃ = (cell_dir_add d m₂ bt e).1

    new-IsBodyEntry : IsBodyEntry new
    new-IsBodyEntry =
        let was = load_body_entry-IsBodyEntry m₁ n in
        record {
          bytes = bytes;
          free_lt = omega arith;
          top_lt = was.top_lt;
          size_lt = omega arith;
          previous_lt = was.previous_lt;
        }

    outside₂ : (x : ℕ) → (x < n) ⊎ (n + 36 + length buffer ≤ x) → m₂ x ≡ m x
    unfolding cell_body_write_chunk
    outside₂ x h =
        write_entry-outside m₁ n new buffer new-IsBodyEntry x h
        ∙ store_body_entry-outside m n (record (load_body_entry m n) { free_space = 0 }) x
            (load_body_entry-IsBodyEntry m n).bytes (omega arith)

    same₂ : (x : ℕ) → bt - d.overflow.overflow_count * 36 ≤ x → x < bt → m₂ x ≡ m x
    same₂ x l u = outside₂ x (inr (omega (arith, above, out.shrinks)))

    dir₂ : IsDir d m₂ bt
    dir₂ = IsDir-frame d m m₂ bt out.valid.overflow_valid.fits same₂ out.valid

    at₂ : (k : Checksum) → entry_of d m₂ bt k ≡ entry_of d m bt k
    at₂ k = entry_of-frame d m m₂ bt out.valid.overflow_valid.fits same₂ k

    fresh₂ : held d m₂ bt c ≡ 0
    fresh₂ = (entry_of-none d m₂ bt c).0 (at₂ c ∙ out.same c differs ∙ fresh)

    e-fields : (e.checksum ≡ c) × (e.offset ≡ n) × (e.set ≡ 1)
    unfolding cell_dir_entry_set
    e-fields = (refl, omega (arith, v.small, above), refl)

    e-IsDirEntry : IsDirEntry e
    unfolding cell_dir_entry_set
    e-IsDirEntry = record { bytes = bytes; offset_lt = omega arith; set_lt = omega arith }

    added : DirAdded d m₂ bt e d' m₃
    unfolding cell_dir_entry_set
    added =
        cell_dir_add_lem d m₂ bt e dir₂ low refl fresh₂ e-IsDirEntry
          (omega (arith, few, out.shrinks)) (omega (arith, above, out.shrinks))

    -- The ring outside of the entry.
    kept_bytes :
        (x : ℕ)
        → x < top_offset cell + 36
        → (x < n) ⊎ (n + 36 + length buffer ≤ x)
        → m₃ x ≡ cell.slab x
    kept_bytes x u h =
        added.frame x (omega (arith, above, out.shrinks))
        ∙ outside₂ x h
        ∙ out.frame x (omega (arith, above))

    header : load_body_entry m₃ n ≡ new
    unfolding cell_body_write_chunk
    header =
        load_body_entry-agree m₂ m₃ n (λ x l u. added.frame x (omega (arith, above, out.shrinks)))
        ∙ write_entry-header m₁ n new buffer new-IsBodyEntry

    content₃ : read m₃ (n + 36) (length buffer) ≡ buffer
    unfolding cell_body_write_chunk
    content₃ =
        read-agree m₃ m₂ (n + 36) (length buffer)
          (λ x l u. added.frame x (omega (arith, above, out.shrinks)))
        ∙ write_entry-bytes m₁ n new buffer new-IsBodyEntry

    abbrev final : Cell
    final = record cell {
      slab = m₃;
      cell_header = record (cell.cell_header) {
        entry_count = (cell.cell_header.entry_count - 1 + 1) % 2 ^ 32;
        byte_count = (cell.cell_header.byte_count - old.size + length buffer) % 2 ^ 32;
        cell_dir = d';
        cell_body = record {
          top_entry_offset = top_offset cell;
          next_entry_offset = n + 36 + length buffer;
        };
      };
    }

    new_listed : listed final c ≡ some e
    unfolding cell_dir_entry_set
    new_listed = added.found

    same_listed : (k : Checksum) → k ≢ c → k ≢ old.checksum → listed final k ≡ listed cell k
    unfolding cell_dir_entry_set
    same_listed k ne ne' = added.same k ne ∙ at₂ k ∙ out.same k (λ h. ne' (sym h))

    old_gone : listed final old.checksum ≡ none
    unfolding cell_dir_entry_set
    old_gone =
        added.same old.checksum differs
        ∙ at₂ old.checksum
        ∙ (entry_of-none d m bt old.checksum).1 out.gone

    placed_other :
        (k : Checksum) (g : CellDirEntry)
        → k ≢ old.checksum
        → listed cell k ≡ some g
        → end_of final g.offset ≤ top_offset cell
    placed_other k g ne at =
        let below = v.placed k g at in
        let same : load_body_entry m₃ g.offset ≡ load_body_entry cell.slab g.offset =
          load_body_entry-agree cell.slab m₃ g.offset
            (λ x l u. kept_bytes x (omega (arith, below)) (omega (arith, apart k g ne at))) in
        omega (arith, below, ap (λ (b : CellBodyEntry). b.size) same)

    placed_final :
        (k : Checksum) (g : CellDirEntry)
        → listed final k ≡ some g
        → end_of final g.offset ≤ top_offset cell
    placed_final k g at = elim (Bool-cases (checksum_compare k c)) [
      | inl e' ↦
          let same : k ≡ c = checksum_compare→eq k c e' in
          let at' : listed final c ≡ some g = subst (λ x. listed final x ≡ some g) same at in
          let is_e : e ≡ g = cc new_listed in
          let offset : g.offset ≡ n = ap (λ (x : CellDirEntry). x.offset) (sym is_e) ∙ e-fields.1 in
          rw offset (omega (arith, inside, ap (λ (b : CellBodyEntry). b.size) header))
      | inr ne ↦
          let ne' : k ≢ old.checksum = λ (h : k ≡ old.checksum).
            ground (arith, subst (λ x. listed final x ≡ some g) h at, old_gone) in
          placed_other k g ne' (sym (same_listed k (checksum_compare-false_ne k c ne) ne') ∙ at)
    ]

    final-Replaced : Replaced cell c buffer final
    final-Replaced = record {
      valid = record {
        header_fits = v.header_fits;
        small = v.small;
        dir = added.valid;
        apart = omega (arith, above, added.growth, out.shrinks);
        placed = placed_final;
        top_is_top =
            ap (λ (b : CellBodyEntry). b.top_entry)
              (load_body_entry-agree cell.slab m₃ (top_offset cell)
                (λ x l u. kept_bytes x u (inr (omega (arith, inside)))))
            ∙ v.top_is_top;
      };
      entry = e;
      is_listed = new_listed;
      key = e-fields.0;
      place = e-fields.1;
      head_checksum =
          ap (λ x. (load_body_entry m₃ x).checksum) e-fields.1
          ∙ ap (λ (b : CellBodyEntry). b.checksum) header;
      head_free =
          ap (λ x. (load_body_entry m₃ x).free_space) e-fields.1
          ∙ ap (λ (b : CellBodyEntry). b.free_space) header;
      size =
          ap (λ x. (load_body_entry m₃ x).size) e-fields.1
          ∙ ap (λ (b : CellBodyEntry). b.size) header
          ∙ omega (arith, short);
      content = ap (λ x. read m₃ (x + 36) (length buffer)) e-fields.1 ∙ content₃;
      gone = old_gone;
      same = same_listed;
      kept = kept_bytes;
      same_top = refl;
      next_moves = refl;
    }

    -- The cell when the chunk is written and not yet listed.
    abbrev written : Cell
    written = set_slab (set_slab (less_one cell old.size d m) m₁) m₂

    enough : ltb (cell_body_free_space written) 36 ≡ false
    unfolding cell_body_free_space cell_header_bytes_used
    enough = ground (arith, above, out.shrinks, v.small, v.header_fits)

    fill_exact-eq : fill_exact (set_slab (less_one cell old.size d m) m₁) n c buffer ≡ some final
    unfolding cell_body_add_dir_entry cell_header_add
    fill_exact-eq =
        let wraps : (n + (36 + length buffer)) % 2 ^ 32 ≡ n + 36 + length buffer =
          omega (arith, inside, above, v.small) in
        rw (enough, wraps) refl

    add_offset-eq :
        cell_body_entry_free old ≡ false
        → cell_header_remove cell old ≡ some (less_one cell old.size d m)
        → cell_body_add_offset cell c buffer ≡ some final
    unfolding cell_body_add_offset
    add_offset-eq live removes =
        let exactly : (old.size == length buffer) ≡ true = ground arith in
        rw (live, removes, exactly, fill_exact-eq) refl

  module _ (live : cell_body_entry_free old ≡ false) (several : 1 < cell.cell_header.entry_count)
      (entries : cell.cell_header.entry_count < 2 ^ 31)
      (more : old.size < cell.cell_header.byte_count)
      (all_bytes : cell.cell_header.byte_count < 2 ^ 31) where
    after_remove :
        (o : Option Cell)
        → cell_header_remove cell old ≡ o
        → HeaderOutcome cell old o
        → (cell' : Cell) × (cell_body_add_offset cell c buffer ≡ some cell')
          × Replaced cell c buffer cell'
    after_remove o removes (returns {d} {m} one left room out) =
        (final d m out, add_offset-eq d m out live removes, final-Replaced d m out)
    after_remove o removes (nothing_held zero') = absurd (
        ground (
          arith,
          (entry_of-none cell.cell_header.cell_dir cell.slab bt old.checksum).1 zero',
          old_listed,
        ))
    after_remove o removes (last_entry few') = absurd (omega (arith, several))
    after_remove o removes (last_bytes few') = absurd (omega (arith, more))

    -- On a valid cell, where the next entry is a live chunk of just the size of the new one, which is
    -- listed, is neither the last entry nor has the last bytes, and meets no other listed chunk, and
    -- where the new checksum is not listed and there is room for one more overflow entry:
    -- `cell_body_add_offset` does not abort and puts the chunk in the place of the old one. The cell is
    -- valid, the old checksum is no longer listed, and all other chunks are as before.
    pub cell_body_add_offset-Replaced :
        (cell' : Cell) × (cell_body_add_offset cell c buffer ≡ some cell')
        × Replaced cell c buffer cell'
    cell_body_add_offset-Replaced =
        after_remove _ refl
          (cell_header_remove_lem cell old v.dir old_low entries all_bytes (omega (arith, short)))
