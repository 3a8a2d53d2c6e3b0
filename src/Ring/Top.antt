-- ===== src/Ring/Top.antt =====
-- `cell_body_add_top` and `cell_body_push_down_top` of src/theo/cell_body.c on the ring.
use theo.Base.{
  ℕ, ◌+◌, ◌-◌, ◌*◌, ◌%◌, ◌^◌, ◌≤◌, ◌<◌, ◌≡◌, ◌⊎◌, refl, sym, ap, ◌∙◌, inl, inr, true, false, none,
  some, List, [], ◌∷◌, ◌++◌, length-append, ltb, arith,
}
use mathlib.Core.Path.{subst}
use mathlib.Core.Option
use theo.Checksum.{Checksum}
use theo.Memory.{Memory, read}
use theo.Memory.Laws.{read-agree}
use theo.CellDirEntry.{CellDirEntry, cell_dir_entry_set}
use theo.CellBodyEntry.{load_body_entry}
use theo.CellBodyEntry.Layout.{load_body_entry-agree}
use theo.CellBodyEntry.Store.{write_entry-outside, write_entry-header, write_entry-bytes}
use theo.CellDir.View.{IsDir}
use theo.CellDir.Add.{DirAdded}
use theo.CellDir.Frame.{IsDir-frame, entry_of-frame}
use theo.CellState.{Cell, buffer_top}
use theo.CellBody.{
  top_offset, next_offset, entry_at, set_body, set_slab, write_top, write_new_top,
  cell_body_free_space, cell_body_add_top,
}
use theo.Cell.Valid.{overflowed}
use theo.Cell.Writes.{
  top_entry, top_entry-IsBodyEntry, write_new_top-outside, write_new_top-is_top,
  write_new_top-previous,
}
use theo.Ring.Chain.{
  Item, IsItem, size, stored, Chain, Chain-agree, Chain-append, Chain-stop, stop, bytes_in-append,
}
use theo.Ring.Place.{spot, spot-none, copies, added-IsSingle, added-at, added-same}
use theo.Ring.Gap.{
  offset_of, Gap, RingOf, few_entries, few_overflowed, few_bytes, top_lt, free_space_lem,
}
use theo.Ring.Listed.{one_more, dir_added, cell_header_add-eq, added-listing}

module _ (cell : Cell) (before : List Item) (q g r : ℕ) (i : Item) (v : Gap cell before q g r [])
    (at_top : next_offset cell ≡ top_offset cell) (same : r ≡ q) (item : IsItem i)
    (fresh : copies i.checksum before ≡ 0) (room : size i + 72 ≤ cell_body_free_space cell) where
  abbrev t : ℕ
  t = top_offset cell

  abbrev bt : ℕ
  bt = buffer_top cell

  -- What the top knows of the entry before it.
  prev : (entry_at cell t).previous_size ≡ q
  prev = sym v.back.1 ∙ same

  above : t + size i + 72 + (overflowed cell + 1) * 36 ≤ bt
  above = omega (arith, free_space_lem v, room)

  abbrev m₁ : Memory
  m₁ = write_top cell.slab t i.checksum i.bytes

  abbrev written : Cell
  written = set_slab cell m₁

  outside₁ : (x : ℕ) → (x < t) ⊎ (t + 36 + size i ≤ x) → m₁ x ≡ cell.slab x
  outside₁ =
      write_entry-outside cell.slab t (top_entry cell.slab t i.checksum i.bytes) i.bytes
        (top_entry-IsBodyEntry cell.slab t i.checksum i.bytes item.key)

  header₁ : load_body_entry m₁ t ≡ stored q i
  header₁ =
      let len : size i % 2 ^ 15 ≡ size i = omega (arith, item.most) in
      let now : top_entry cell.slab t i.checksum i.bytes ≡ stored q i = rw (prev, len) refl in
      write_entry-header cell.slab t (top_entry cell.slab t i.checksum i.bytes) i.bytes
        (top_entry-IsBodyEntry cell.slab t i.checksum i.bytes item.key)
      ∙ now

  content₁ : read m₁ (t + 36) (size i) ≡ i.bytes
  content₁ =
      write_entry-bytes cell.slab t (top_entry cell.slab t i.checksum i.bytes) i.bytes
        (top_entry-IsBodyEntry cell.slab t i.checksum i.bytes item.key)

  high₁ : (x : ℕ) → bt - overflowed cell * 36 ≤ x → x < bt → m₁ x ≡ cell.slab x
  high₁ x l u = outside₁ x (inr (omega (arith, above)))

  listing₁ : (c : Checksum) → offset_of written c ≡ spot before g [] c
  listing₁ c =
      ap (λ o. Option.map (λ (e : CellDirEntry). e.offset) o)
        (entry_of-frame cell.cell_header.cell_dir cell.slab m₁ bt v.dir.overflow_valid.fits high₁ c)
      ∙ v.listing c

  unlisted : offset_of written i.checksum ≡ none
  unlisted = listing₁ i.checksum ∙ spot-none before g [] i.checksum (omega (arith, fresh))

  dir₁ : IsDir cell.cell_header.cell_dir m₁ bt
  dir₁ = IsDir-frame cell.cell_header.cell_dir cell.slab m₁ bt v.dir.overflow_valid.fits high₁ v.dir

  few : overflowed written < 4095
  few = omega (arith, few_overflowed v)

  fits : (overflowed written + 1) * 36 ≤ bt
  fits = omega (arith, above)

  low : t < 2 ^ 31
  low = omega (arith, top_lt v)

  entries : cell.cell_header.entry_count < 2 ^ 31
  entries = omega (arith, few_entries v)

  bytes : cell.cell_header.byte_count < 2 ^ 31
  bytes = omega (arith, few_bytes v, top_lt v)

  abbrev listed : Cell
  listed = one_more written i t

  d :
      DirAdded cell.cell_header.cell_dir m₁ bt
        (cell_dir_entry_set i.checksum t)
        listed.cell_header.cell_dir
        listed.slab
  d = dir_added written i t dir₁ item unlisted few fits low entries bytes

  abbrev t' : ℕ
  t' = t + 36 + size i

  abbrev m₃ : Memory
  m₃ = write_new_top listed.slab t' (size i)

  outside₃ : (x : ℕ) → x < t' → m₃ x ≡ m₁ x
  outside₃ x u =
      write_new_top-outside listed.slab t' (size i) x (inl u) ∙ d.frame x (omega (arith, above))

  high₃ :
      (x : ℕ)
      → bt - listed.cell_header.cell_dir.overflow.overflow_count * 36 ≤ x
      → x < bt
      → m₃ x ≡ listed.slab x
  high₃ x l u =
      write_new_top-outside listed.slab t' (size i) x (inr (omega (arith, above, d.growth)))

  abbrev final : Cell
  final = set_body (set_slab listed m₃) t' t'

  front : Chain m₃ 0 0 (before ++ i ∷ []) t' (size i)
  front =
      Chain-append m₃ 0 0 before t q (i ∷ []) t' (size i)
        (Chain-agree cell.slab m₃ 0 0 before t q
          (λ x l u. outside₃ x (omega arith) ∙ outside₁ x (inl u))
          (subst (λ a. Chain cell.slab 0 0 before a q) at_top v.front))
        (
          load_body_entry-agree m₁ m₃ t (λ x l u. outside₃ x (omega arith)) ∙ header₁,
          read-agree m₃ m₁ (t + 36) (size i) (λ x l u. outside₃ x (omega arith)) ∙ content₁,
          item,
          (refl, refl),
        )

  final-Gap : Gap final (before ++ i ∷ []) (size i) t' (size i) []
  final-Gap =
      let stops : stop 0 before ≡ t = Chain-stop _ _ _ _ _ _ v.front ∙ at_top in
      record {
        whole = v.whole;
        dir =
            IsDir-frame listed.cell_header.cell_dir listed.slab m₃ bt d.valid.overflow_valid.fits
              high₃ d.valid;
        apart = omega (arith, above, d.growth);
        top_is_top = write_new_top-is_top listed.slab t' (size i);
        front = front;
        order = omega arith;
        back =
            (refl, sym (write_new_top-previous listed.slab t' (size i) ∙ omega (arith, item.most)));
        listing = λ c.
            ap (λ o. Option.map (λ (e : CellDirEntry). e.offset) o)
              (entry_of-frame listed.cell_header.cell_dir listed.slab m₃ bt
                d.valid.overflow_valid.fits high₃ c)
            ∙ added-listing written i t dir₁ item unlisted few fits low entries bytes
                (spot before g []) (spot (before ++ i ∷ []) g []) listing₁
                (added-at before g [] i v.single (omega (arith, fresh)) ∙ ap some stops)
                (added-same before g [] i v.single (omega (arith, fresh))) c;
        single = added-IsSingle before g [] i v.single (omega (arith, fresh));
        entries = omega (arith, v.entries, length-append before (i ∷ []));
        bytes = omega (arith, v.bytes, bytes_in-append before (i ∷ []));
        total = omega (arith, v.total, d.total);
      }

  add_top-eq : cell_body_add_top cell i.checksum i.bytes ≡ (true, final)
  unfolding cell_body_add_top
  add_top-eq =
      let enough : ltb (cell_body_free_space cell) ((size i + 36 + 36) % 2 ^ 32) ≡ false =
        ground (arith, room) in
      let top : (t + (size i + 36)) % 2 ^ 32 ≡ t' = omega (arith, above, v.whole) in
      rw (enough, cell_header_add-eq written i t dir₁ item unlisted few fits low entries bytes, top)
        refl

  -- A chunk with room at the top.
  pub top_added :
      (cell' : Cell) × (cell_body_add_top cell i.checksum i.bytes ≡ (true, cell'))
      × RingOf cell' (before ++ i ∷ []) []
      × (next_offset cell' ≡ top_offset cell')
  top_added = (
    final,
    add_top-eq,
    record {
      q = size i;
      g = t';
      r = size i;
      gap = final-Gap;
      filled = inl (refl, refl);
      next_previous = write_new_top-previous listed.slab t' (size i) ∙ omega (arith, item.most);
    },
    refl,
  )
