-- ===== src/Ring/Fill.antt =====
-- `cell_body_add_offset` of src/theo/cell_body.c after its loop, where the chunk goes into the gap.
use theo.Base.{
  ℕ, ◌+◌, ◌-◌, ◌*◌, ◌%◌, ◌^◌, ◌≤◌, ◌<◌, ◌≡◌, ◌⊎◌, sym, ap, ◌∙◌, inl, inr, List, [], ◌∷◌, arith,
}
use mathlib.Core.Path.{subst}
use mathlib.Core.Option
use theo.Memory.{Memory}
use theo.Memory.Laws.{read-agree}
use theo.Checksum.{length-checksum_init}
use theo.CellDirEntry.{CellDirEntry}
use theo.CellBodyEntry.{CellBodyEntry, cell_body_entry_init, load_body_entry, store_body_entry}
use theo.CellBodyEntry.Layout.{
  IsBodyEntry, load_body_entry-agree, load_body_entry-IsBodyEntry, load-store_body_entry,
  store_body_entry-outside,
}
use theo.CellDir.Frame.{IsDir-frame, entry_of-frame}
use theo.CellState.{Cell, buffer_top}
use theo.CellBody.{top_offset, next_offset, entry_at, set_slab, write_rest}
use theo.Cell.Valid.{overflowed}
use theo.Ring.Chain.{Item, size, stored, Chain, Chain-agree, Chain-le}
use theo.Ring.Gap.{Gap, RingOf, g_le}
use theo.Ring.Lower.{gap-write}

-- What follows the gap knows the bytes before it.
pub head_previous :
    (cell : Cell) (before : List Item) (q g r : ℕ) (post : List Item)
    → Gap cell before q g r post
    → (entry_at cell g).previous_size ≡ r
head_previous cell before q g r [] v =
    ap (λ a. (entry_at cell a).previous_size) v.back.0 ∙ sym v.back.1
head_previous cell before q g r (i ∷ post) v = ap (λ (b : CellBodyEntry). b.previous_size) v.back.0

module _ (cell : Cell) (before : List Item) (q g r : ℕ) (post : List Item) (rest : ℕ)
    (v : Gap cell before q g r post) (ends : next_offset cell + 36 + rest ≡ g)
    (small : rest < 2 ^ 15) (q_small : q < 2 ^ 15) where
  abbrev n : ℕ
  n = next_offset cell

  -- The free entry.
  abbrev hole : CellBodyEntry
  hole = record cell_body_entry_init {
    previous_size = q % 2 ^ 15;
    size = rest % 2 ^ 15;
    free_space = 1;
    top_entry = 0;
  }

  hole-IsBodyEntry : IsBodyEntry hole
  unfolding cell_body_entry_init
  hole-IsBodyEntry = record {
    bytes = length-checksum_init;
    free_lt = omega arith;
    top_lt = omega arith;
    size_lt = omega arith;
    previous_lt = omega arith;
  }

  abbrev m₁ : Memory
  m₁ = store_body_entry cell.slab n hole

  v₁ : Gap (set_slab cell m₁) before q g r post
  v₁ = gap-write cell before q g r post m₁ v (λ x h.
      store_body_entry-outside cell.slab n hole x hole-IsBodyEntry.bytes (omega (arith, h, ends)))

  -- The entry behind the gap with its new back pointer.
  abbrev behind : CellBodyEntry
  behind = record (load_body_entry m₁ g) { previous_size = rest % 2 ^ 15 }

  behind-IsBodyEntry : IsBodyEntry behind
  behind-IsBodyEntry =
      let was = load_body_entry-IsBodyEntry m₁ g in
      record {
        bytes = was.bytes;
        free_lt = was.free_lt;
        top_lt = was.top_lt;
        size_lt = was.size_lt;
        previous_lt = omega arith;
      }

  abbrev m₂ : Memory
  m₂ = store_body_entry m₁ g behind

  outside : (x : ℕ) → (x < g) ⊎ (g + 36 ≤ x) → m₂ x ≡ m₁ x
  outside x h = store_body_entry-outside m₁ g behind x behind-IsBodyEntry.bytes h

  at_g : load_body_entry m₂ g ≡ behind
  at_g = load-store_body_entry m₁ g behind behind-IsBodyEntry

  at_n : load_body_entry m₂ n ≡ hole
  at_n =
      load_body_entry-agree m₁ m₂ n (λ x l u. outside x (inl (omega (arith, ends))))
      ∙ load-store_body_entry cell.slab n hole hole-IsBodyEntry

  same_rest : rest % 2 ^ 15 ≡ rest
  same_rest = omega arith

  -- The top, and the chunks behind the gap, with the new back pointer.
  relabel :
      (is : List Item)
      → Gap (set_slab cell m₁) before q g r is
      → ((load_body_entry m₂ (top_offset cell)).top_entry ≡ 1)
        × Chain m₂ rest g is (top_offset cell) (load_body_entry m₂ (top_offset cell)).previous_size
  relabel [] w =
      let top : g ≡ top_offset cell = w.back.0 in
      let here : load_body_entry m₂ (top_offset cell) ≡ behind =
        ap (λ a. load_body_entry m₂ a) (sym top) ∙ at_g in
      (
        ap (λ (b : CellBodyEntry). b.top_entry) here
            ∙ ap (λ a. (load_body_entry m₁ a).top_entry) top
            ∙ w.top_is_top,
        (top, sym (ap (λ (b : CellBodyEntry). b.previous_size) here ∙ same_rest)),
      )
  relabel (i ∷ is) w =
      let (header, content, item, tail) = w.back in
      let le = Chain-le _ _ _ _ _ _ tail in
      let top-same : load_body_entry m₂ (top_offset cell) ≡ load_body_entry m₁ (top_offset cell) =
        load_body_entry-agree m₁ m₂ (top_offset cell)
          (λ x l u. outside x (inr (omega (arith, le)))) in
      (
        ap (λ (b : CellBodyEntry). b.top_entry) top-same ∙ w.top_is_top,
        (
          at_g
              ∙ ap (λ (b : CellBodyEntry). record b { previous_size = rest % 2 ^ 15 }) header
              ∙ ap (λ p. stored p i) same_rest,
          read-agree m₂ m₁ (g + 36) (size i) (λ x l u. outside x (inr l)) ∙ content,
          item,
          subst
              (λ (e : CellBodyEntry).
                Chain m₂ (size i) (g + 36 + size i) is (top_offset cell) e.previous_size)
              (sym top-same)
              (Chain-agree m₁ m₂ (size i) (g + 36 + size i) is (top_offset cell) _
                (λ x l u. outside x (inr (omega arith))) tail),
        ),
      )

  abbrev final : Cell
  final = set_slab cell m₂

  final-Gap : Gap final before q g rest post
  final-Gap =
      let d = cell.cell_header.cell_dir in
      let bt = buffer_top cell in
      let high : (x : ℕ) → bt - overflowed cell * 36 ≤ x → x < bt → m₂ x ≡ m₁ x =
        λ x l u. outside x (inr (omega (arith, v₁.apart, g_le v₁))) in
      let (top, back) = relabel post v₁ in
      record {
        whole = v.whole;
        dir = IsDir-frame d m₁ m₂ bt v₁.dir.overflow_valid.fits high v₁.dir;
        apart = v.apart;
        top_is_top = top;
        front =
            Chain-agree m₁ m₂ 0 0 before n q (λ x l u. outside x (inl (omega (arith, v.order))))
              v₁.front;
        order = v.order;
        back = back;
        listing = λ c.
            ap (λ o. Option.map (λ (e : CellDirEntry). e.offset) o)
              (entry_of-frame d m₁ m₂ bt v₁.dir.overflow_valid.fits high c)
            ∙ v₁.listing c;
        single = v.single;
        entries = v.entries;
        bytes = v.bytes;
        total = v.total;
      }

  -- The gap is filled by a free entry.
  rest-RingOf : RingOf final before post
  rest-RingOf = record {
    q = q;
    g = g;
    r = rest;
    gap = final-Gap;
    filled = inr (
      ap (λ (b : CellBodyEntry). b.free_space) at_n,
      ap (λ (b : CellBodyEntry). b.top_entry) at_n,
      ap (λ (b : CellBodyEntry). b.size) at_n ∙ same_rest,
      sym ends,
    );
    next_previous = ap (λ (b : CellBodyEntry). b.previous_size) at_n ∙ omega arith;
  }

  pub write_rest-RingOf : RingOf (set_slab cell (write_rest cell.slab n q rest)) before post
  write_rest-RingOf = let at : n + (36 + rest) ≡ g = omega (arith, ends) in rw at rest-RingOf
