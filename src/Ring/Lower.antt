-- ===== src/Ring/Lower.antt =====
-- Stores in the gap, and `cell_body_add_dir_entry` of src/theo/cell_body.c, which may take the last
-- chunk below the top for the room of a directory entry.
use theo.Base.{
  ℕ, ◌+◌, ◌-◌, ◌*◌, ◌%◌, ◌^◌, ◌≤◌, ◌<◌, ◌≡◌, ◌⊎◌, refl, sym, ap, ◌∙◌, inl, inr, false, some, List,
  [], ◌∷◌, ◌++◌, length, length-append, ltb, arith,
}
use mathlib.Core.Path.{subst}
use mathlib.Core.Option
use theo.Memory.{Memory}
use theo.CellDirEntry.{CellDirEntry}
use theo.CellBodyEntry.{CellBodyEntry, cell_body_entry_free, load_body_entry}
use theo.CellBodyEntry.Layout.{load_body_entry-agree}
use theo.CellDir.Frame.{IsDir-frame, entry_of-frame}
use theo.CellState.{Cell, buffer_top}
use theo.CellHeader.{cell_body_set_top, cell_header_add}
use theo.CellHeader.Remove.{less_one}
use theo.CellBody.{
  top_offset, next_offset, entry_at, set_body, set_slab, cell_body_free_space, lower_top,
}
use theo.Cell.Valid.{overflowed}
use theo.Cell.Writes.{cell_body_set_top_lem, cell_body_set_top-outside}
use theo.Ring.Chain.{
  Item, IsItem, size, stored, Chain, Chain-agree, Chain-last, Chain-stop, stop, Chain-bytes,
  bytes_in-append,
}
use theo.Ring.Place.{spot, last-IsSingle, last-at, last-gone, last-same}
use theo.Ring.Gap.{Gap, few_entries, few_bytes, top_lt, g_le, free_space_lem}
use theo.Ring.Evict.{HeaderRemoved, header_removed, removed-listing, removed-frame, removed-entry}

-- A store in the gap changes nothing.
pub gap-write :
    (cell : Cell) (before : List Item) (q g r : ℕ) (post : List Item) (m : Memory)
    → Gap cell before q g r post
    → ((x : ℕ) → (x < next_offset cell) ⊎ (g ≤ x) → m x ≡ cell.slab x)
    → Gap (set_slab cell m) before q g r post
gap-write cell before q g r post m v same =
    let le = g_le v in
    let d = cell.cell_header.cell_dir in
    let top-same : load_body_entry m (top_offset cell)
        ≡ load_body_entry cell.slab (top_offset cell) =
      load_body_entry-agree cell.slab m (top_offset cell) (λ x l u. same x (inr (omega arith))) in
    let high : (x : ℕ)
        → buffer_top cell - overflowed cell * 36 ≤ x
        → x < buffer_top cell
        → m x ≡ cell.slab x =
      λ x l u. same x (inr (omega (arith, v.apart))) in
    record {
      whole = v.whole;
      dir = IsDir-frame d cell.slab m (buffer_top cell) v.dir.overflow_valid.fits high v.dir;
      apart = v.apart;
      top_is_top = ap (λ (b : CellBodyEntry). b.top_entry) top-same ∙ v.top_is_top;
      front =
          Chain-agree cell.slab m 0 0 before (next_offset cell) q (λ x l u. same x (inl u)) v.front;
      order = v.order;
      back =
          subst (λ (e : CellBodyEntry). Chain m r g post (top_offset cell) e.previous_size)
            (sym top-same)
            (Chain-agree cell.slab m r g post (top_offset cell) _ (λ x l u. same x (inr l)) v.back);
      listing = λ c.
          ap (λ o. Option.map (λ (e : CellDirEntry). e.offset) o)
            (entry_of-frame d cell.slab m (buffer_top cell) v.dir.overflow_valid.fits high c)
          ∙ v.listing c;
      single = v.single;
      entries = v.entries;
      bytes = v.bytes;
      total = v.total;
    }

-- The cell has lost its last chunk, and has room for a directory entry. What lies below `g` is as it was.
pub record Lowered (cell : Cell) (before : List Item) (q g r : ℕ) (post : List Item) (cell' : Cell)
    : Type 0 where
  pub gap : Gap cell' before q g r post
  pub frame : (x : ℕ) → x < g → cell'.slab x ≡ cell.slab x
  pub same_next : next_offset cell' ≡ next_offset cell
  pub room : top_offset cell' + 72 + overflowed cell' * 36 ≤ buffer_top cell'

module _ (cell : Cell) (before post : List Item) (q g r : ℕ) (i : Item)
    (v : Gap cell before q g r (post ++ i ∷ [])) (others : 0 < length before + length post) where
  abbrev prev : ℕ
  prev = (entry_at cell (top_offset cell)).previous_size

  -- The offset of the last chunk.
  abbrev below : ℕ
  below = top_offset cell - (prev + 36)

  last :
      (s : ℕ) × Chain cell.slab r g post below s
      × (load_body_entry cell.slab below ≡ stored s i)
      × IsItem i
      × (prev ≡ size i)
      × (g + 36 + prev ≤ top_offset cell)
  last = Chain-last cell.slab r g post i (top_offset cell) prev v.back

  stop_at : stop g post ≡ below
  stop_at = Chain-stop cell.slab r g post below last.0 last.1

  last_removed : HeaderRemoved cell last.0 i
  last_removed =
      header_removed cell last.0 i (stop g post) v.dir last.3
        (v.listing i.checksum ∙ last-at before g post i v.single)
        (omega (arith, v.entries, others, length-append post (i ∷ [])))
        (omega (arith, few_entries v))
        (omega (
          arith,
          v.bytes,
          others,
          bytes_in-append post (i ∷ []),
          Chain-bytes _ _ _ _ _ _ v.front,
          Chain-bytes _ _ _ _ _ _ last.1,
        ))
        (omega (arith, few_bytes v, top_lt v))

  abbrev m : Memory
  m = last_removed.slab

  abbrev m' : Memory
  m' = cell_body_set_top m below

  abbrev lowered : Cell
  lowered =
      set_body (set_slab (less_one cell (size i) last_removed.dir m) m') below (next_offset cell)

  below_le : g ≤ below
  below_le = omega (arith, last.5)

  frame : (x : ℕ) → x < below → m' x ≡ cell.slab x
  frame x u =
      cell_body_set_top-outside m below x (inl u)
      ∙ removed-frame v last_removed x (omega (arith, last.5))

  high : (x : ℕ) → below + 36 ≤ x → m' x ≡ m x
  high x l = cell_body_set_top-outside m below x (inr l)

  header : load_body_entry m below ≡ stored last.0 i
  header = removed-entry v last_removed below (omega (arith, last.5)) ∙ last.2

  new_top : (load_body_entry m' below).previous_size ≡ last.0
  new_top =
      ap (λ (b : CellBodyEntry). b.previous_size) (cell_body_set_top_lem m below)
      ∙ ap (λ (b : CellBodyEntry). b.previous_size) header

  lowered-Gap : Gap lowered before q g r post
  lowered-Gap =
      let h = last_removed in
      let bt = buffer_top cell in
      let up : (x : ℕ) → bt - h.dir.overflow.overflow_count * 36 ≤ x → x < bt → m' x ≡ m x =
        λ x l u. high x (omega (arith, v.apart, h.out.shrinks, last.5)) in
      record {
        whole = v.whole;
        dir = IsDir-frame h.dir m m' bt h.out.valid.overflow_valid.fits up h.out.valid;
        apart = omega (arith, v.apart, h.out.shrinks, last.5);
        top_is_top = ap (λ (b : CellBodyEntry). b.top_entry) (cell_body_set_top_lem m below);
        front =
            Chain-agree cell.slab m' 0 0 before (next_offset cell) q
              (λ x l u. frame x (omega (arith, v.order, below_le))) v.front;
        order = v.order;
        back =
            subst (λ s. Chain m' r g post below s) (sym new_top)
              (Chain-agree cell.slab m' r g post below last.0 (λ x l u. frame x u) last.1);
        listing = λ c.
            ap (λ o. Option.map (λ (e : CellDirEntry). e.offset) o)
              (entry_of-frame h.dir m m' bt h.out.valid.overflow_valid.fits up c)
            ∙ removed-listing cell last.0 i h (spot before g (post ++ i ∷ [])) (spot before g post)
                v.listing (last-gone before g post i v.single) (last-same before g post i v.single)
                c;
        single = last-IsSingle before g post i v.single;
        entries = omega (arith, v.entries, length-append post (i ∷ []));
        bytes = omega (arith, v.bytes, bytes_in-append post (i ∷ []));
        total = omega (arith, v.total, h.out.total, v.entries, length-append post (i ∷ []));
      }

  lowered-Lowered : Lowered cell before q g r post lowered
  lowered-Lowered = record {
    gap = lowered-Gap;
    frame = λ x u. frame x (omega (arith, below_le));
    same_next = refl;
    room = omega (arith, v.apart, last_removed.out.shrinks, last.5, last.4, last.3.least);
  }

  lower_top-eq :
      (e : CellDirEntry) (n : ℕ) → lower_top cell e n ≡ some (cell_header_add lowered e n)
  unfolding cell_body_entry_free
  lower_top-eq e n =
      let at : (top_offset cell + 2 ^ 32 - (prev + 36)) % 2 ^ 32 ≡ below =
        omega (arith, last.5, top_lt v) in
      let enough : ltb (cell_body_free_space lowered) 36 ≡ false =
        ground (arith, free_space_lem lowered-Gap, lowered-Lowered.room) in
      rw (at, last.2, last_removed.removes, enough) refl

  -- The last chunk leaves, without an abort.
  pub lower_top_lem :
      (cell' : Cell) × Lowered cell before q g r post cell'
      × ((e : CellDirEntry) (n : ℕ) → lower_top cell e n ≡ some (cell_header_add cell' e n))
  lower_top_lem = (lowered, lowered-Lowered, lower_top-eq)
