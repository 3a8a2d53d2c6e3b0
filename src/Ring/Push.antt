-- ===== src/Ring/Push.antt =====
-- `cell_body_push_down_top` of src/theo/cell_body.c: the next entry becomes the top, and takes the
-- chunk if there is room for it.
use theo.Base.{
  ℕ, ◌+◌, ◌-◌, ◌*◌, ◌%◌, ◌^◌, ◌≤◌, ◌<◌, ◌≡◌, refl, sym, ap, ◌∙◌, inl, inr, Bool, true, false, List,
  [], ◌∷◌, ◌++◌, ltb, Bool-cases, arith,
}
use mathlib.Core.Option
use mathlib.Core.Path.{subst}
use theo.Memory.{Memory}
use theo.CellDirEntry.{CellDirEntry}
use theo.CellBodyEntry.{CellBodyEntry, load_body_entry}
use theo.CellDir.Frame.{IsDir-frame, entry_of-frame}
use theo.CellState.{Cell, buffer_top}
use theo.CellHeader.{cell_body_set_top}
use theo.CellBody.{
  top_offset, next_offset, entry_at, set_body, set_slab, cell_body_free_space, cell_body_add_top,
  cell_body_push_down_top,
}
use theo.Cell.Valid.{overflowed}
use theo.Cell.Writes.{cell_body_set_top_lem, cell_body_set_top-outside}
use theo.Ring.Chain.{Item, IsItem, size, Chain-agree}
use theo.Ring.Place.{copies}
use theo.Ring.Gap.{Gap, RingOf, g_le}
use theo.Ring.Top.{top_added}

-- The chunk is at the top, or was dropped because there is no room for it.
pub data Pushed (before : List Item) (i : Item) (cell : Cell) : Type 0 where
  has_room : RingOf cell (before ++ i ∷ []) [] → Pushed before i cell
  dropped :
      RingOf cell before []
      → next_offset cell ≡ top_offset cell
      → cell_body_free_space cell < size i + 72
      → Pushed before i cell

module _ (cell : Cell) (before : List Item) (q g r : ℕ) (i : Item) (v : Gap cell before q g r [])
    (previous : (entry_at cell (next_offset cell)).previous_size ≡ q) (item : IsItem i)
    (fresh : copies i.checksum before ≡ 0) (below : next_offset cell + 36 ≤ g) where
  abbrev n : ℕ
  n = next_offset cell

  abbrev m : Memory
  m = cell_body_set_top cell.slab n

  -- The cell with its next entry as the top.
  abbrev pushed : Cell
  pushed = set_body (set_slab cell m) n n

  high :
      (x : ℕ) → buffer_top cell - overflowed cell * 36 ≤ x → x < buffer_top cell → m x ≡ cell.slab x
  high x l u = cell_body_set_top-outside cell.slab n x (inr (omega (arith, v.apart, g_le v, below)))

  top-previous : (load_body_entry m n).previous_size ≡ q
  top-previous =
      ap (λ (b : CellBodyEntry). b.previous_size) (cell_body_set_top_lem cell.slab n) ∙ previous

  pushed-Gap : Gap pushed before q n q []
  pushed-Gap = record {
    whole = v.whole;
    dir =
        IsDir-frame cell.cell_header.cell_dir cell.slab m (buffer_top cell)
          v.dir.overflow_valid.fits high v.dir;
    apart = omega (arith, v.apart, g_le v, below);
    top_is_top = ap (λ (b : CellBodyEntry). b.top_entry) (cell_body_set_top_lem cell.slab n);
    front =
        Chain-agree cell.slab m 0 0 before n q
          (λ x l u. cell_body_set_top-outside cell.slab n x (inl u)) v.front;
    order = omega arith;
    back = (refl, sym top-previous);
    listing = λ c.
        ap (λ o. Option.map (λ (e : CellDirEntry). e.offset) o)
          (entry_of-frame cell.cell_header.cell_dir cell.slab m (buffer_top cell)
            v.dir.overflow_valid.fits high c)
        ∙ v.listing c;
    single = v.single;
    entries = v.entries;
    bytes = v.bytes;
    total = v.total;
  }

  pushed-RingOf : RingOf pushed before []
  pushed-RingOf = record {
    q = q;
    g = n;
    r = q;
    gap = pushed-Gap;
    filled = inl (refl, refl);
    next_previous = top-previous;
  }

  -- The top is full.
  full-eq :
      ltb (cell_body_free_space pushed) ((size i + 36 + 36) % 2 ^ 32) ≡ true
      → cell_body_add_top pushed i.checksum i.bytes ≡ (false, pushed)
  unfolding cell_body_add_top
  full-eq full = rw full refl

  push-eq :
      (b : Bool) (c : Cell)
      → cell_body_add_top pushed i.checksum i.bytes ≡ (b, c)
      → cell_body_push_down_top cell n i.checksum i.bytes ≡ c
  unfolding cell_body_push_down_top
  push-eq b c e = ap (λ p. p.1) e

  pub push_down_lem : Pushed before i (cell_body_push_down_top cell n i.checksum i.bytes)
  push_down_lem =
      elim (Bool-cases (ltb (cell_body_free_space pushed) ((size i + 36 + 36) % 2 ^ 32))) [
        | inl full ↦
            subst (Pushed before i) (sym (push-eq false pushed (full-eq full)))
              (dropped pushed-RingOf refl (ground (arith, item.most)))
        | inr room ↦
            let added =
              top_added pushed before q n q i pushed-Gap refl refl item fresh
                (ground (arith, item.most)) in
            subst (Pushed before i) (sym (push-eq true added.0 added.1)) (has_room added.2)
      ]
