-- ===== src/Ring/Add.antt =====
-- `cell_body_add` of src/theo/cell_body.c on the ring.
use theo.Base.{
  ℕ, ◌+◌, ◌%◌, ◌^◌, ◌≤◌, ◌<◌, ◌≡◌, ◌⊎◌, refl, sym, ap, ◌∙◌, inl, inr, Bool, true, false, none, some,
  List, [], ◌∷◌, length, ltb, Bool-cases, arith,
}
use mathlib.Core.Path.{subst}
use theo.CellBodyEntry.{CellBodyEntry, cell_body_entry_top}
use theo.CellState.{Cell}
use theo.CellBody.{
  top_offset, next_offset, entry_at, set_body, cell_body_free_space, cell_body_add_top,
  cell_body_add_offset, add_or_wrap, cell_body_add,
}
use theo.Ring.Chain.{Item, IsItem, size, Chain, Chain-most}
use theo.Ring.Place.{copies, place, first_of-none}
use theo.Ring.Gap.{Gap, Filled, RingOf, g_le, free_space_lem, few_overflowed}
use theo.Ring.Fill.{head_previous}
use theo.Ring.Top.{top_added}
use theo.Ring.Room.{IsSafe}
use theo.Ring.Left.{Left-nil}
use theo.Ring.Finish.{Added, kept}
use theo.Ring.Offset.{IsStuck, add_offset_lem}

-- A cell whose ring has these chunks, oldest last in `before` and first in `post`. It can lose its
-- oldest chunks and keep others.
pub record IsRing (cell : Cell) (before post : List Item) : Type 0 where
  pub ring : RingOf cell before post
  pub settled :
      (0 < length before) ⊎ (131072 ≤ top_offset cell) ⊎ (next_offset cell ≡ top_offset cell)

-- The chunk was added behind the others, or at the start of the slab, with the others behind it.
pub data RingAdded (before post : List Item) (i : Item) (cell : Cell) : Type 0 where
  behind : Added before post i cell → RingAdded before post i cell
  wrapped : post ≡ [] → Added [] before i cell → RingAdded before post i cell

-- The next entry is the top, or a chunk or a free entry below it.
data NextEntry (cell : Cell) (q g r : ℕ) (post : List Item) : Type 0 where
  is_top :
      post ≡ []
      → next_offset cell ≡ top_offset cell
      → g ≡ next_offset cell
      → r ≡ q
      → (entry_at cell (next_offset cell)).top_entry ≡ 1
      → NextEntry cell q g r post
  is_below :
      next_offset cell < top_offset cell
      → (entry_at cell (next_offset cell)).top_entry ≡ 0
      → NextEntry cell q g r post

next_entry :
    (cell : Cell) (before : List Item) (q g r : ℕ) (post : List Item)
    → Gap cell before q g r post
    → Filled cell q g r
    → NextEntry cell q g r post
next_entry cell before q g r post v (inr (free, low, len, ends)) =
    is_below (omega (arith, ends, g_le v)) low
next_entry cell before q g r [] v (inl (at, same)) =
    let top : next_offset cell ≡ top_offset cell = sym at ∙ v.back.0 in
    is_top refl top at same (ap (λ a. (entry_at cell a).top_entry) top ∙ v.top_is_top)
next_entry cell before q g r (j ∷ post) v (inl (at, same)) = is_below (omega (arith, at, g_le v)) (
    ap (λ a. (entry_at cell a).top_entry) (sym at)
    ∙ ap (λ (b : CellBodyEntry). b.top_entry) v.back.0)

-- The next entry goes back to the start of the slab.
module _ (cell : Cell) (before : List Item) (q g : ℕ) (v : Gap cell before q g q [])
    (at : next_offset cell ≡ top_offset cell) where
  abbrev start : Cell
  start = set_body cell (top_offset cell) 0

  start-Gap : Gap start [] 0 0 0 before
  start-Gap = record {
    whole = v.whole;
    dir = v.dir;
    apart = v.apart;
    top_is_top = v.top_is_top;
    front = (refl, refl);
    order = omega arith;
    back =
        subst (λ a. Chain cell.slab 0 0 before a (entry_at cell (top_offset cell)).previous_size) at
          (subst (λ p. Chain cell.slab 0 0 before (next_offset cell) p) v.back.1 v.front);
    listing = λ c. v.listing c ∙ first_of-none (place 0 before c);
    single = λ c. omega (arith, v.single c);
    entries = omega (arith, v.entries);
    bytes = omega (arith, v.bytes);
    total = v.total;
  }

  start-RingOf : RingOf start [] before
  start-RingOf = record {
    q = 0;
    g = 0;
    r = 0;
    gap = start-Gap;
    filled = inl (refl, refl);
    next_previous = head_previous start [] 0 0 0 before start-Gap;
  }

  -- A cell whose top has no room for a chunk has several chunks.
  wrap_lem :
      (i : Item)
      → IsItem i
      → copies i.checksum before ≡ 0
      → cell_body_free_space cell < size i + 72
      → (cell' : Cell) × (cell_body_add_offset start i.checksum i.bytes ≡ some cell')
        × Added [] before i cell'
  wrap_lem i item fresh full =
      let far : 900000 ≤ top_offset cell =
        omega (
          arith,
          full,
          item.most,
          free_space_lem v,
          v.whole,
          v.total,
          v.entries,
          few_overflowed v,
        ) in
      let several : 1 < length before = omega (arith, far, at, Chain-most _ _ _ _ _ _ v.front) in
      elim (add_offset_lem start [] before i start-RingOf (omega (arith, far))
        (inr (omega (arith, far))) item (omega (arith, fresh))) [
          | inl added ↦ added
          | inr (e, stuck) ↦ absurd (omega (arith, several, stuck.last))
        ]

module _ (cell : Cell) (before post : List Item) (i : Item) (v : IsRing cell before post)
    (item : IsItem i) (fresh : copies i.checksum before + copies i.checksum post ≡ 0) where
  below-eq :
      (entry_at cell (next_offset cell)).top_entry ≡ 0
      → cell_body_add cell i.checksum i.bytes ≡ cell_body_add_offset cell i.checksum i.bytes
  unfolding cell_body_add cell_body_entry_top
  below-eq low = rw low refl

  top-eq :
      (b : Bool) (c : Cell)
      → (entry_at cell (next_offset cell)).top_entry ≡ 1
      → cell_body_add_top cell i.checksum i.bytes ≡ (b, c)
      → cell_body_add cell i.checksum i.bytes ≡ add_or_wrap i.checksum i.bytes (b, c)
  unfolding cell_body_add cell_body_entry_top
  top-eq b c top e = rw (top, e) refl

  full-eq :
      ltb (cell_body_free_space cell) ((size i + 36 + 36) % 2 ^ 32) ≡ true
      → cell_body_add_top cell i.checksum i.bytes ≡ (false, cell)
  unfolding cell_body_add_top
  full-eq full = rw full refl

  -- The chunk is added, or there is the one reason for which the addition aborts.
  abbrev pub BodyAdded : Type 0
  BodyAdded =
      ((cell' : Cell) × (cell_body_add cell i.checksum i.bytes ≡ some cell')
        × RingAdded before post i cell')
      ⊎ ((cell_body_add cell i.checksum i.bytes ≡ none) × IsStuck cell i post)

  at_below :
      next_offset cell < top_offset cell
      → (entry_at cell (next_offset cell)).top_entry ≡ 0
      → BodyAdded
  at_below below low =
      let safe : IsSafe cell before = elim v.settled [
        | inl some' ↦ inl some'
        | inr (inl far) ↦ inr far
        | inr (inr at) ↦ absurd (omega (arith, at, below))
      ] in
      elim (add_offset_lem cell before post i v.ring below safe item fresh) [
        | inl (cell', eq, added) ↦ inl (cell', below-eq low ∙ eq, behind added)
        | inr (eq, stuck) ↦ inr (below-eq low ∙ eq, stuck)
      ]

  at_top :
      (q g : ℕ)
      → Gap cell before q g q []
      → post ≡ []
      → next_offset cell ≡ top_offset cell
      → g ≡ next_offset cell
      → (entry_at cell (next_offset cell)).top_entry ≡ 1
      → BodyAdded
  at_top q g gap none' at same top =
      elim (Bool-cases (ltb (cell_body_free_space cell) ((size i + 36 + 36) % 2 ^ 32))) [
        | inl full ↦
            let (cell', eq, added) =
              wrap_lem cell before q g gap at i item (omega (arith, fresh))
                (ground (arith, full, item.most)) in
            inl (cell', top-eq false cell top (full-eq full) ∙ eq, wrapped none' added)
        | inr room ↦
            let (cell', eq, ring, tops) =
              top_added cell before q g q i gap at refl item (omega (arith, fresh))
                (ground (arith, room, item.most)) in
            inl (cell', top-eq true cell' top eq, behind (kept (Left-nil post) ring))
      ]

  pub cell_body_add_lem : BodyAdded
  cell_body_add_lem =
      elim (next_entry cell before v.ring.q v.ring.g v.ring.r post v.ring.gap v.ring.filled) [
        | is_below below low ↦ at_below below low
        | is_top none' at same eq top ↦
            at_top v.ring.q v.ring.g
              (subst (λ r. Gap cell before v.ring.q v.ring.g r []) eq
                (subst (λ is. Gap cell before v.ring.q v.ring.g v.ring.r is) none' v.ring.gap))
              none' at same top
      ]
