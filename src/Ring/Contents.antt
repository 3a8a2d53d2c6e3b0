-- ===== src/Ring/Contents.antt =====
-- What can be got from a cell before and after `cell_add_chunk` of src/theo/cell.c.
use theo.Base.{
  ◌+◌, ◌≤◌, ◌<◌, ◌≡◌, ◌≢◌, ◌⊎◌, refl, sym, ap, ◌∙◌, inl, inr, true, Option, none, some, List, [],
  ◌∷◌, ◌++◌, Option-cases, append_assoc, append-nil, arith,
}
use mathlib.Core.Path.{subst}
use theo.Checksum.{Checksum, checksum_compare_refl}
use theo.CellIc.{cell_ic_sane}
use theo.CellState.{Cell}
use theo.CellBody.{cell_body_free_space}
use theo.Cell.{cell_add_chunk}
use theo.Ring.Chain.{Item, IsItem, size}
use theo.Ring.Place.{copies, copies-append, first_of, first_of-none, IsSingle, compare_other}
use theo.Ring.Left.{Left}
use theo.Ring.Offset.{IsStuck}
use theo.Ring.Add.{IsRing}
use theo.Ring.Cells.{CellAdded, appended, restarted, ignored, cell_add_chunk-CellAdded}
use theo.Ring.Find.{find, find-append, find-none, find-some}

-- The chunk of a checksum is what it was, or is gone.
abbrev pub Keeps : Option Item → Option Item → Type 0
Keeps new old = (new ≡ old) ⊎ (new ≡ none)

Left-Keeps :
    (c : Checksum) (post left : List Item)
    → Left post left
    → copies c post ≤ 1
    → Keeps (find c left) (find c post)
Left-Keeps c post left (out, ends, e) once = elim (Option-cases (find c left)) [
  | inl gone ↦ inr gone
  | inr (j, here) ↦
      let outside : copies c out ≡ 0 = omega (
        arith,
        once,
        ap (copies c) e,
        copies-append c out (left ++ ends),
        copies-append c left ends,
        find-some c left j here,
      ) in
      let before : find c post ≡ some j =
        ap (find c) e
        ∙ find-append c out (left ++ ends)
        ∙ ap (λ o. first_of o (find c (left ++ ends))) (find-none c out outside)
        ∙ find-append c left ends
        ∙ ap (λ o. first_of o (find c ends)) here in
      inl (here ∙ sym before)
]

first_of-Keeps : (o new old : Option Item) → Keeps new old → Keeps (first_of o new) (first_of o old)
first_of-Keeps (some j) new old k = inl refl
first_of-Keeps none new old k = k

first_of-prefix : (o old : Option Item) → Keeps (first_of o none) (first_of o old)
first_of-prefix (some j) old = inl refl
first_of-prefix none old = inr refl

find-other :
    (c : Checksum) (i : Item) (is : List Item) → c ≢ i.checksum → find c (i ∷ is) ≡ find c is
find-other c i is ne = rw (compare_other i.checksum c ne) refl

find-own : (i : Item) (is : List Item) → find i.checksum (i ∷ is) ≡ some i
find-own i is = rw (checksum_compare_refl i.checksum) refl

append-Keeps :
    (c : Checksum) (before : List Item) (xs ys : List Item)
    → Keeps (find c xs) (find c ys)
    → Keeps (find c (before ++ xs)) (find c (before ++ ys))
append-Keeps c before xs ys k =
    rw (find-append c before xs, find-append c before ys)
      (first_of-Keeps (find c before) (find c xs) (find c ys) k)

-- A chunk that was added, and all others.
pub record Contents (before post : List Item) (i : Item) (cell : Cell) : Type 0 where
  pub before' : List Item
  pub post' : List Item
  pub ring : IsRing cell before' post'
  pub own :
      (find i.checksum (before' ++ post') ≡ some i)
      ⊎ ((find i.checksum (before' ++ post') ≡ none) × (cell_body_free_space cell < size i + 72))
  pub others :
      (c : Checksum) → c ≢ i.checksum → Keeps (find c (before' ++ post')) (find c (before ++ post))

module _ (before post : List Item) (i : Item) (single : IsSingle before post) where
  once_post : (c : Checksum) → copies c post ≤ 1
  once_post c = omega (arith, single c)

  once_before : (c : Checksum) → copies c before ≤ 1
  once_before c = omega (arith, single c)

  CellAdded-Contents :
      (cell : Cell)
      → copies i.checksum before + copies i.checksum post ≡ 0
      → CellAdded before post i cell
      → Contents before post i cell
  CellAdded-Contents cell fresh (appended {left} t ring) = record {
    before' = before ++ i ∷ [];
    post' = left;
    ring = ring;
    own = inl (
        ap (find i.checksum) (append_assoc before (i ∷ []) left)
        ∙ find-append i.checksum before (i ∷ left)
        ∙ ap (λ o. first_of o (find i.checksum (i ∷ left)))
            (find-none i.checksum before (omega (arith, fresh)))
        ∙ find-own i left);
    others = λ c ne.
        subst (λ is. Keeps (find c is) (find c (before ++ post)))
          (sym (append_assoc before (i ∷ []) left))
          (append-Keeps c before (i ∷ left) post
            (rw (find-other c i left ne) (Left-Keeps c post left t (once_post c))));
  }
  CellAdded-Contents cell fresh (restarted {left} e t ring) = record {
    before' = i ∷ [];
    post' = left;
    ring = ring;
    own = inl (find-own i left);
    others = λ c ne.
        rw (find-other c i left ne, e, append-nil before)
          (Left-Keeps c before left t (once_before c));
  }
  CellAdded-Contents cell fresh (ignored {kept_before} (inl e) ring few) = record {
    before' = kept_before;
    post' = [];
    ring = ring;
    own = inr (rw (e, append-nil before) (find-none i.checksum before (omega (arith, fresh))), few);
    others = λ c ne.
        rw (e, append-nil before, find-append c before post)
          (subst (λ o. Keeps o (first_of (find c before) (find c post)))
            (first_of-none (find c before)) (first_of-prefix (find c before) (find c post)));
  }
  CellAdded-Contents cell fresh (ignored {kept_before} (inr (e, e')) ring few) = record {
    before' = kept_before;
    post' = [];
    ring = ring;
    own = inr (rw e' refl, few);
    others = λ c ne. inr (rw e' refl);
  }

-- The addition of a chunk whose checksum is not there.
pub cell_add_chunk-Contents :
    (cell : Cell) (before post : List Item) (i : Item)
    → IsRing cell before post
    → IsItem i
    → copies i.checksum before + copies i.checksum post ≡ 0
    → ((cell' : Cell) × (cell_add_chunk cell i.checksum i.bytes ≡ some (true, cell'))
        × Contents before post i cell'
        × (cell_ic_sane cell'.cell_header.cell_ic ≡ true))
      ⊎ ((cell_add_chunk cell i.checksum i.bytes ≡ none) × IsStuck cell i post)
cell_add_chunk-Contents cell before post i v item fresh =
    elim (cell_add_chunk-CellAdded cell before post i v item fresh) [
      | inl (cell', eq, added, sane) ↦
          inl
            (cell', eq, CellAdded-Contents before post i v.ring.gap.single cell' fresh added, sane)
      | inr stuck ↦ inr stuck
    ]
