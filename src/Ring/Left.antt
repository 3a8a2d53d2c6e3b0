-- ===== src/Ring/Left.antt =====
-- What is left of a list when its first elements are merged and its last ones make room.
use theo.Base.{
  ◌≡◌, ◌≤◌, refl, sym, ap, ◌∙◌, inl, inr, List, [], ◌∷◌, ◌++◌, append_assoc, append-nil, arith,
}
use theo.Checksum.{Checksum}
use theo.Ring.Chain.{Item}
use theo.Ring.Place.{copies, copies-append}
use theo.Ring.Room.{Shorter}

-- The chunks `left` follow one another in `post`.
abbrev pub Left : List Item → List Item → Type 0
Left post left = (out ends : List Item) × (post ≡ out ++ (left ++ ends))

pub Left-refl : (post : List Item) → Left post post
Left-refl post = ([], [], sym (append-nil post))

pub Left-step : (i : Item) (post left : List Item) → Left post left → Left (i ∷ post) left
Left-step i post left (out, ends, e) = (i ∷ out, ends, ap (λ l. i ∷ l) e)

pub Left-Shorter :
    (post left left' : List Item) → Left post left → Shorter left left' → Left post left'
Left-Shorter post left left' (out, ends, e) (inl same) =
    (out, ends, e ∙ ap (λ l. out ++ (l ++ ends)) (sym same))
Left-Shorter post left left' (out, ends, e) (inr (i, last)) = (
  out,
  i ∷ ends,
  e ∙ ap (λ l. out ++ (l ++ ends)) last ∙ ap (λ l. out ++ l) (append_assoc left' (i ∷ []) ends),
)

pub Left-nil : (post : List Item) → Left post []
Left-nil post = ([], post, refl)

-- A checksum is no more often in what is left.
pub Left-copies :
    (c : Checksum) (post left : List Item) → Left post left → copies c left ≤ copies c post
Left-copies c post left (out, ends, e) =
    omega (arith, ap (copies c) e, copies-append c out (left ++ ends), copies-append c left ends)

pub Left-Left : (post mid left : List Item) → Left post mid → Left mid left → Left post left
Left-Left post mid left (out, ends, e) (out', ends', e') = (
  out ++ out',
  ends' ++ ends,
  e
      ∙ ap (λ l. out ++ (l ++ ends)) e'
      ∙ ap (λ l. out ++ l)
          (append_assoc out' (left ++ ends') ends
            ∙ ap (λ l. out' ++ l) (append_assoc left ends' ends))
      ∙ sym (append_assoc out out' (left ++ (ends' ++ ends))),
)
