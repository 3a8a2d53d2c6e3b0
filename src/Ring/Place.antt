-- ===== src/Ring/Place.antt =====
-- Where a checksum is in the chunks before and behind the place of the next entry.
use theo.Base.{
  ℕ, ◌+◌, ◌≤◌, ◌≡◌, ◌≢◌, refl, sym, false, Option, none, some, List, [], ◌∷◌, ◌++◌, Bool-cases, inl,
  inr, if◌then◌else◌, arith,
}
use theo.Checksum.{Checksum, checksum_compare, checksum_compare→eq, checksum_compare_refl}
use theo.Ring.Chain.{Item, size, stop}

abbrev pub first_of {ℓ} : {A : Type ℓ} → Option A → Option A → Option A
first_of (some x) o = some x
first_of none o = o

pub first_of-none {ℓ} : {A : Type ℓ} (o : Option A) → first_of o none ≡ o
first_of-none (some x) = refl
first_of-none none = refl

-- The offset of a checksum among chunks that begin at `a`.
abbrev pub place : ℕ → List Item → Checksum → Option ℕ
place a [] c = none
place a (i ∷ is) c = if checksum_compare i.checksum c then some a else place (a + 36 + size i) is c

-- How many of the chunks have a checksum.
abbrev pub copies : Checksum → List Item → ℕ
copies c [] = 0
copies c (i ∷ is) = (if checksum_compare i.checksum c then 1 else 0) + copies c is

pub place-none : (a : ℕ) (is : List Item) (c : Checksum) → copies c is ≡ 0 → place a is c ≡ none
place-none a [] c h = refl
place-none a (i ∷ is) c h = ground (arith, place-none (a + 36 + size i) is c)

pub copies-zero : (a : ℕ) (is : List Item) (c : Checksum) → place a is c ≡ none → copies c is ≡ 0
copies-zero a [] c h = refl
copies-zero a (i ∷ is) c h = ground (arith, copies-zero (a + 36 + size i) is c)

pub copies-append :
    (c : Checksum) (is js : List Item) → copies c (is ++ js) ≡ copies c is + copies c js
copies-append c [] js = omega arith
copies-append c (i ∷ is) js = omega (arith, copies-append c is js)

pub place-append :
    (a : ℕ) (is js : List Item) (c : Checksum)
    → place a (is ++ js) c ≡ first_of (place a is c) (place (stop a is) js c)
place-append a [] js c = refl
place-append a (i ∷ is) js c = ground (arith, place-append (a + 36 + size i) is js c)

-- The checksum is in the chunks that begin at 0, or in those that begin at `g`.
abbrev pub spot : List Item → ℕ → List Item → Checksum → Option ℕ
spot before g post c = first_of (place 0 before c) (place g post c)

-- No checksum is there twice.
abbrev pub IsSingle : List Item → List Item → Type 0
IsSingle before post = (c : Checksum) → copies c before + copies c post ≤ 1

pub spot-none :
    (before : List Item) (g : ℕ) (post : List Item) (c : Checksum)
    → copies c before + copies c post ≡ 0
    → spot before g post c ≡ none
spot-none before g post c h = ground (arith, place-none 0 before c, place-none g post c)

pub spot-zero :
    (before : List Item) (g : ℕ) (post : List Item) (c : Checksum)
    → spot before g post c ≡ none
    → copies c before + copies c post ≡ 0
spot-zero before g post c h = ground (arith, copies-zero 0 before c, copies-zero g post c)

pub compare_other : (c k : Checksum) → k ≢ c → checksum_compare c k ≡ false
compare_other c k ne = elim (Bool-cases (checksum_compare c k)) [
  | inl e ↦ absurd (ne (sym (checksum_compare→eq c k e)))
  | inr e ↦ e
]

-- The first chunk behind the gap goes.
module _ (before : List Item) (g : ℕ) (i : Item) (post : List Item)
    (single : IsSingle before (i ∷ post)) where
  pub first-IsSingle : IsSingle before post
  first-IsSingle c = omega (arith, single c)

  pub first-at : spot before g (i ∷ post) i.checksum ≡ some g
  first-at =
      ground
        (arith, single i.checksum, checksum_compare_refl i.checksum, place-none 0 before i.checksum)

  pub first-gone : (g' : ℕ) → spot before g' post i.checksum ≡ none
  first-gone g' =
      spot-none before g' post i.checksum
        (ground (arith, single i.checksum, checksum_compare_refl i.checksum))

  pub first-same :
      (k : Checksum)
      → k ≢ i.checksum
      → spot before (g + 36 + size i) post k ≡ spot before g (i ∷ post) k
  first-same k ne = ground (arith, compare_other i.checksum k ne)

-- The last chunk behind the gap goes.
module _ (before : List Item) (g : ℕ) (post : List Item) (i : Item)
    (single : IsSingle before (post ++ i ∷ [])) where
  pub last-IsSingle : IsSingle before post
  last-IsSingle c = omega (arith, single c, copies-append c post (i ∷ []))

  none_else : copies i.checksum before + copies i.checksum post ≡ 0
  none_else = ground (
    arith,
    single i.checksum,
    copies-append i.checksum post (i ∷ []),
    checksum_compare_refl i.checksum,
  )

  pub last-at : spot before g (post ++ i ∷ []) i.checksum ≡ some (stop g post)
  last-at = ground (
    arith,
    none_else,
    place-none 0 before i.checksum,
    place-none g post i.checksum,
    place-append g post (i ∷ []) i.checksum,
    checksum_compare_refl i.checksum,
  )

  pub last-gone : spot before g post i.checksum ≡ none
  last-gone = spot-none before g post i.checksum none_else

  pub last-same :
      (k : Checksum) → k ≢ i.checksum → spot before g post k ≡ spot before g (post ++ i ∷ []) k
  last-same k ne = ground (arith, place-append g post (i ∷ []) k, compare_other i.checksum k ne)

-- A chunk comes behind those before the gap.
module _ (before : List Item) (g : ℕ) (post : List Item) (i : Item) (single : IsSingle before post)
    (fresh : copies i.checksum before + copies i.checksum post ≡ 0) where
  pub added-IsSingle : IsSingle (before ++ i ∷ []) post
  added-IsSingle c = elim (Bool-cases (checksum_compare i.checksum c)) [
    | inl e ↦
        let same : i.checksum ≡ c = checksum_compare→eq i.checksum c e in
        ground (arith, copies-append c before (i ∷ []), same, fresh)
    | inr e ↦ ground (arith, copies-append c before (i ∷ []), e, single c)
  ]

  pub added-at : spot (before ++ i ∷ []) g post i.checksum ≡ some (stop 0 before)
  added-at = ground (
    arith,
    fresh,
    place-none 0 before i.checksum,
    place-append 0 before (i ∷ []) i.checksum,
    checksum_compare_refl i.checksum,
  )

  pub added-same :
      (k : Checksum) → k ≢ i.checksum → spot (before ++ i ∷ []) g post k ≡ spot before g post k
  added-same k ne = ground (arith, place-append 0 before (i ∷ []) k, compare_other i.checksum k ne)
