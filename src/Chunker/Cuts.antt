-- ===== src/Chunker/Cuts.antt =====
-- Where `chunker_chunk_buffer` of src/theo/chunker.c is to cut, as a function of the bytes alone.
use theo.Base.{
  ℕ, ◌+◌, ◌-◌, ◌≤◌, ◌≡◌, sym, ap, ◌∙◌, inl, inr, Option, none, some, List, [], ◌∷◌, ◌++◌, length,
  take, drop, length-append, length-take, length-drop, take-append-drop, take-append_le,
  drop-append_le, take-take_le, min, ltb, leb, if◌then◌else◌, Option-cases, arith,
}
use theo.Chunker.{RollingHash, chunker_mask, chunker_trigger}

-- What isa-l_crypto documents of rolling_hash2. The width of the window and the tables are set by init
-- alone, and reset makes the rest of the state from the window. A run tests the hash at each byte in turn
-- and stops at the first match, so that bytes behind the match do not matter.
pub record IsRolling {State : Type 0} (rh : RollingHash State) (Setup : Type 0) : Type 0 where
  pub setup : State → Setup
  pub reset_keeps : (s : State) (bytes : List ℕ) → setup (rh.reset s bytes) ≡ setup s
  pub run_keeps :
      (s : State) (bytes : List ℕ) (mask trigger : ℕ)
      → setup (rh.run s bytes mask trigger).1 ≡ setup s
  pub reset_same :
      (s s' : State) (bytes : List ℕ) → setup s ≡ setup s' → rh.reset s bytes ≡ rh.reset s' bytes
  pub run_more :
      (s : State) (xs ys : List ℕ) (mask trigger offset : ℕ)
      → (rh.run s xs mask trigger).0 ≡ some offset
      → (rh.run s (xs ++ ys) mask trigger).0 ≡ some offset

-- The bytes before the first one that is hashed, and how many are hashed.
unfoldable pub seed : List ℕ → List ℕ
seed buffer = take 32 (drop 2016 buffer)

abbrev pub reach : List ℕ → ℕ
reach buffer = min (length buffer) 24576 - 2048

module _ {State : Type 0} (rh : RollingHash State) (s : State) where
  abbrev pub probe : List ℕ → List ℕ → Option ℕ
  probe w bytes = (rh.run (rh.reset s w) bytes chunker_mask chunker_trigger).0

  -- What a run over the bytes finds.
  unfoldable pub hit : List ℕ → Option ℕ
  hit buffer = probe (seed buffer) (take (reach buffer) buffer)

  abbrev pub cut_of : ℕ → Option ℕ → Option ℕ
  cut_of len (some offset) = some (2048 + offset)
  cut_of len none = if leb 24576 len then some 24576 else none

  -- The length of the first chunk of the bytes, if they have one.
  unfoldable pub first_cut : List ℕ → Option ℕ
  first_cut buffer = if ltb (length buffer) 2048 then none else cut_of (length buffer) (hit buffer)

  -- The two ways to a cut.
  data CutAt (b : List ℕ) (n : ℕ) : Type 0 where
    at_hit : (o : ℕ) → 2048 ≤ length b → hit b ≡ some o → n ≡ 2048 + o → CutAt b n
    at_full : 24576 ≤ length b → hit b ≡ none → n ≡ 24576 → CutAt b n

  first_cut-CutAt : (b : List ℕ) (n : ℕ) → first_cut b ≡ some n → CutAt b n
  unfolding first_cut
  first_cut-CutAt b n e = elim (Option-cases (hit b)) [
    | inl none' ↦ at_full (ground (arith, e, none')) none' (ground (arith, e, none'))
    | inr (o, at) ↦ at_hit o (ground (arith, e, at)) at (ground (arith, e, at))
  ]

  CutAt-first_cut : (b : List ℕ) (n : ℕ) → CutAt b n → first_cut b ≡ some n
  unfolding first_cut
  CutAt-first_cut b n (at_hit o long at e) = ground (arith, long, at, e)
  CutAt-first_cut b n (at_full long none' e) = ground (arith, long, none', e)

  pub first_cut-le : (b : List ℕ) (n : ℕ) → first_cut b ≡ some n → n ≤ length b
  unfolding hit
  first_cut-le b n e = elim (first_cut-CutAt b n e) [
    | at_full long none' e' ↦ omega (arith, long, e')
    | at_hit o long at e' ↦ omega (
      arith,
      long,
      e',
      length-take (reach b) b,
      rh.run_le (rh.reset s (seed b)) (take (reach b) b) chunker_mask chunker_trigger o at,
    )
  ]

  pub first_cut-least : (b : List ℕ) (n : ℕ) → first_cut b ≡ some n → (2048 ≤ n) × (2048 ≤ length b)
  first_cut-least b n e = elim (first_cut-CutAt b n e) [
    | at_full long none' e' ↦ (omega (arith, e'), omega arith)
    | at_hit o long at e' ↦ (omega (arith, e'), long)
  ]

  -- The chunks that the bytes begin with, and what is left of them.
  pub data Cuts : List ℕ → List (List ℕ) → List ℕ → Type 0 where
    last : {b : List ℕ} → first_cut b ≡ none → Cuts b [] b
    more :
        {b r : List ℕ} {cs : List (List ℕ)} (n : ℕ)
        → first_cut b ≡ some n
        → Cuts (drop n b) cs r
        → Cuts b (take n b ∷ cs) r

module _ {State Setup : Type 0} (rh : RollingHash State) (rolls : IsRolling rh Setup) (s : State)
    (xs ys : List ℕ) where
  seed-append : 2048 ≤ length xs → seed (xs ++ ys) ≡ seed xs
  unfolding seed
  seed-append long =
      ap (λ t. take 32 t) (drop-append_le 2016 xs ys (omega arith))
      ∙ take-append_le 32 (drop 2016 xs) ys (omega (arith, length-drop 2016 xs))

  take-more :
      (m n : ℕ)
      → m ≤ n
      → m ≤ length xs
      → take n (xs ++ ys) ≡ take m xs ++ drop m (take n (xs ++ ys))
  take-more m n le inside =
      sym (take-append-drop m (take n (xs ++ ys)))
      ∙ ap (λ t. t ++ drop m (take n (xs ++ ys)))
          (take-take_le m n (xs ++ ys) le ∙ take-append_le m xs ys inside)

  hit-append : (o : ℕ) → 2048 ≤ length xs → hit rh s xs ≡ some o → hit rh s (xs ++ ys) ≡ some o
  unfolding hit
  hit-append o long at =
      let m : ℕ = reach xs in
      let n : ℕ = reach (xs ++ ys) in
      let rest : List ℕ = drop m (take n (xs ++ ys)) in
      ap (λ w. probe rh s w (take n (xs ++ ys))) (seed-append long)
      ∙ ap (λ t. probe rh s (seed xs) t)
          (take-more m n (omega (arith, length-append xs ys)) (omega arith))
      ∙ rolls.run_more (rh.reset s (seed xs)) (take m xs) rest chunker_mask chunker_trigger o at

  hit-full : 24576 ≤ length xs → hit rh s (xs ++ ys) ≡ hit rh s xs
  unfolding hit
  hit-full full =
      let same : reach (xs ++ ys) ≡ reach xs = omega (arith, length-append xs ys) in
      ap (λ w. probe rh s w (take (reach (xs ++ ys)) (xs ++ ys))) (seed-append (omega arith))
      ∙ ap (λ m. probe rh s (seed xs) (take m (xs ++ ys))) same
      ∙ ap (λ t. probe rh s (seed xs) t) (take-append_le (reach xs) xs ys (omega arith))

  -- More bytes do not move the first cut.
  pub first_cut-append : (n : ℕ) → first_cut rh s xs ≡ some n → first_cut rh s (xs ++ ys) ≡ some n
  first_cut-append n e = CutAt-first_cut rh s (xs ++ ys) n (elim (first_cut-CutAt rh s xs n e) [
    | at_hit o long at e' ↦
        at_hit o (omega (arith, long, length-append xs ys)) (hit-append o long at) e'
    | at_full full none' e' ↦
        at_full (omega (arith, full, length-append xs ys)) (hit-full full ∙ none') e'
  ])
