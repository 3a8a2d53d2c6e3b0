-- ===== src/ChunkStreamer/Offers.antt =====
-- The chunks of a buffer offered to the cache in order, as in the loop of src/theo/chunk_streamer.c.
use theo.Base.{
  ℕ, suc, ◌+◌, ◌≡◌, refl, ap, ◌∙◌, inl, inr, Option, none, some, List, [], ◌∷◌, ◌++◌, if◌then◌else◌,
  ◌>>=◌, Bool-cases, Option-cases, arith,
}
use theo.ChunkRef.{Sha256}
use theo.ChunkStreamer.{ChunkStore}

module _ {S : Type 0} {sha : Sha256} (store : ChunkStore sha S) where
  -- One more chunk that was there, and one more that was not.
  abbrev pub one_hit : Option (S × ℕ × ℕ) → Option (S × ℕ × ℕ)
  one_hit none = none
  one_hit (some (s, hits, added)) = some (s, suc hits, added)

  abbrev pub one_added : Option (S × ℕ × ℕ) → Option (S × ℕ × ℕ)
  one_added none = none
  one_added (some (s, hits, added)) = some (s, hits, suc added)

  -- The cache after the chunks were offered to it in order, with how many it had and how many were
  -- added; `none` when it aborts on one of them.
  unfoldable pub offer_all : S → List (List ℕ) → Option (S × ℕ × ℕ)
  offer_all s [] = some (s, 0, 0)
  offer_all s (b ∷ bs) =
      if store.has_chunk s (sha.digest b)
      then one_hit (offer_all s bs)
      else (store.add_chunk s (sha.digest b) b >>= λ (_, s'). one_added (offer_all s' bs))

  -- The counts of the offers before, added to those of the later ones.
  abbrev pub counted : ℕ → ℕ → Option (S × ℕ × ℕ) → Option (S × ℕ × ℕ)
  counted hits added none = none
  counted hits added (some (s, hits', added')) = some (s, hits + hits', added + added')

  abbrev pub then_offer : List (List ℕ) → Option (S × ℕ × ℕ) → Option (S × ℕ × ℕ)
  then_offer bs none = none
  then_offer bs (some (s, hits, added)) = counted hits added (offer_all s bs)

  counted-none : (o : Option (S × ℕ × ℕ)) → o ≡ counted 0 0 o
  counted-none none = refl
  counted-none (some (s, hits, added)) = ground arith

  then_offer-one_hit :
      (bs : List (List ℕ)) (o : Option (S × ℕ × ℕ))
      → one_hit (then_offer bs o) ≡ then_offer bs (one_hit o)
  then_offer-one_hit bs none = refl
  then_offer-one_hit bs (some (s, hits, added)) = elim (Option-cases (offer_all s bs)) [
    | inl stuck ↦ rw stuck refl
    | inr ((s', hits', added'), ends) ↦ rw ends (ground arith)
  ]

  then_offer-one_added :
      (bs : List (List ℕ)) (o : Option (S × ℕ × ℕ))
      → one_added (then_offer bs o) ≡ then_offer bs (one_added o)
  then_offer-one_added bs none = refl
  then_offer-one_added bs (some (s, hits, added)) = elim (Option-cases (offer_all s bs)) [
    | inl stuck ↦ rw stuck refl
    | inr ((s', hits', added'), ends) ↦ rw ends (ground arith)
  ]

  pub offer_all-append :
      (bs bs' : List (List ℕ)) (s : S) → offer_all s (bs ++ bs') ≡ then_offer bs' (offer_all s bs)
  unfolding offer_all
  offer_all-append [] bs' s = counted-none (offer_all s bs')
  offer_all-append (b ∷ bs) bs' s = elim (Bool-cases (store.has_chunk s (sha.digest b))) [
    | inl has ↦ rw has (ap (one_hit) (offer_all-append bs bs' s) ∙ then_offer-one_hit bs' _)
    | inr new ↦ elim (Option-cases (store.add_chunk s (sha.digest b) b)) [
      | inl stuck ↦ rw (new, stuck) refl
      | inr ((r, s'), adds) ↦
          rw (new, adds) (ap (one_added) (offer_all-append bs bs' s') ∙ then_offer-one_added bs' _)
    ]
  ]
