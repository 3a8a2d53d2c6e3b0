-- ===== src/ChunkStreamer/Divide.antt =====
-- A stream fed to src/theo/chunk_streamer.c in buffers of any sizes, each one behind the bytes that the
-- call before it retained.
use theo.Base.{
  ℕ, zero, suc, ◌+◌, ◌≤◌, ◌<◌, ◌%◌, ◌^◌, ◌≡◌, refl, sym, ap, ◌∙◌, inl, inr, Option, none, some,
  List, [], ◌∷◌, ◌++◌, append_assoc, append-nil, length, take, drop, length-drop, Option-cases,
  arith,
}
use mathlib.Core.Path.{subst}
use theo.ChunkRef.{Sha256}
use theo.Chunker.{RollingHash, Chunker}
use theo.Chunker.Laws.{Retains, chunker_flush_retained_lem}
use theo.Chunker.Cuts.{IsRolling, first_cut, first_cut-least, Cuts, last, more}
use theo.Chunker.Follow.{Cuts-append, Cuts-unique}
use theo.ChunkStreamer.{
  ChunkStore, ChunkStreamer, Run, done, aborted, out_of_fuel, chunk_streamer_process_buffer,
  chunk_streamer_flush_retained,
}
use theo.ChunkStreamer.Streamed.{IsStreamer, join}
use theo.ChunkStreamer.Offers.{offer_all, counted, then_offer, offer_all-append}
use theo.ChunkStreamer.Follow.{
  Agrees, agree_done, agree_aborted, chunk_streamer_process_buffer-Agrees,
}

module _ {S State : Type 0} {sha : Sha256} (store : ChunkStore sha S) (rh : RollingHash State) where
  abbrev pub after_buffer :
      (ChunkStreamer State → S → Run (ChunkStreamer State × S))
      → Run (ChunkStreamer State × S)
      → Run (ChunkStreamer State × S)
  after_buffer again (done (st, s)) = again st s
  after_buffer again aborted = aborted
  after_buffer again out_of_fuel = out_of_fuel

  abbrev pub after_flush :
      (ChunkStreamer State → S → Run (ChunkStreamer State × S))
      → S
      → List ℕ
      → Option (List ℕ × ChunkStreamer State)
      → Run (ChunkStreamer State × S)
  after_flush again s b none = aborted
  after_flush again s b (some (kept, st)) =
      after_buffer again (chunk_streamer_process_buffer rh store st s (kept ++ b))

  -- The buffers of a stream, one call after the other. `n` is the room given to the bytes retained.
  unfoldable pub feed : ℕ → List (List ℕ) → ChunkStreamer State → S → Run (ChunkStreamer State × S)
  feed n [] st s = done (st, s)
  feed n (b ∷ bs) st s = after_flush (feed n bs) s b (chunk_streamer_flush_retained rh store st n)

  -- Two runs abort both, or end with the same cache, the same counts and the same bytes retained.
  pub data SameEnd : (r r' : Run (ChunkStreamer State × S)) → Type 0 where
    both_done :
        {st st' : ChunkStreamer State} {s : S} (rest : List ℕ)
        → Retains st.chunker rest
        → Retains st'.chunker rest
        → st.chunk_hit ≡ st'.chunk_hit
        → st.chunk_added ≡ st'.chunk_added
        → SameEnd (done (st, s)) (done (st', s))
    both_aborted : SameEnd aborted aborted

module _ {S : Type 0} {sha : Sha256} (store : ChunkStore sha S) where
  module _ {State Setup : Type 0} (rh : RollingHash State) (rolls : IsRolling rh Setup)
      (s₀ : State) where
    Agrees-counted :
        (st st' : ChunkStreamer State) (rest : List ℕ) (hits added : ℕ) (o : Option (S × ℕ × ℕ))
        (r : Run (ChunkStreamer State × S))
        → st'.chunk_hit ≡ (st.chunk_hit + hits) % 2 ^ 32
        → st'.chunk_added ≡ (st.chunk_added + added) % 2 ^ 32
        → Agrees store rh rolls s₀ st' rest o r
        → Agrees store rh rolls s₀ st rest (counted store hits added o) r
    Agrees-counted st st' rest hits added _ _ h a (agree_done k same h' a') =
        agree_done k same (omega (arith, h, h')) (omega (arith, a, a'))
    Agrees-counted st st' rest hits added _ _ h a agree_aborted = agree_aborted

    Agrees-flushed :
        (st : ChunkStreamer State) (c : Chunker State) (rest : List ℕ) (o : Option (S × ℕ × ℕ))
        (r : Run (ChunkStreamer State × S))
        → Agrees store rh rolls s₀ (record st { chunker = c }) rest o r
        → Agrees store rh rolls s₀ st rest o r
    Agrees-flushed st c rest _ _ (agree_done k same h a) = agree_done k same h a
    Agrees-flushed st c rest _ _ agree_aborted = agree_aborted

    -- There is a way to cut, and what it leaves has no chunk.
    cuts_of :
        (fuel : ℕ) (b : List ℕ)
        → length b < fuel
        → (chunks : List (List ℕ)) × (rest : List ℕ) × Cuts rh s₀ b chunks rest
    cuts_of zero b lt = absurd (omega arith)
    cuts_of (suc fuel) b lt = elim (Option-cases (first_cut rh s₀ b)) [
      | inl none' ↦ ([], b, last none')
      | inr (n, at) ↦
          let (chunks, rest, cuts) =
            cuts_of fuel (drop n b)
              (omega (arith, length-drop n b, first_cut-least rh s₀ b n at)) in
          (take n b ∷ chunks, rest, more n at cuts)
    ]

    Cuts-rest :
        {b rest : List ℕ} {chunks : List (List ℕ)}
        → Cuts rh s₀ b chunks rest
        → first_cut rh s₀ rest ≡ none
    Cuts-rest (last e) = e
    Cuts-rest (more n e cuts) = Cuts-rest cuts

    module _ (n : ℕ) (room : 24576 ≤ n) where
      -- What is known of the streamer between two buffers: it retains bytes that have no chunk.
      record Between (st : ChunkStreamer State) (kept : List ℕ) : Type 0 where
        pub valid : IsStreamer store st
        pub retains : Retains st.chunker kept
        pub no_chunk : first_cut rh s₀ kept ≡ none
        pub same : rolls.setup st.chunker.rh_state2 ≡ rolls.setup s₀

      abbrev Feeds : List (List ℕ) → Type 0
      Feeds bs =
          (st : ChunkStreamer State) (s : S) (kept rest : List ℕ) (chunks : List (List ℕ))
          → Between st kept
          → Cuts rh s₀ (kept ++ join bs) chunks rest
          → Agrees store rh rolls s₀ st rest (offer_all store s chunks) (feed store rh n bs st s)

      after_buffer-Agrees :
          (bs : List (List ℕ)) (st : ChunkStreamer State) (r rest : List ℕ) (chunks : List (List ℕ))
          (o : Option (S × ℕ × ℕ)) (x : Run (ChunkStreamer State × S))
          → Feeds bs
          → first_cut rh s₀ r ≡ none
          → Cuts rh s₀ (r ++ join bs) chunks rest
          → Agrees store rh rolls s₀ st r o x
          → Agrees store rh rolls s₀ st rest
              (then_offer store chunks o)
              (after_buffer store rh (feed store rh n bs) x)
      after_buffer-Agrees bs st r rest chunks _ _ feeds e cuts agree_aborted = agree_aborted
      after_buffer-Agrees bs st r rest chunks _ _ feeds e cuts
            (agree_done {st'} {s'} {hits} {added} k same h a) =
          Agrees-counted st st' rest hits added (offer_all store s' chunks) _ h a (
            feeds st' s' r rest chunks
              (record {
                valid = record {
                  chunker_valid = k.valid;
                  added_lt = omega (arith, a);
                  hit_lt = omega (arith, h);
                };
                retains = k;
                no_chunk = e;
                same = same;
              })
              cuts)

      feed-Agrees : (bs : List (List ℕ)) → Feeds bs
      unfolding feed offer_all chunk_streamer_flush_retained
      feed-Agrees [] st s kept rest chunks b cuts =
          let (same, same') =
            Cuts-unique rh rolls s₀ kept rest kept chunks []
              (subst (λ t. Cuts rh s₀ t chunks rest) (append-nil kept) cuts) (last b.no_chunk) in
          rw (same, same')
            (agree_done b.retains b.same (omega (arith, b.valid.hit_lt))
              (omega (arith, b.valid.added_lt)))
      feed-Agrees (buffer ∷ bs) st s kept rest chunks b cuts =
          let (c, flushes, empty, state) =
            chunker_flush_retained_lem rh st.chunker kept n b.retains
              (omega (arith, b.retains.valid.small, b.retains.count)) in
          let st₁ : ChunkStreamer State = record st { chunker = c } in
          let (cs, r, now) =
            cuts_of (suc (length (kept ++ buffer))) (kept ++ buffer) (omega arith) in
          let (cs', r', later) =
            cuts_of (suc (length (r ++ join bs))) (r ++ join bs) (omega arith) in
          let (same, same') =
            Cuts-unique rh rolls s₀ (kept ++ (buffer ++ join bs)) rest r' chunks (cs ++ cs') cuts (
              subst (λ t. Cuts rh s₀ t (cs ++ cs') r') (append_assoc kept buffer (join bs))
                (Cuts-append rh rolls s₀ (kept ++ buffer) r (join bs) r' cs cs' now later)) in
          let valid : IsStreamer store st₁ = record {
            chunker_valid = empty.valid;
            added_lt = b.valid.added_lt;
            hit_lt = b.valid.hit_lt;
          } in
          rw (flushes, same, same', offer_all-append store cs cs' s)
            (Agrees-flushed st c r' _ _ (
              after_buffer-Agrees bs st₁ r r' cs' (offer_all store s cs) _ (feed-Agrees bs)
                (Cuts-rest now) later
                (chunk_streamer_process_buffer-Agrees store rh rolls s₀ st₁ s (kept ++ buffer) r cs
                  valid empty.count (ap rolls.setup state ∙ b.same) now)))

  Agrees-SameEnd :
      {State Setup : Type 0} (rh : RollingHash State) (rolls : IsRolling rh Setup) (s₀ : State)
      (st : ChunkStreamer State) (rest : List ℕ) (o : Option (S × ℕ × ℕ))
      (r r' : Run (ChunkStreamer State × S))
      → Agrees store rh rolls s₀ st rest o r
      → Agrees store rh rolls s₀ st rest o r'
      → SameEnd store rh r r'
  Agrees-SameEnd rh rolls s₀ st rest _ _ _ (agree_done k same h a) (agree_done k' same' h' a') =
      both_done rest k k' (h ∙ sym h') (a ∙ sym a')
  Agrees-SameEnd rh rolls s₀ st rest _ _ _ agree_aborted agree_aborted = both_aborted

-- With a streamer that retains nothing and room for all that it can retain, two divisions of the same
-- bytes into buffers end alike: both runs abort, or both end with the same cache, the same counts of
-- chunks and the same bytes retained. The cache may be any, in any state.
pub feed-SameEnd :
    {S State Setup : Type 0} {sha : Sha256} (store : ChunkStore sha S) (rh : RollingHash State)
    (rolls : IsRolling rh Setup) (n : ℕ) (st : ChunkStreamer State) (s : S)
    (buffers buffers' : List (List ℕ))
    → 24576 ≤ n
    → IsStreamer store st
    → Retains st.chunker []
    → join buffers ≡ join buffers'
    → SameEnd store rh (feed store rh n buffers st s) (feed store rh n buffers' st s)
unfolding first_cut
feed-SameEnd store rh rolls n st s buffers buffers' room v empty same =
    let s₀ = st.chunker.rh_state2 in
    let (chunks, rest, cuts) =
      cuts_of store rh rolls s₀ (suc (length (join buffers))) (join buffers) (omega arith) in
    let b : Between store rh rolls s₀ n room st [] = record {
      valid = v;
      retains = empty;
      no_chunk = refl;
      same = refl;
    } in
    Agrees-SameEnd store rh rolls s₀ st rest (offer_all store s chunks) _ _
      (feed-Agrees store rh rolls s₀ n room buffers st s [] rest chunks b cuts)
      (feed-Agrees store rh rolls s₀ n room buffers' st s [] rest chunks b
        (subst (λ t. Cuts rh s₀ t chunks rest) same cuts))
