-- ===== src/ChunkStreamer/Follow.antt =====
-- `chunk_streamer_process_buffer` of src/theo/chunk_streamer.c against a description of its result by
-- the bytes and the cache alone.
use theo.Base.{
  ℕ, zero, suc, ◌+◌, ◌<◌, ◌%◌, ◌^◌, ◌≡◌, sym, ap, ◌∙◌, inl, inr, Option, none, some, List, ◌∷◌,
  length, take, drop, length-drop, Bool-cases, Option-cases, arith,
}
use mathlib.Core.Path.{subst}
use theo.ChunkRef.{Sha256}
use theo.Chunker.{RollingHash, Chunker, Chunked}
use theo.Chunker.Laws.{IsChunker, Retains, ChunkOutcome, cut, kept, chunker_chunk_buffer_lem}
use theo.Chunker.Cuts.{IsRolling, Cuts, last, more}
use theo.Chunker.Follow.{CutOutcome, cut_at, no_cut, chunker_chunk_buffer-CutOutcome}
use theo.ChunkStreamer.{
  ChunkStore, ChunkStreamer, Run, done, aborted, offer, after_offer, after_chunk, process,
  chunk_streamer_process_buffer,
}
use theo.ChunkStreamer.Streamed.{IsStreamer}
use theo.ChunkStreamer.Offers.{one_hit, one_added, offer_all}

module _ {S : Type 0} {sha : Sha256} (store : ChunkStore sha S) where
  module _ {State Setup : Type 0} (rh : RollingHash State) (rolls : IsRolling rh Setup)
      (s₀ : State) where
    -- A run from the streamer `st` aborts where the offers abort. Where they end, it ends with their cache, it
    -- has counted them, and keeps just the bytes `rest`.
    pub data Agrees (st : ChunkStreamer State) (rest : List ℕ)
        : Option (S × ℕ × ℕ) → Run (ChunkStreamer State × S) → Type 0 where
      agree_done :
          {st' : ChunkStreamer State} {s' : S} {hits added : ℕ}
          → Retains st'.chunker rest
          → rolls.setup st'.chunker.rh_state2 ≡ rolls.setup s₀
          → st'.chunk_hit ≡ (st.chunk_hit + hits) % 2 ^ 32
          → st'.chunk_added ≡ (st.chunk_added + added) % 2 ^ 32
          → Agrees st rest (some (s', hits, added)) (done (st', s'))
      agree_aborted : Agrees st rest none aborted

    module _ {st : ChunkStreamer State} {rest : List ℕ} where
      Agrees-hit :
          (c : Chunker State) (o : Option (S × ℕ × ℕ)) (r : Run (ChunkStreamer State × S))
          → Agrees (record st { chunker = c; chunk_hit = (st.chunk_hit + 1) % 2 ^ 32 }) rest o r
          → Agrees st rest (one_hit store o) r
      Agrees-hit c _ _ (agree_done k same hits added) = agree_done k same (hits ∙ omega arith) added
      Agrees-hit c _ _ agree_aborted = agree_aborted

      Agrees-added :
          (c : Chunker State) (o : Option (S × ℕ × ℕ)) (r : Run (ChunkStreamer State × S))
          → Agrees (record st { chunker = c; chunk_added = (st.chunk_added + 1) % 2 ^ 32 }) rest o r
          → Agrees st rest (one_added store o) r
      Agrees-added c _ _ (agree_done k same hits added) =
          agree_done k same hits (added ∙ omega arith)
      Agrees-added c _ _ agree_aborted = agree_aborted

    -- What is known of the streamer before a round.
    record Ready (st : ChunkStreamer State) : Type 0 where
      pub valid : IsStreamer store st
      pub empty : st.chunker.retained_size ≡ 0
      pub same : rolls.setup st.chunker.rh_state2 ≡ rolls.setup s₀

    abbrev Agreeing :
        ℕ → (ChunkStreamer State → S → List ℕ → Run (ChunkStreamer State × S)) → Type 0
    Agreeing n again =
        (st : ChunkStreamer State) (s : S) (left rest : List ℕ) (chunks : List (List ℕ))
        → Ready st
        → Cuts rh s₀ left chunks rest
        → length left < n
        → Agrees st rest (offer_all store s chunks) (again st s left)

    after_offer-Agrees :
        (again : ChunkStreamer State → S → List ℕ → Run (ChunkStreamer State × S))
        (st : ChunkStreamer State) (c : Chunker State) (s : S) (b left rest : List ℕ)
        (chunks : List (List ℕ)) (n : ℕ)
        → Agreeing n again
        → length left < n
        → IsStreamer store st
        → IsChunker c
        → c.retained_size ≡ 0
        → rolls.setup c.rh_state2 ≡ rolls.setup s₀
        → Cuts rh s₀ left chunks rest
        → Agrees st rest (offer_all store s (b ∷ chunks)) (
            after_offer rh store
              (λ st' s'. again st' s' left)
              (offer rh store (record st { chunker = c }) s (sha.digest b) b))
    unfolding offer_all
    after_offer-Agrees again st c s b left rest chunks n goes shorter v w empty same cuts =
        elim (Bool-cases (store.has_chunk s (sha.digest b))) [
          | inl has ↦ rw has (
              Agrees-hit c (offer_all store s chunks) _ (
                goes _ s left rest chunks
                  (record {
                    valid = record {
                      chunker_valid = w;
                      added_lt = v.added_lt;
                      hit_lt = omega arith;
                    };
                    empty = empty;
                    same = same;
                  })
                  cuts shorter))
          | inr new ↦ elim (Option-cases (store.add_chunk s (sha.digest b) b)) [
            | inl stuck ↦ rw (new, stuck) agree_aborted
            | inr ((r, s'), adds) ↦
                rw (new, adds)
                  (Agrees-added c (offer_all store s' chunks) _ (
                    goes _ s' left rest chunks
                      (record {
                        valid = record {
                          chunker_valid = w;
                          added_lt = omega arith;
                          hit_lt = v.hit_lt;
                        };
                        empty = empty;
                        same = same;
                      })
                      cuts shorter))
          ]
        ]

    after_chunk-Agrees :
        (again : ChunkStreamer State → S → List ℕ → Run (ChunkStreamer State × S))
        (st : ChunkStreamer State) (s : S) (left rest : List ℕ) (chunks : List (List ℕ))
        (r : Option (Chunked × Chunker State))
        → Agreeing (length left) again
        → IsStreamer store st
        → ChunkOutcome sha left r
        → CutOutcome rh rolls s₀ sha left r
        → Cuts rh s₀ left chunks rest
        → Agrees st rest (offer_all store s chunks) (after_chunk rh store again st s left r)
    unfolding offer_all
    after_chunk-Agrees again st s _ _ _ _ goes v (kept k) (no_cut e same) (last e') =
        agree_done k same (omega (arith, v.hit_lt)) (omega (arith, v.added_lt))
    after_chunk-Agrees again st s _ _ _ _ goes v (kept k) (no_cut e same) (more n e' cuts) =
        absurd (ground (arith, e, e'))
    after_chunk-Agrees again st s _ _ _ _ goes v (cut is w empty) (cut_at at front same) (last e) =
        absurd (ground (arith, e, at))
    after_chunk-Agrees again st s left rest _ _ goes v (cut {r = f} {c} is w empty)
          (cut_at at front same) (more {cs = cs} n e cuts) =
        let sized : n ≡ f.buffer_size = ground (arith, e, at) in
        let left' : List ℕ = drop f.buffer_size left in
        let shorter : length left' < length left =
          omega (arith, length-drop f.buffer_size left, is.least, is.inside) in
        let cuts' : Cuts rh s₀ left' cs rest =
          subst (λ m. Cuts rh s₀ (drop m left) cs rest) sized cuts in
        let first : take n left ≡ f.buffer = ap (λ m. take m left) sized ∙ sym front in
        rw (is.digest, first)
          (after_offer-Agrees again st c s f.buffer left' rest cs (length left) goes shorter v w
            empty same cuts')

    process-Agrees : (fuel : ℕ) → Agreeing fuel (process rh store fuel)
    unfolding process
    process-Agrees zero st s left rest chunks ready cuts lt = absurd (omega arith)
    process-Agrees (suc fuel) st s left rest chunks ready cuts lt =
        after_chunk-Agrees (process rh store fuel) st s left rest chunks _
          (λ st' s' left' rest' chunks' ready' cuts' lt'.
            process-Agrees fuel st' s' left' rest' chunks' ready' cuts' (omega arith))
          ready.valid
          (chunker_chunk_buffer_lem rh sha left st.chunker ready.valid.chunker_valid ready.empty)
          (chunker_chunk_buffer-CutOutcome rh rolls s₀ sha left st.chunker ready.empty ready.same)
          cuts

    pub chunk_streamer_process_buffer-Agrees :
        (st : ChunkStreamer State) (s : S) (buffer rest : List ℕ) (chunks : List (List ℕ))
        → IsStreamer store st
        → st.chunker.retained_size ≡ 0
        → rolls.setup st.chunker.rh_state2 ≡ rolls.setup s₀
        → Cuts rh s₀ buffer chunks rest
        → Agrees st rest
            (offer_all store s chunks)
            (chunk_streamer_process_buffer rh store st s buffer)
    unfolding chunk_streamer_process_buffer
    chunk_streamer_process_buffer-Agrees st s buffer rest chunks v empty same cuts =
        process-Agrees (length buffer + 1) st s buffer rest chunks
          (record { valid = v; empty = empty; same = same }) cuts (omega arith)
