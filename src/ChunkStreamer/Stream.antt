-- ===== src/ChunkStreamer/Stream.antt =====
-- A run of `chunk_streamer_process_buffer` of src/theo/chunk_streamer.c over a buffer.
use theo.Base.{
  ℕ, zero, suc, ◌+◌, ◌≤◌, ◌<◌, ◌%◌, ◌^◌, ◌≡◌, refl, ap, ◌∙◌, inl, inr, Bool, true, false, Option,
  some, List, [], ◌∷◌, ◌++◌, append_assoc, length, drop, length-drop, length-take, take-append-drop,
  Bool-cases, arith,
}
use theo.ChunkRef.{Sha256}
use theo.Chunker.{RollingHash, Chunker, Chunked}
use theo.Chunker.Laws.{ChunkOutcome, cut, kept, chunker_chunk_buffer_lem}
use theo.ChunkStreamer.{
  ChunkStore, ChunkStreamer, Run, after_chunk, process, chunk_streamer_process_buffer,
}
use theo.ChunkStreamer.Streamed.{
  join, none_left, hit, miss, IsStreamer, Finished, finished, stopped,
}

module _ {S : Type 0} {sha : Sha256} (store : ChunkStore sha S) where
  module _ {State : Type 0} where
    -- A first chunk in front of a run, as a hit or as an addition.
    module _ {st : ChunkStreamer State} {s : S} {b left buffer : List ℕ}
        (front : b ++ left ≡ buffer) (least : 2048 ≤ length b) (most : length b ≤ 24576) where
      cons_hit :
          {r : Run (ChunkStreamer State × S)} (c : Chunker State)
          → store.has_chunk s (sha.digest b) ≡ true
          → Finished store
              (record st { chunker = c; chunk_hit = (st.chunk_hit + 1) % 2 ^ 32 })
              s
              left
              r
          → Finished store st s buffer r
      cons_hit c has (finished {st'} {s'} h) = finished (record {
        chunks = b ∷ h.chunks;
        rest = h.rest;
        hits = suc h.hits;
        added = h.added;
        whole = append_assoc b (join h.chunks) h.rest ∙ ap (λ t. b ++ t) h.whole ∙ front;
        bounded = (least, most, h.bounded);
        offered = hit has h.offered;
        kept_rest = h.kept_rest;
        hits_counted = h.hits_counted ∙ omega arith;
        added_counted = h.added_counted;
        store_valid = h.store_valid;
      })
      cons_hit c has (stopped h) = stopped (record {
        chunks = b ∷ h.chunks;
        chunk = h.chunk;
        rest = h.rest;
        hits = suc h.hits;
        added = h.added;
        at = h.at;
        whole =
            append_assoc b (join h.chunks) (h.chunk ++ h.rest) ∙ ap (λ t. b ++ t) h.whole ∙ front;
        bounded = (least, most, h.bounded);
        offered = hit has h.offered;
        stuck = h.stuck;
        store_valid = h.store_valid;
      })

      cons_miss :
          {r : Run (ChunkStreamer State × S)} {s₁ : S} (c : Chunker State) (new : Bool)
          → store.has_chunk s (sha.digest b) ≡ false
          → store.add_chunk s (sha.digest b) b ≡ some (new, s₁)
          → Finished store
              (record st { chunker = c; chunk_added = (st.chunk_added + 1) % 2 ^ 32 })
              s₁
              left
              r
          → Finished store st s buffer r
      cons_miss c new has adds (finished {st'} {s'} h) = finished (record {
        chunks = b ∷ h.chunks;
        rest = h.rest;
        hits = h.hits;
        added = suc h.added;
        whole = append_assoc b (join h.chunks) h.rest ∙ ap (λ t. b ++ t) h.whole ∙ front;
        bounded = (least, most, h.bounded);
        offered = miss has adds h.offered;
        kept_rest = h.kept_rest;
        hits_counted = h.hits_counted;
        added_counted = h.added_counted ∙ omega arith;
        store_valid = h.store_valid;
      })
      cons_miss c new has adds (stopped h) = stopped (record {
        chunks = b ∷ h.chunks;
        chunk = h.chunk;
        rest = h.rest;
        hits = h.hits;
        added = suc h.added;
        at = h.at;
        whole =
            append_assoc b (join h.chunks) (h.chunk ++ h.rest) ∙ ap (λ t. b ++ t) h.whole ∙ front;
        bounded = (least, most, h.bounded);
        offered = miss has adds h.offered;
        stuck = h.stuck;
        store_valid = h.store_valid;
      })

    module _ (rh : RollingHash State) where
      -- What is assumed of the later rounds.
      abbrev Goes : ℕ → (ChunkStreamer State → S → List ℕ → Run (ChunkStreamer State × S)) → Type 0
      Goes n again =
          (st : ChunkStreamer State) (s : S) (left : List ℕ)
          → IsStreamer store st
          → st.chunker.retained_size ≡ 0
          → store.IsValid s
          → length left < n
          → Finished store st s left (again st s left)

      after_chunk_lem :
          (again : ChunkStreamer State → S → List ℕ → Run (ChunkStreamer State × S))
          (st : ChunkStreamer State) (s : S) (left : List ℕ) (r : Option (Chunked × Chunker State))
          → Goes (length left) again
          → IsStreamer store st
          → store.IsValid s
          → ChunkOutcome sha left r
          → Finished store st s left (after_chunk rh store again st s left r)
      after_chunk_lem again st s left r goes v ok (kept k) = finished (record {
        chunks = [];
        rest = left;
        hits = 0;
        added = 0;
        whole = refl;
        bounded = tt;
        offered = none_left;
        kept_rest = k;
        hits_counted = omega (arith, v.hit_lt);
        added_counted = omega (arith, v.added_lt);
        store_valid = ok;
      })
      after_chunk_lem again st s left r goes v ok (cut {r = f} {c} is w empty) =
          let b : List ℕ = f.buffer in
          let rest : List ℕ = drop f.buffer_size left in
          let size : length b ≡ f.buffer_size =
            ap length is.front ∙ omega (arith, length-take f.buffer_size left, is.inside) in
          let front : b ++ rest ≡ left =
            ap (λ (t : List ℕ). t ++ rest) is.front ∙ take-append-drop f.buffer_size left in
          let least : 2048 ≤ length b = omega (arith, is.least) in
          let most : length b ≤ 24576 = omega (arith, is.most) in
          let shorter : length rest < length left =
            omega (arith, length-drop f.buffer_size left, is.least, is.inside) in
          rw (is.digest) (elim (Bool-cases (store.has_chunk s (sha.digest b))) [
            | inl has ↦ rw has (
                let st' : ChunkStreamer State = record st {
                  chunker = c;
                  chunk_hit = (st.chunk_hit + 1) % 2 ^ 32;
                } in
                let v' : IsStreamer store st' = record {
                  chunker_valid = w;
                  added_lt = v.added_lt;
                  hit_lt = omega arith;
                } in
                cons_hit front least most c has (goes st' s rest v' empty ok shorter))
            | inr has ↦ elim (store.adds s b ok least most has) [
              | inr (aborts, stuck) ↦
                  rw (has, aborts)
                    (stopped (record {
                      chunks = [];
                      chunk = b;
                      rest = rest;
                      hits = 0;
                      added = 0;
                      at = s;
                      whole = front;
                      bounded = tt;
                      offered = none_left;
                      stuck = stuck;
                      store_valid = ok;
                    }))
              | inl new ↦
                  let st' : ChunkStreamer State = record st {
                    chunker = c;
                    chunk_added = (st.chunk_added + 1) % 2 ^ 32;
                  } in
                  let v' : IsStreamer store st' = record {
                    chunker_valid = w;
                    added_lt = omega arith;
                    hit_lt = v.hit_lt;
                  } in
                  rw (has, new.2)
                    (cons_miss front least most c new.0 has new.2
                      (goes st' new.1 rest v' empty new.3 shorter))
            ]
          ])

      process_lem : (fuel : ℕ) → Goes fuel (process rh store fuel)
      unfolding process
      process_lem zero st s left v empty ok lt = absurd (omega arith)
      process_lem (suc fuel) st s left v empty ok lt =
          after_chunk_lem (process rh store fuel) st s left _
            (λ st' s' left' v' e' ok' lt'. process_lem fuel st' s' left' v' e' ok' (omega arith)) v
            ok (chunker_chunk_buffer_lem rh sha left st.chunker v.chunker_valid empty)

      -- With nothing retained before it and a valid cache, a run ends: the buffer is the chunks that were
      -- offered to the cache in order and then the bytes that the chunker keeps, every chunk has from 2 to 24
      -- KiB, and the two counters have counted the offers. Or it aborts: the buffer is chunks that were offered
      -- and then one for which the cache is stuck, with what follows it.
      pub chunk_streamer_process_buffer_lem :
          (st : ChunkStreamer State) (s : S) (buffer : List ℕ)
          → IsStreamer store st
          → st.chunker.retained_size ≡ 0
          → store.IsValid s
          → Finished store st s buffer (chunk_streamer_process_buffer rh store st s buffer)
      unfolding chunk_streamer_process_buffer
      chunk_streamer_process_buffer_lem st s buffer v empty ok =
          process_lem (length buffer + 1) st s buffer v empty ok (omega arith)
