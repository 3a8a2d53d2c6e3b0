-- ===== src/ChunkStreamer/Resume.antt =====
-- A stream that comes in several buffers: what one call retained is flushed to the front of the next
-- buffer.
use theo.Base.{ℕ, ◌<◌, ◌≡◌, ◌⊎◌, inl, inr, refl, some, List, ◌++◌, length, arith}
use theo.ChunkRef.{Sha256}
use theo.Chunker.{RollingHash}
use theo.Chunker.Laws.{Retains, chunker_flush_retained_lem}
use theo.ChunkStreamer.{
  ChunkStore, ChunkStreamer, Run, done, aborted, chunk_streamer_process_buffer,
  chunk_streamer_flush_retained,
}
use theo.ChunkStreamer.Stream.{chunk_streamer_process_buffer_lem}
use theo.ChunkStreamer.Streamed.{IsStreamer, Streamed, Stopped, Finished, finished, stopped}

module _ {S State : Type 0} {sha : Sha256} (store : ChunkStore sha S) (rh : RollingHash State) where
  -- The bytes `kept` are flushed and go in front of `buffer`, and the run over both is `Streamed`.
  pub record Resumed (st : ChunkStreamer State) (s : S) (kept buffer : List ℕ) (n : ℕ)
      : Type 0 where
    pub flushed : ChunkStreamer State
    pub streamer : ChunkStreamer State
    pub cache : S
    pub flushes : chunk_streamer_flush_retained rh store st n ≡ some (kept, flushed)
    pub runs :
        chunk_streamer_process_buffer rh store flushed s (kept ++ buffer) ≡ done (streamer, cache)
    pub streamed : Streamed store st s (kept ++ buffer) streamer cache
    pub valid : IsStreamer store streamer

  -- The bytes are flushed, and the run over both aborts.
  pub record ResumedStopped (st : ChunkStreamer State) (s : S) (kept buffer : List ℕ) (n : ℕ)
      : Type 0 where
    pub flushed : ChunkStreamer State
    pub flushes : chunk_streamer_flush_retained rh store st n ≡ some (kept, flushed)
    pub runs : chunk_streamer_process_buffer rh store flushed s (kept ++ buffer) ≡ aborted
    pub stop : Stopped store s (kept ++ buffer)

  -- A run of a streamer whose counters are those of another one counts for that one too.
  Finished-Resumed :
      (st st₁ : ChunkStreamer State) (s : S) (kept buffer : List ℕ) (n : ℕ)
      (r : Run (ChunkStreamer State × S))
      → chunk_streamer_flush_retained rh store st n ≡ some (kept, st₁)
      → st₁.chunk_hit ≡ st.chunk_hit
      → st₁.chunk_added ≡ st.chunk_added
      → chunk_streamer_process_buffer rh store st₁ s (kept ++ buffer) ≡ r
      → Finished store st₁ s (kept ++ buffer) r
      → Resumed st s kept buffer n ⊎ ResumedStopped st s kept buffer n
  Finished-Resumed st st₁ s kept buffer n r flushes hits added runs (finished {st'} {s'} h) =
      inl (record {
        flushed = st₁;
        streamer = st';
        cache = s';
        flushes = flushes;
        runs = runs;
        streamed = record {
          chunks = h.chunks;
          rest = h.rest;
          hits = h.hits;
          added = h.added;
          whole = h.whole;
          bounded = h.bounded;
          offered = h.offered;
          kept_rest = h.kept_rest;
          hits_counted = rw (← hits) h.hits_counted;
          added_counted = rw (← added) h.added_counted;
          store_valid = h.store_valid;
        };
        valid = record {
          chunker_valid = h.kept_rest.valid;
          added_lt = omega (arith, h.added_counted);
          hit_lt = omega (arith, h.hits_counted);
        };
      })
  Finished-Resumed st st₁ s kept buffer n r flushes hits added runs (stopped h) =
      inr (record { flushed = st₁; flushes = flushes; runs = runs; stop = h })

  -- From a streamer that retains the bytes `kept`, with a valid cache: flushing into a buffer of `n`
  -- bytes, more than are kept, gives back those bytes, and the run over them and the next buffer ends; the
  -- bytes kept and the buffer are the chunks that were offered and then the bytes that are kept now, and
  -- the counters have counted the chunks. Or the run aborts, at a chunk for which the cache is stuck.
  pub chunk_streamer_flush_retained-process :
      (st : ChunkStreamer State) (s : S) (kept buffer : List ℕ) (n : ℕ)
      → IsStreamer store st
      → Retains st.chunker kept
      → store.IsValid s
      → length kept < n
      → Resumed st s kept buffer n ⊎ ResumedStopped st s kept buffer n
  unfolding chunk_streamer_flush_retained
  chunk_streamer_flush_retained-process st s kept buffer n v k ok room =
      let (c, flushes, empty, state) = chunker_flush_retained_lem rh st.chunker kept n k room in
      let st₁ : ChunkStreamer State = record st { chunker = c } in
      let valid : IsStreamer store st₁ = record {
        chunker_valid = empty.valid;
        added_lt = v.added_lt;
        hit_lt = v.hit_lt;
      } in
      Finished-Resumed st st₁ s kept buffer n _ (rw flushes refl) refl refl refl
        (chunk_streamer_process_buffer_lem store rh st₁ s (kept ++ buffer) valid empty.count ok)
