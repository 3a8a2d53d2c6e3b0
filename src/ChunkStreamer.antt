-- ===== src/ChunkStreamer.antt =====
-- src/theo/chunk_streamer.c and chunk_streamer.h: a buffer cut into chunks that go to the cache.
pub mod Streamed
pub mod Stream
pub mod Resume
pub mod Offers
pub mod Follow
pub mod Divide
use theo.Base.{
  ℕ, zero, suc, ◌+◌, ◌*◌, ◌≤◌, ◌%◌, ◌^◌, ◌≡◌, ◌⊎◌, Bool, true, false, Option, none, some, List,
  length, drop, if◌then◌else◌, ◌>>=◌,
}
use theo.Checksum.{Checksum}
use theo.ChunkRef.{Sha256, ChunkRef}
use theo.Chunker.{
  RollingHash, Chunker, Chunked, found, not_found, chunker_init, chunker_chunk_buffer,
  chunker_flush_retained,
}

-- The two functions of the cache manager that the streamer calls, over the manager's state. `none`
-- is an abort. On a valid state a chunk of 2 to 24 KiB under its checksum is taken, or the state is such
-- that the call aborts.
pub record ChunkStore (sha : Sha256) (S : Type 0) : Type 1 where
  pub has_chunk : S → Checksum → Bool
  pub add_chunk : S → Checksum → List ℕ → Option (Bool × S)
  pub IsValid : S → Type 0
  pub IsStuck : S → Checksum → List ℕ → Type 0
  pub adds :
      (s : S) (bytes : List ℕ)
      → IsValid s
      → 2048 ≤ length bytes
      → length bytes ≤ 24576
      → has_chunk s (sha.digest bytes) ≡ false
      → ((added : Bool) × (s' : S) × (add_chunk s (sha.digest bytes) bytes ≡ some (added, s'))
          × IsValid s')
        ⊎ ((add_chunk s (sha.digest bytes) bytes ≡ none) × IsStuck s (sha.digest bytes) bytes)

-- `chunk_added` and `chunk_hit` are `uint32_t`. The cache manager is passed beside the structure.
pub record ChunkStreamer (State : Type 0) : Type 0 where
  pub chunker : Chunker State
  pub chunk_added : ℕ
  pub chunk_hit : ℕ

-- A run of the loop ends, aborts, or is cut short by its fuel.
pub data Run (A : Type 0) : Type 0 where
  done : A → Run A
  aborted : Run A
  out_of_fuel : Run A

module _ {State : Type 0} {S : Type 0} {sha : Sha256} (rh : RollingHash State)
    (store : ChunkStore sha S) where
  open store use {has_chunk, add_chunk}

  unfoldable pub chunk_streamer_init : Option (ChunkStreamer State)
  chunk_streamer_init =
      chunker_init rh >>= λ c. some (record { chunker = c; chunk_added = 0; chunk_hit = 0 })

  -- The streamer and the cache after a chunk was offered to the cache.
  abbrev pub offer : ChunkStreamer State → S → Checksum → List ℕ → Option (ChunkStreamer State × S)
  offer st s c bytes =
      if has_chunk s c
      then some (record st { chunk_hit = (st.chunk_hit + 1) % 2 ^ 32 }, s)
      else (add_chunk s c bytes >>= λ (_, s').
          some (record st { chunk_added = (st.chunk_added + 1) % 2 ^ 32 }, s'))

  -- One round of the loop after its calls of the chunker and of the cache; `again` is the next one.
  abbrev pub after_offer :
      (ChunkStreamer State → S → Run (ChunkStreamer State × S))
      → Option (ChunkStreamer State × S)
      → Run (ChunkStreamer State × S)
  after_offer again none = aborted
  after_offer again (some (st, s)) = again st s

  abbrev pub after_chunk :
      (ChunkStreamer State → S → List ℕ → Run (ChunkStreamer State × S))
      → ChunkStreamer State
      → S
      → List ℕ
      → Option (Chunked × Chunker State)
      → Run (ChunkStreamer State × S)
  after_chunk again st s left none = aborted
  after_chunk again st s left (some (not_found, c)) = done (record st { chunker = c }, s)
  after_chunk again st s left (some (found r, c)) =
      after_offer (λ st' s'. again st' s' (drop r.buffer_size left))
        (offer (record st { chunker = c }) s r.checksum r.buffer)

  -- The loop of `chunk_streamer_process_buffer` over the bytes that are left.
  unfoldable pub process : ℕ → ChunkStreamer State → S → List ℕ → Run (ChunkStreamer State × S)
  process zero st s left = out_of_fuel
  process (suc fuel) st s left =
      after_chunk (process fuel) st s left (chunker_chunk_buffer rh sha st.chunker left)

  unfoldable pub chunk_streamer_process_buffer :
      ChunkStreamer State → S → List ℕ → Run (ChunkStreamer State × S)
  chunk_streamer_process_buffer st s buffer = process (length buffer + 1) st s buffer

  unfoldable pub chunk_streamer_flush_retained :
      ChunkStreamer State → ℕ → Option (List ℕ × ChunkStreamer State)
  chunk_streamer_flush_retained st buffer_length =
      chunker_flush_retained rh st.chunker buffer_length >>= λ (bytes, c).
      some (bytes, record st { chunker = c })
