-- ===== src/ChunkStreamer/Streamed.antt =====
-- How a run of `chunk_streamer_process_buffer` of src/theo/chunk_streamer.c over a buffer can end.
use theo.Base.{
  ℕ, suc, ◌+◌, ◌≤◌, ◌<◌, ◌%◌, ◌^◌, ◌≡◌, Bool, true, false, some, List, [], ◌∷◌, ◌++◌, length,
}
use theo.ChunkRef.{Sha256}
use theo.Chunker.Laws.{IsChunker, Retains}
use theo.ChunkStreamer.{ChunkStore, ChunkStreamer, Run, done, aborted}

-- The chunks laid end to end.
abbrev pub join : List (List ℕ) → List ℕ
join [] = []
join (b ∷ bs) = b ++ join bs

-- Every chunk has from 2 to 24 KiB.
abbrev pub Bounded : List (List ℕ) → Type 0
Bounded [] = Unit
Bounded (b ∷ bs) = (2048 ≤ length b) × (length b ≤ 24576) × Bounded bs

module _ {S : Type 0} {sha : Sha256} (store : ChunkStore sha S) where
  -- The chunks are offered to the store in order: one that it has counts as a hit, any other is added.
  pub data Offers : S → List (List ℕ) → ℕ → ℕ → S → Type 0 where
    none_left : {s : S} → Offers s [] 0 0 s
    hit :
        {s s' : S} {b : List ℕ} {bs : List (List ℕ)} {hits added : ℕ}
        → store.has_chunk s (sha.digest b) ≡ true
        → Offers s bs hits added s'
        → Offers s (b ∷ bs) (suc hits) added s'
    miss :
        {s s₁ s' : S} {b : List ℕ} {bs : List (List ℕ)} {hits added : ℕ} {r : Bool}
        → store.has_chunk s (sha.digest b) ≡ false
        → store.add_chunk s (sha.digest b) b ≡ some (r, s₁)
        → Offers s₁ bs hits added s'
        → Offers s (b ∷ bs) hits (suc added) s'

  -- A run that aborts: these chunks were offered before the chunk that is not taken, and more follows.
  pub record Stopped (s : S) (buffer : List ℕ) : Type 0 where
    pub chunks : List (List ℕ)
    pub chunk : List ℕ
    pub rest : List ℕ
    pub hits : ℕ
    pub added : ℕ
    pub at : S
    pub whole : join chunks ++ (chunk ++ rest) ≡ buffer
    pub bounded : Bounded chunks
    pub offered : Offers s chunks hits added at
    pub stuck : store.IsStuck at (sha.digest chunk) chunk
    pub store_valid : store.IsValid at

  module _ {State : Type 0} where
    -- The chunker's array is right, the counters are in range.
    pub record IsStreamer (st : ChunkStreamer State) : Type 0 where
      pub chunker_valid : IsChunker st.chunker
      pub added_lt : st.chunk_added < 2 ^ 32
      pub hit_lt : st.chunk_hit < 2 ^ 32

    -- What a run over `buffer` from `st` and `s` has done: the buffer is the chunks that were offered
    -- and then the bytes that the chunker keeps; the counters have counted the chunks.
    pub record Streamed (st : ChunkStreamer State) (s : S) (buffer : List ℕ)
        (st' : ChunkStreamer State) (s' : S) : Type 0 where
      pub chunks : List (List ℕ)
      pub rest : List ℕ
      pub hits : ℕ
      pub added : ℕ
      pub whole : join chunks ++ rest ≡ buffer
      pub bounded : Bounded chunks
      pub offered : Offers s chunks hits added s'
      pub kept_rest : Retains st'.chunker rest
      pub hits_counted : st'.chunk_hit ≡ (st.chunk_hit + hits) % 2 ^ 32
      pub added_counted : st'.chunk_added ≡ (st.chunk_added + added) % 2 ^ 32
      pub store_valid : store.IsValid s'

    pub data Finished (st : ChunkStreamer State) (s : S) (buffer : List ℕ)
        : Run (ChunkStreamer State × S) → Type 0 where
      finished :
          {st' : ChunkStreamer State} {s' : S}
          → Streamed st s buffer st' s'
          → Finished st s buffer (done (st', s'))
      stopped : Stopped s buffer → Finished st s buffer aborted
