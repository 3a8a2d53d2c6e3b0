-- ===== src/Chunker/Laws.antt =====
-- What `chunker_chunk_buffer` finds, and what it keeps.
use theo.Base.{
  ℕ, ◌+◌, ◌-◌, ◌≤◌, ◌<◌, ◌≡◌, refl, ap, ◌∙◌, inl, inr, true, Option, none, some, List, [], ◌∷◌,
  length, take, drop, length-append, length-drop, length-take, take-length_append, ◌==◌, ltb, leb,
  Bool-cases, arith,
}
use theo.ChunkRef.{Sha256, ChunkRef, chunk_ref_set}
use theo.Chunker.{
  RollingHash, Chunker, Chunked, found, not_found, retain, max_len, after_run, chunker_chunk_buffer,
  chunker_flush_retained,
}

-- A chunk is the front of the buffer, from 2 to 24 KiB of it, with its checksum.
pub record IsCut (sha : Sha256) (buffer : List ℕ) (r : ChunkRef) : Type 0 where
  pub front : r.buffer ≡ take r.buffer_size buffer
  pub digest : r.checksum ≡ sha.digest r.buffer
  pub least : 2048 ≤ r.buffer_size
  pub most : r.buffer_size ≤ 24576
  pub inside : r.buffer_size ≤ length buffer

cut_lem :
    (sha : Sha256) (buffer : List ℕ) (n : ℕ)
    → 2048 ≤ n
    → n ≤ 24576
    → n ≤ length buffer
    → IsCut sha buffer (chunk_ref_set sha buffer n)
unfolding chunk_ref_set
cut_lem sha buffer n least most inside = record {
  front = refl;
  digest = refl;
  least = least;
  most = most;
  inside = inside;
}

module _ {State : Type 0} where
  -- The array has its size, and what is retained lies in it.
  pub record IsChunker (c : Chunker State) : Type 0 where
    pub array : length c.retained ≡ 24576
    pub small : c.retained_size < 24576

  -- The chunker has kept just these bytes.
  pub record Retains (c : Chunker State) (bytes : List ℕ) : Type 0 where
    pub valid : IsChunker c
    pub count : c.retained_size ≡ length bytes
    pub content : take (length bytes) c.retained ≡ bytes

  module _ (sha : Sha256) (buffer : List ℕ) where
    -- The two outcomes of a call that returns.
    pub data ChunkOutcome : Option (Chunked × Chunker State) → Type 0 where
      cut :
          {r : ChunkRef} {c : Chunker State}
          → IsCut sha buffer r
          → IsChunker c
          → c.retained_size ≡ 0
          → ChunkOutcome (some (found r, c))
      kept : {c : Chunker State} → Retains c buffer → ChunkOutcome (some (not_found, c))

  retain_lem :
      (rh : RollingHash State) (sha : Sha256) (c : Chunker State) (buffer : List ℕ)
      → IsChunker c
      → length buffer < 24576
      → ChunkOutcome sha buffer (retain rh c buffer)
  retain_lem rh sha c buffer v small =
      let fits : leb (length buffer) (length c.retained) ≡ true = ground (arith, v.array) in
      rw fits (
        kept (record {
          valid = record {
            array = omega (
              arith,
              length-append buffer (drop (length buffer) c.retained),
              length-drop (length buffer) c.retained,
              v.array,
            );
            small = small;
          };
          count = refl;
          content = take-length_append buffer (drop (length buffer) c.retained);
        }))

  module _ (rh : RollingHash State) (sha : Sha256) (buffer : List ℕ) (c : Chunker State)
      (v : IsChunker c) (empty : c.retained_size ≡ 0) where
    after_run_lem :
        (r : Option ℕ × State)
        → 2048 ≤ length buffer
        → ((offset : ℕ) → r.0 ≡ some offset → offset ≤ max_len rh buffer)
        → ChunkOutcome sha buffer (after_run rh sha c buffer r)
    after_run_lem (some offset, s) long bound =
        let small = bound offset refl in
        cut (cut_lem sha buffer (2048 + offset) (omega arith) (ground arith) (ground arith))
          (record { array = v.array; small = v.small }) empty
    after_run_lem (none, s) long bound = elim (Bool-cases (max_len rh buffer == 24576 - 2048)) [
      | inl full ↦ rw full (
          cut (cut_lem sha buffer 24576 (omega arith) (omega arith) (ground arith))
            (record { array = v.array; small = v.small }) empty)
      | inr short ↦ rw short (
          retain_lem rh sha (record c { rh_state2 = s }) buffer
            (record { array = v.array; small = v.small }) (ground arith))
    ]

    none_kept : (c.retained_size == 0) ≡ true
    none_kept = ground arith

    -- With nothing retained, `chunker_chunk_buffer` neither aborts nor writes past `retained`: it cuts a
    -- chunk of 2 to 24 KiB off the front of the buffer and retains nothing, or it retains all of the buffer.
    pub chunker_chunk_buffer_lem : ChunkOutcome sha buffer (chunker_chunk_buffer rh sha c buffer)
    unfolding chunker_chunk_buffer
    chunker_chunk_buffer_lem = rw none_kept (elim (Bool-cases (ltb (length buffer) 2048)) [
      | inl short ↦ rw short (retain_lem rh sha c buffer v (ground arith))
      | inr long ↦ rw long (
          after_run_lem _ (ground arith) (λ offset e.
            let le = rh.run_le _ (take (max_len rh buffer) buffer) _ _ offset e in
            omega (arith, length-take (max_len rh buffer) buffer)))
    ])

  -- Into a buffer longer than what is retained, `chunker_flush_retained` gives back just the bytes that
  -- were retained, and retains none after.
  pub chunker_flush_retained_lem :
      (rh : RollingHash State) (c : Chunker State) (bytes : List ℕ) (n : ℕ)
      → Retains c bytes
      → length bytes < n
      → (c' : Chunker State) × (chunker_flush_retained rh c n ≡ some (bytes, c'))
        × Retains c' []
        × (c'.rh_state2 ≡ c.rh_state2)
  unfolding chunker_flush_retained
  chunker_flush_retained_lem rh c bytes n k room =
      let open' : ltb c.retained_size n ≡ true = ground (arith, k.count) in
      elim (Bool-cases (c.retained_size == 0)) [
        | inl zero' ↦ (
          c,
          rw (open', zero') (ground (arith, no_bytes bytes, k.count)),
          record { valid = k.valid; count = ground arith; content = refl },
          refl,
        )
        | inr some' ↦ (
          record c { retained_size = 0 },
          rw (open', some')
              (ap (λ (bs : List ℕ). some (bs, record c { retained_size = 0 }))
                (ap (λ i. take i c.retained) k.count ∙ k.content)),
          record {
            valid = record { array = k.valid.array; small = omega arith };
            count = refl;
            content = refl;
          },
          refl,
        )
      ]
    where
      no_bytes : (bs : List ℕ) → length bs ≡ 0 → bs ≡ []
      no_bytes [] h = refl
      no_bytes (b ∷ bs) h = absurd (omega arith)
