-- ===== src/Chunker.antt =====
-- src/theo/chunker.c and chunker.h: cutting a buffer into chunks by a rolling hash. The hash is
-- rolling_hash2 of isa-l_crypto, a parameter.
pub mod Laws
pub mod Cuts
pub mod Follow
use Prim.Native.Nat.{bit_and}
use theo.Base.{
  ℕ, ◌+◌, ◌-◌, ◌*◌, ◌≤◌, ◌≡◌, Bool, true, false, Option, none, some, List, [], ◌++◌, length, take,
  drop, replicate, ◌==◌, ltb, leb, if◌then◌else◌, ◌>>=◌, ◌>>◌, always,
}
use theo.ChunkRef.{Sha256, ChunkRef, chunk_ref_set}

abbrev pub chunker_window_width : ℕ
chunker_window_width = 32

abbrev pub chunker_min_chunk_size : ℕ
chunker_min_chunk_size = 2048

abbrev pub chunker_max_chunk_size : ℕ
chunker_max_chunk_size = 24576

abbrev pub chunker_mask : ℕ
chunker_mask = 8191

abbrev pub chunker_trigger : ℕ
chunker_trigger = bit_and 26061973 chunker_mask

-- The functions of rolling_hash2. `run` is given the `max_len` bytes that it may read, the mask and
-- the trigger; `some offset` is FINGERPRINT_RET_HIT, `none` FINGERPRINT_RET_MAX.
pub record RollingHash (State : Type 0) : Type 0 where
  pub init : ℕ → Option State
  pub reset : State → List ℕ → State
  pub run : State → List ℕ → ℕ → ℕ → Option ℕ × State
  -- A match lies within the length that was to be read.
  pub run_le :
      (s : State) (bytes : List ℕ) (mask trigger offset : ℕ)
      → (run s bytes mask trigger).0 ≡ some offset
      → offset ≤ length bytes

-- `retained` is the whole array.
pub record Chunker (State : Type 0) : Type 0 where
  pub rh_state2 : State
  pub retained : List ℕ
  pub retained_size : ℕ

-- memcpy to the start of an array; `none` is a write past its end.
abbrev pub copy_into : List ℕ → List ℕ → Option (List ℕ)
copy_into array bytes =
    if leb (length bytes) (length array) then some (bytes ++ drop (length bytes) array) else none

-- What `chunker_chunk_buffer` returns: CHUNKER_FOUND with the chunk, or CHUNKER_NOT_FOUND.
pub data Chunked : Type 0 where
  found : ChunkRef → Chunked
  not_found : Chunked

module _ {State : Type 0} (rh : RollingHash State) where
  unfoldable pub chunker_init : Option (Chunker State)
  chunker_init = rh.init chunker_window_width >>= λ s.
      some
        (record { rh_state2 = s; retained = replicate chunker_max_chunk_size 0; retained_size = 0 })

  -- The buffer is kept for the next call.
  abbrev pub retain : Chunker State → List ℕ → Option (Chunked × Chunker State)
  retain chunker buffer = copy_into chunker.retained buffer >>= λ retained.
      some (not_found, record chunker { retained = retained; retained_size = length buffer })

  abbrev pub max_len : List ℕ → ℕ
  max_len buffer =
      if leb chunker_max_chunk_size (length buffer)
      then chunker_max_chunk_size - chunker_min_chunk_size
      else length buffer - chunker_min_chunk_size

  module _ (sha : Sha256) where
    -- `chunker_chunk_buffer` after its call of `rolling_hash2_run`.
    abbrev pub after_run :
        Chunker State → List ℕ → Option ℕ × State → Option (Chunked × Chunker State)
    after_run chunker buffer (some offset, s) = some (
      found (chunk_ref_set sha buffer (chunker_min_chunk_size + offset)),
      record chunker { rh_state2 = s },
    )
    after_run chunker buffer (none, s) =
        if max_len buffer == chunker_max_chunk_size - chunker_min_chunk_size
        then some (
          found (chunk_ref_set sha buffer chunker_max_chunk_size),
          record chunker { rh_state2 = s },
        )
        else retain (record chunker { rh_state2 = s }) buffer

    -- The window before the first byte that is hashed.
    abbrev pub window : List ℕ → List ℕ
    window buffer =
        take chunker_window_width (drop (chunker_min_chunk_size - chunker_window_width) buffer)

    -- `none` is an abort, or a copy past the end of `retained`.
    unfoldable pub chunker_chunk_buffer : Chunker State → List ℕ → Option (Chunked × Chunker State)
    chunker_chunk_buffer chunker buffer =
        always (chunker.retained_size == 0)
        >> (if ltb (length buffer) chunker_min_chunk_size
            then retain chunker buffer
            else after_run chunker buffer (
                rh.run (rh.reset chunker.rh_state2 (window buffer)) (take (max_len buffer) buffer)
                  chunker_mask chunker_trigger))

  -- The bytes that are copied to the start of the caller's buffer; their number is the result.
  unfoldable pub chunker_flush_retained : Chunker State → ℕ → Option (List ℕ × Chunker State)
  chunker_flush_retained chunker buffer_length =
      always (ltb chunker.retained_size buffer_length)
      >> some (
          if chunker.retained_size == 0
          then ([], chunker)
          else (take chunker.retained_size chunker.retained, record chunker { retained_size = 0 }))
