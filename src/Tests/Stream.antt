-- ===== src/Tests/Stream.antt =====
-- The theorems on the chunker and the streamer with a hash that matches at once, a digest that
-- counts bytes, and a store that is a list of checksums.
use theo.Base.{
  ℕ, ◌%◌, ◌≡◌, ◌≤◌, ◌<◌, ◌⊎◌, inl, refl, Bool, true, false, some, List, [], ◌∷◌, ◌++◌, length,
  replicate, length-replicate, length-append, take-length_append, if◌then◌else◌, arith,
}
use theo.Checksum.{Checksum, checksum_compare}
use theo.ChunkRef.{Sha256}
use theo.Chunker.{RollingHash, Chunker, chunker_chunk_buffer, chunker_flush_retained}
use theo.Chunker.Laws.{
  IsChunker, Retains, ChunkOutcome, chunker_chunk_buffer_lem, chunker_flush_retained_lem,
}
use theo.ChunkStreamer.{ChunkStore, ChunkStreamer, chunk_streamer_process_buffer}
use theo.ChunkStreamer.Resume.{Resumed, ResumedStopped, chunk_streamer_flush_retained-process}
use theo.ChunkStreamer.Stream.{chunk_streamer_process_buffer_lem}
use theo.ChunkStreamer.Streamed.{IsStreamer, Finished}

pub matches_at_once : (offset n : ℕ) → some 0 ≡ some offset → offset ≤ n
matches_at_once offset n e = ground arith

abbrev pub rolling : RollingHash ℕ
rolling = record {
  init = λ width. some width;
  reset = λ s bytes. s;
  run = λ s bytes mask trigger. (some 0, s);
  run_le = λ s bytes mask trigger offset e. matches_at_once offset (length bytes) e;
}

abbrev pub counting : Sha256
counting = record {
  digest = λ bytes. replicate 32 (length bytes % 256);
  digest_length = λ bytes. refl;
  digest_byte = λ bytes. omega arith;
}

unfoldable pub known : List Checksum → Checksum → Bool
known [] c = false
known (k ∷ ks) c = if checksum_compare k c then true else known ks c

abbrev pub store : ChunkStore counting (List Checksum)
store = record {
  has_chunk = known;
  add_chunk = λ s c bytes. some (true, c ∷ s);
  IsValid = λ s. Unit;
  IsStuck = λ s c bytes. length s < 0;
  adds = λ s bytes ok least most new. inl (true, replicate 32 (length bytes % 256) ∷ s, refl, tt);
}

abbrev pub buffer : List ℕ
buffer = replicate 5000 1

abbrev three : List ℕ
three = 1 ∷ 2 ∷ 3 ∷ []

-- A chunker that has kept three bytes, and one that has kept none.
abbrev keeping : Chunker ℕ
keeping = record { rh_state2 = 0; retained = three ++ replicate 24573 0; retained_size = 3 }

abbrev pub empty : Chunker ℕ
empty = record { rh_state2 = 0; retained = replicate 24576 0; retained_size = 0 }

pub empty-IsChunker : IsChunker empty
empty-IsChunker = record { array = length-replicate {A = ℕ} 24576 0; small = omega arith }

keeping-Retains : Retains keeping three
keeping-Retains = record {
  valid = record {
    array =
        omega (arith, length-append three (replicate 24573 0), length-replicate {A = ℕ} 24573 0);
    small = omega arith;
  };
  count = refl;
  content = take-length_append three (replicate 24573 0);
}

chunker_chunk_buffer_example :
    ChunkOutcome counting buffer (chunker_chunk_buffer rolling counting empty buffer)
chunker_chunk_buffer_example =
    chunker_chunk_buffer_lem rolling counting buffer empty empty-IsChunker refl

chunker_flush_retained_example :
    (c' : Chunker ℕ) × (chunker_flush_retained rolling keeping 100 ≡ some (three, c'))
    × Retains c' []
    × (c'.rh_state2 ≡ 0)
chunker_flush_retained_example =
    chunker_flush_retained_lem rolling keeping three 100 keeping-Retains (omega arith)

abbrev streamer : ChunkStreamer ℕ
streamer = record { chunker = empty; chunk_added = 0; chunk_hit = 0 }

streamer-IsStreamer : IsStreamer store streamer
streamer-IsStreamer = record {
  chunker_valid = empty-IsChunker;
  added_lt = omega arith;
  hit_lt = omega arith;
}

chunk_streamer_process_buffer_example :
    Finished store streamer [] buffer
      (chunk_streamer_process_buffer rolling store streamer [] buffer)
chunk_streamer_process_buffer_example =
    chunk_streamer_process_buffer_lem store rolling streamer [] buffer streamer-IsStreamer refl tt

abbrev resuming : ChunkStreamer ℕ
resuming = record { chunker = keeping; chunk_added = 4; chunk_hit = 2 }

resuming-IsStreamer : IsStreamer store resuming
resuming-IsStreamer = record {
  chunker_valid = keeping-Retains.valid;
  added_lt = omega arith;
  hit_lt = omega arith;
}

chunk_streamer_flush_retained_example :
    Resumed store rolling resuming [] three buffer 100
    ⊎ ResumedStopped store rolling resuming [] three buffer 100
chunk_streamer_flush_retained_example =
    chunk_streamer_flush_retained-process store rolling resuming [] three buffer 100
      resuming-IsStreamer keeping-Retains tt (omega arith)
