-- ===== src/Tests/Divide.antt =====
-- A stream in two divisions, with a hash that matches at the first byte 7.
use theo.Base.{
  ℕ, suc, ◌≤◌, ◌≡◌, refl, inl, inr, Option, none, some, List, [], ◌∷◌, ◌++◌, append_assoc, length,
  replicate, ◌==◌, if◌then◌else◌, Bool-cases, Option-cases, arith,
}
use theo.Checksum.{Checksum}
use theo.ChunkRef.{chunk_ref_set}
use theo.Chunker.{RollingHash, chunker_flush_retained, chunker_chunk_buffer}
use theo.Chunker.Cuts.{IsRolling}
use theo.ChunkStreamer.{
  ChunkStreamer, Run, done, aborted, out_of_fuel, process, chunk_streamer_process_buffer,
  chunk_streamer_flush_retained,
}
use theo.ChunkStreamer.Divide.{feed, SameEnd, feed-SameEnd}
use theo.Tests.Stream.{empty, empty-IsChunker, store, known}

abbrev later : Option ℕ → Option ℕ
later none = none
later (some n) = some (suc n)

unfoldable seek : List ℕ → Option ℕ
seek [] = none
seek (b ∷ bs) = let rest = later (seek bs) in if b == 7 then some 0 else rest

seek-le : (bs : List ℕ) (n : ℕ) → seek bs ≡ some n → n ≤ length bs
unfolding seek
seek-le [] n e = absurd (ground (arith, e))
seek-le (b ∷ bs) n e = elim (Bool-cases (b == 7)) [
  | inl here ↦ ground (arith, e, here)
  | inr there ↦ elim (Option-cases (seek bs)) [
    | inl nowhere ↦ absurd (ground (arith, e, there, nowhere))
    | inr (m, at) ↦ ground (arith, e, there, at, seek-le bs m at)
  ]
]

seek-append : (bs cs : List ℕ) (n : ℕ) → seek bs ≡ some n → seek (bs ++ cs) ≡ some n
unfolding seek
seek-append [] cs n e = absurd (ground (arith, e))
seek-append (b ∷ bs) cs n e = elim (Bool-cases (b == 7)) [
  | inl here ↦ ground (arith, e, here)
  | inr there ↦ elim (Option-cases (seek bs)) [
    | inl nowhere ↦ absurd (ground (arith, e, there, nowhere))
    | inr (m, at) ↦ ground (arith, e, there, at, seek-append bs cs m at)
  ]
]

abbrev seeking : RollingHash ℕ
seeking = record {
  init = λ width. some width;
  reset = λ s bytes. s;
  run = λ s bytes mask trigger. (seek bytes, s);
  run_le = λ s bytes mask trigger offset e. seek-le bytes offset e;
}

seeking-IsRolling : IsRolling seeking ℕ
seeking-IsRolling = record {
  setup = λ s. s;
  reset_keeps = λ s bytes. refl;
  run_keeps = λ s bytes mask trigger. refl;
  reset_same = λ s s' bytes same. same;
  run_more = λ s xs ys mask trigger offset e. seek-append xs ys offset e;
}

abbrev front : List ℕ
front = replicate 3000 1 ++ replicate 400 7

abbrev back : List ℕ
back = replicate 3000 2

abbrev streamer : ChunkStreamer ℕ
streamer = record { chunker = empty; chunk_added = 0; chunk_hit = 0 }

-- How many chunks are added to the cache, and how many bytes are retained.
unfoldable counts : Run (ChunkStreamer ℕ × List Checksum) → Option (ℕ × ℕ)
counts (done (st, s)) = some (st.chunk_added, st.chunker.retained_size)
counts aborted = none
counts out_of_fuel = none

-- Nothing is cut before the second buffer is there.
counts-two : counts (feed store seeking 24576 (front ∷ back ∷ []) streamer []) ≡ some (1, 1352)
unfolding counts feed chunk_streamer_flush_retained chunker_flush_retained
    chunk_streamer_process_buffer process chunker_chunk_buffer seek known chunk_ref_set
counts-two = refl

feed-SameEnd_example :
    SameEnd store seeking
      (feed store seeking 24576 (front ∷ back ∷ []) streamer [])
      (feed store seeking 24576 ((front ++ back) ∷ []) streamer [])
feed-SameEnd_example =
    feed-SameEnd store seeking seeking-IsRolling 24576 streamer [] (front ∷ back ∷ [])
      ((front ++ back) ∷ []) (omega arith)
      (record { chunker_valid = empty-IsChunker; added_lt = omega arith; hit_lt = omega arith })
      (record { valid = empty-IsChunker; count = refl; content = refl })
      (append_assoc front back [])
