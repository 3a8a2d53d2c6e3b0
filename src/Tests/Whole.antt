-- ===== src/Tests/Whole.antt =====
-- A streamer over a cache manager that has a new cache of one cell.
use theo.Base.{ℕ, refl, inl, false, none, [], arith}
use mathlib.Core.List.{not-mem-nil}
use theo.ChunkStreamer.{ChunkStreamer, chunk_streamer_process_buffer}
use theo.ChunkStreamer.Streamed.{IsStreamer}
use theo.Cache.History.{opened}
use theo.CacheManager.{CacheManager}
use theo.CacheManager.Store.{manager_store, IsFilled, Ends, chunk_streamer_process_buffer-Ends}
use theo.Tests.Ring.{cache, file, file-inits, file-insane}
use theo.Tests.Stream.{rolling, counting, empty, empty-IsChunker, buffer}

abbrev manager : CacheManager
manager = record { cache = cache; ptr = none; memory_size = 0; fd = none; dax = false }

manager-IsFilled : IsFilled counting manager
manager-IsFilled = record {
  past = [];
  filling = opened file 2097152 (λ n. file-insane) (omega arith) (inl (ground arith)) file-inits;
  own = λ i m. absurd (not-mem-nil m);
}

abbrev streamer : ChunkStreamer ℕ
streamer = record { chunker = empty; chunk_added = 0; chunk_hit = 0 }

streamer-IsStreamer : IsStreamer (manager_store counting) streamer
streamer-IsStreamer = record {
  chunker_valid = empty-IsChunker;
  added_lt = omega arith;
  hit_lt = omega arith;
}

chunk_streamer_process_buffer-Ends_example :
    Ends counting rolling streamer manager buffer
      (chunk_streamer_process_buffer rolling (manager_store counting) streamer manager buffer)
chunk_streamer_process_buffer-Ends_example =
    chunk_streamer_process_buffer-Ends counting rolling streamer manager buffer streamer-IsStreamer
      refl manager-IsFilled
