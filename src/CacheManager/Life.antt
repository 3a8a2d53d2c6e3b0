-- ===== src/CacheManager/Life.antt =====
-- The life of a cache file: the calls of src/theo/cache_manager.c and src/theo/chunk_streamer.c on it, from
-- the first opening on.
use theo.Base.{
  ℕ, ◌*◌, ◌/◌, ◌≤◌, ◌<◌, ◌≡◌, ◌⊎◌, refl, sym, ap, ◌∙◌, inl, inr, true, false, none, some, List, [],
  leb, Bool-cases, arith,
}
use mathlib.Core.List.{not-mem-nil}
use mathlib.Core.Path.{subst}
use theo.Checksum.{Checksum}
use theo.CellDir.{block_no}
use theo.CellHeader.{cell_header_sane}
use theo.Chunk.{Chunk}
use theo.ChunkRef.{Sha256}
use theo.Chunker.{RollingHash}
use theo.ChunkStreamer.{ChunkStreamer, Run, done, chunk_streamer_process_buffer}
use theo.ChunkStreamer.Stream.{chunk_streamer_process_buffer_lem}
use theo.ChunkStreamer.Streamed.{IsStreamer, Finished, finished, stopped}
use theo.Cell.Chunks.{filled}
use theo.Cache.{Mapping, Cache, cache_cell_size, cache_init}
use theo.Cache.Remap.{IsFileOf, HasCount}
use theo.Cache.History.{opened, reopened}
use theo.Msys.{Msys}
use theo.CacheManager.{CacheManager, ok, cache_manager_open_cache, cache_manager_get_chunk}
use theo.CacheManager.Files.{IsClosed, IsOpen, cache_manager_open_cache_lem}
use theo.CacheManager.Store.{IsFilled, manager_store, IsFilled-IsSound}

-- `cache_init` aborts on a file of less than two areas.
large_enough :
    (file : Mapping) (size : ℕ) (cache : Cache)
    → cache_init file size ≡ some cache
    → 2 * cache_cell_size ≤ size
unfolding cache_init
large_enough file size cache inits = elim (Bool-cases (leb 2 (size / cache_cell_size))) [
  | inl two ↦ ground arith
  | inr few ↦
      let stops : cache_init file size ≡ none = rw few refl in absurd (ground (arith, stops, inits))
]

module _ {W State : Type 0} (sys : Msys W Mapping) (sha : Sha256) (rh : RollingHash State) where
  -- A manager that a call of `cache_manager_open_cache` opened on this file.
  pub record OpenedOn (file : Mapping) (manager' : CacheManager) : Type 0 where
    pub manager : CacheManager
    pub size : ℕ
    pub before : W
    pub after : W
    pub closed : IsClosed sys manager
    pub opens : cache_manager_open_cache sys manager size before ≡ some (ok, manager', after)
    pub maps : manager'.ptr ≡ some file
    pub counts : HasCount file manager'.memory_size

  -- The managers of one cache file. It is opened first where it has no sane cell. Later it takes in
  -- buffers through a streamer. At any time it may be opened again, whether it was released or its program
  -- crashed, and it then has what the last manager left, but for the cells that the crash found in the midst of a call.
  pub data Life : CacheManager → Type 0 where
    created :
        {manager : CacheManager} (file : Mapping)
        → OpenedOn file manager
        → ((n : ℕ) → cell_header_sane (file.cell_headers n) ≡ false)
        → Life manager
    streamed :
        {manager manager' : CacheManager} (st st' : ChunkStreamer State) (buffer : List ℕ)
        → Life manager
        → IsStreamer (manager_store sha) st
        → st.chunker.retained_size ≡ 0
        → chunk_streamer_process_buffer rh (manager_store sha) st manager buffer
          ≡ done (st', manager')
        → Life manager'
    resumed :
        {manager manager' : CacheManager} (file : Mapping)
        → Life manager
        → OpenedOn file manager'
        → IsFileOf manager.cache file
        → Life manager'

  opened_on :
      (file : Mapping) (manager : CacheManager)
      → OpenedOn file manager
      → cache_init file manager.memory_size ≡ some manager.cache
  opened_on file manager o =
      let is_open : IsOpen sys manager =
        cache_manager_open_cache_lem sys o.manager o.size o.before ok manager o.after o.closed
          o.opens in
      let one : is_open.file ≡ file = ground (arith, is_open.a_mapping, o.maps) in
      ap (λ f. cache_init f manager.memory_size) (sym one) ∙ is_open.cells

  run-IsFilled :
      (st st' : ChunkStreamer State) (manager manager' : CacheManager) (buffer : List ℕ)
      (run : Run (ChunkStreamer State × CacheManager))
      → Finished (manager_store sha) st manager buffer run
      → run ≡ done (st', manager')
      → IsFilled sha manager'
  run-IsFilled st st' manager manager' buffer _ (finished {st' = st₁} {s' = manager₁} h) e =
      let same : manager₁ ≡ manager' = ground (arith, e) in subst (IsFilled sha) same h.store_valid
  run-IsFilled st st' manager manager' buffer _ (stopped h) e = absurd (ground (arith, e))

  pub Life-IsFilled : (manager : CacheManager) → Life manager → IsFilled sha manager
  Life-IsFilled _ (created {manager} file o insane) =
      let inits = opened_on file manager o in
      record {
        past = [];
        filling =
            opened file manager.memory_size insane
              (large_enough file manager.memory_size manager.cache inits) o.counts inits;
        own = λ i m. absurd (not-mem-nil m);
      }
  Life-IsFilled _ (streamed {manager} {manager'} st st' buffer was v empty run) =
      run-IsFilled st st' manager manager' buffer _
        (chunk_streamer_process_buffer_lem (manager_store sha) rh st manager buffer v empty
          (Life-IsFilled manager was))
        run
  Life-IsFilled _ (resumed {manager} {manager'} file was o holds) =
      let v = Life-IsFilled manager was in
      let inits = opened_on file manager' o in
      record {
        past = v.past;
        filling =
            reopened file manager'.memory_size v.filling holds
              (large_enough file manager'.memory_size manager'.cache inits) o.counts inits;
        own = v.own;
      }

  -- From the first opening of a cache file on, after any buffers that a streamer cut into chunks and any
  -- further openings, also after crashes: what `cache_manager_get_chunk` returns for a checksum are bytes
  -- that have this checksum, or it finds nothing.
  pub Life-cache_manager_get_chunk :
      (manager : CacheManager) (c : Checksum) (chunk : Chunk)
      → Life manager
      → block_no c < 256
      → (cache_manager_get_chunk manager c chunk ≡ some (false, chunk))
        ⊎ ((bytes : List ℕ) × (sha.digest bytes ≡ c)
            × (cache_manager_get_chunk manager c chunk ≡ some (true, filled chunk c bytes)))
  Life-cache_manager_get_chunk manager c chunk life low =
      IsFilled-IsSound sha manager (Life-IsFilled manager life) c chunk low
