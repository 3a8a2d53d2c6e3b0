-- ===== src/Tests/Life.antt =====
-- A cache file that is opened, takes in a chunk through a streamer, and is opened again after a crash.
use theo.Base.{
  ℕ, zero, suc, ◌+◌, ◌==◌, if◌then◌else◌, take, drop, ◌≡◌, ◌⊎◌, refl, ap, ◌∙◌, inl, inr, Bool, true,
  false, Option, some, List, [], length, ◌>>=◌, arith,
}
use theo.Chunk.{chunk_init}
use theo.Chunker.{found, chunker_chunk_buffer}
use theo.ChunkRef.{chunk_ref_set}
use theo.ChunkStreamer.{ChunkStreamer, done, process, chunk_streamer_process_buffer}
use theo.Cell.{cell_has_chunk, cell_add_chunk}
use theo.Cell.Chunks.{filled, cell_add_chunk_lem, ChunkAdded}
use theo.CellState.{Cell, CellHeader}
use theo.Cache.{
  Cache, cache_init, cache_add_chunk, cache_has_chunk, cache_get_cell_index, cell_at, checksum_part,
}
use theo.Cache.Remap.{IsFileOf}
use theo.Cache.Laws.{cache_init_lem, cache_add_chunk_lem}
use theo.Msys.{Os, Msys, msys, mapped}
use theo.CacheManager.{
  CacheManager, ok, cache_manager_init, cache_manager_filesize, cache_manager_check_file,
  cache_manager_open_cache, cache_manager_add_chunk, cache_manager_has_chunk,
  cache_manager_get_chunk, with_cache,
}
use theo.CacheManager.Files.{IsClosed}
use theo.CacheManager.Life.{
  OpenedOn, Life, created, streamed, resumed, Life-cache_manager_get_chunk,
}
use theo.CacheManager.Store.{manager_store, or_false}
use theo.Cache.{Mapping}
use theo.Tests.Files.{words, name, os}
use theo.Tests.Ring.{
  header, cell, cell-IsFresh, cell-room, bytes_of, seven, cache, cache-IsCache, file, file-inits,
  file-insane,
}
use theo.Tests.Stream.{rolling, counting, empty, empty-IsChunker}
use theo.Tests.Threads.{add_parts}

-- The streamer cuts the 2 KiB into one chunk, which goes to the cell.
abbrev bytes : List ℕ
bytes = bytes_of 7

short : length bytes ≡ 2048
short = seven

added :
    (cell' : Cell) × (cell_add_chunk cell (counting.digest bytes) bytes ≡ some (true, cell'))
    × ChunkAdded cell (counting.digest bytes) bytes cell'
added =
    cell_add_chunk_lem cell (counting.digest bytes) bytes cell-IsFresh.valid cell-IsFresh.quiet refl
      (omega arith) (cell-IsFresh.empty (counting.digest bytes))
      (omega (arith, cell-IsFresh.none_overflowed)) (omega (arith, short)) cell-room
      cell-IsFresh.next_is_top

the_cell : cell_at cache (cache_get_cell_index cache (counting.digest bytes)) ≡ some cell
unfolding cell_at cache_get_cell_index checksum_part
the_cell = refl

cell_added :
    (cache' : Cache) × (cache_add_chunk cache (counting.digest bytes) bytes ≡ some (true, cache'))
    × (cell_at cache' 0 ≡ some (added.0))
unfolding cell_at cache_get_cell_index checksum_part
cell_added =
    let out =
      cache_add_chunk_lem cache (counting.digest bytes) bytes cell (added.0) true cache-IsCache
        the_cell (added.1) in
    (out.0, out.1, out.4 0)

is_new : cache_has_chunk cache (counting.digest bytes) ≡ some false
unfolding cache_has_chunk cell_has_chunk
is_new =
    let parts = add_parts cell (added.0) (counting.digest bytes) bytes (added.1) in
    rw the_cell (rw (parts.0, cell_has_chunk) refl)

abbrev streamer : ChunkStreamer ℕ
streamer = record { chunker = empty; chunk_added = 0; chunk_hit = 0 }

abbrev after : ChunkStreamer ℕ
after = record { chunker = empty; chunk_added = 1; chunk_hit = 0 }

abbrev headers : ℕ → CellHeader
headers zero = (added.0).cell_header
headers (suc n) = header

-- What the file holds after the chunk was added: the cell, and nothing else that is sane.
abbrev file' : Mapping
file' = record {
  cache_header = cache.cache_header;
  cell_headers = headers;
  slabs = λ n. (added.0).slab;
}

-- The file has its size already. In the world 1 the chunk was added.
abbrev there : Os ℕ Mapping
there = record os {
  stat = λ path w. (some 2097152, w);
  mmap = λ addr length prot flags fd offset w. (mapped (if w == 0 then file else file'), w);
}

abbrev sys : Msys ℕ Mapping
sys = msys there words name

abbrev manager : CacheManager
manager = record { cache = cache; ptr = some file; memory_size = 2097152; fd = some 3; dax = true }

opens : cache_manager_open_cache sys cache_manager_init 1048576 0 ≡ some (ok, manager, 0)
unfolding cache_manager_open_cache cache_manager_check_file cache_manager_filesize
    cache_manager_init
opens = rw file-inits refl

initial : IsClosed sys cache_manager_init
unfolding cache_manager_init
initial = record { no_file = refl; no_mapping = refl; no_cells = refl }

manager-OpenedOn : OpenedOn sys counting rolling file manager
manager-OpenedOn = record {
  manager = cache_manager_init;
  size = 1048576;
  before = 0;
  after = 0;
  closed = initial;
  opens = opens;
  maps = refl;
  counts = inl (ground arith);
}

manager-Life : Life sys counting rolling manager
manager-Life = created file manager-OpenedOn (λ n. file-insane)

-- A run over any 2 KiB that are not cached.
module _ (b : List ℕ) (two : length b ≡ 2048) (all : take 2048 b ≡ b) (rest : drop 2048 b ≡ [])
    (before behind : CacheManager)
    (new : or_false (cache_manager_has_chunk before (counting.digest b)) ≡ false)
    (adds : cache_manager_add_chunk before (counting.digest b) b ≡ some (true, behind)) where
  cuts :
      chunker_chunk_buffer rolling counting empty b
      ≡ some (found (chunk_ref_set counting b 2048), empty)
  unfolding chunker_chunk_buffer
  cuts = rw two refl

  first_round :
      (fuel : ℕ)
      → process rolling (manager_store counting) (suc fuel) streamer before b
        ≡ process rolling (manager_store counting) fuel after behind []
  unfolding process chunk_ref_set
  first_round fuel = rw (cuts, all, rest, new, adds) refl

  last_round :
      (fuel : ℕ)
      → process rolling (manager_store counting) (suc fuel) after behind [] ≡ done (after, behind)
  unfolding process chunker_chunk_buffer
  last_round fuel = refl

  run :
      chunk_streamer_process_buffer rolling (manager_store counting) streamer before b
      ≡ done (after, behind)
  unfolding chunk_streamer_process_buffer
  run =
      ap (λ n. process rolling (manager_store counting) (n + 1) streamer before b) two
      ∙ first_round 2048
      ∙ last_round 2047

abbrev manager' : CacheManager
manager' = with_cache manager (cell_added.0)

runs :
    chunk_streamer_process_buffer rolling (manager_store counting) streamer manager bytes
    ≡ done (after, manager')
unfolding cache_manager_has_chunk cache_manager_add_chunk
runs = run bytes short refl refl manager manager' (ap or_false is_new) (
    ap (λ (o : Option (Bool × Cache)). o >>= λ (b, c). some (b, with_cache manager c))
      (cell_added.1))

still_there : IsFileOf manager'.cache file'
still_there zero = inr (added.0, cell_added.2, refl, refl)
still_there (suc n) = inl file-insane

opened_again : (cache' : Cache) × (cache_init file' 2097152 ≡ some cache')
opened_again = let out = cache_init_lem file' 2097152 (omega arith) (inr refl) in (out.0, out.1)

abbrev manager_again : CacheManager
manager_again = record {
  cache = opened_again.0;
  ptr = some file';
  memory_size = 2097152;
  fd = some 3;
  dax = true;
}

opens_again :
    cache_manager_open_cache sys cache_manager_init 1048576 1 ≡ some (ok, manager_again, 1)
unfolding cache_manager_open_cache cache_manager_check_file cache_manager_filesize
    cache_manager_init
opens_again = rw (opened_again.1) refl

manager_again-Life : Life sys counting rolling manager_again
manager_again-Life =
    resumed file'
      (streamed streamer after bytes manager-Life
        (record { chunker_valid = empty-IsChunker; added_lt = omega arith; hit_lt = omega arith })
        refl runs)
      (record {
        manager = cache_manager_init;
        size = 1048576;
        before = 1;
        after = 1;
        closed = initial;
        opens = opens_again;
        maps = refl;
        counts = inr refl;
      })
      still_there

Life-cache_manager_get_chunk_example :
    (cache_manager_get_chunk manager_again (counting.digest bytes) chunk_init
      ≡ some (false, chunk_init))
    ⊎ ((bs : List ℕ) × (counting.digest bs ≡ counting.digest bytes)
        × (cache_manager_get_chunk manager_again (counting.digest bytes) chunk_init
            ≡ some (true, filled chunk_init (counting.digest bytes) bs)))
Life-cache_manager_get_chunk_example =
    Life-cache_manager_get_chunk sys counting rolling manager_again (counting.digest bytes)
      chunk_init manager_again-Life (omega arith)
