-- ===== src/Tests/Files.antt =====
-- The theorems on the cache and its manager, on a system whose calls succeed.
use theo.Base.{
  ℕ, ◌+◌, ◌-◌, ◌/◌, ◌%◌, ◌≤◌, ◌<◌, ◌≡◌, ◌≢◌, refl, inl, true, none, some, [], ◌∷◌, arith,
}
use theo.Checksum.{Checksum}
use theo.CellDir.{block_no, cell_dir_init}
use theo.CellState.{Cell, CellHeader}
use theo.CellHeader.{cell_header_init}
use theo.Cell.{cell_add_chunk}
use theo.Cell.Recover.{IsFresh, cell_header_init-IsFresh}
use theo.Cell.Chunks.{Holds, cell_add_chunk_lem}
use theo.Cell.Valid.{cell_body_free_space_lem}
use theo.CellBody.{cell_body_free_space}
use theo.CacheHeader.{cache_header_magic}
use theo.Cache.{
  cache_get_chunk, Mapping, Cache, cache_cell_size, cache_init, cache_get_cell_index, cell_at,
  cache_add_chunk, checksum_part,
}
use theo.Cell.{cell_init}
use theo.Cache.Remap.{cache_init-areas}
use theo.Cache.Laws.{IsCache}
use theo.Cache.Chunks.{cache_add_chunk-get}
use theo.Chunk.{Chunk}
use theo.Msys.{Os, Words, FileName, msys, Msys, mapped}
use theo.CacheManager.{
  CacheManager, Status, cache_manager_mb, cache_manager_init, cache_manager_filesize,
  cache_manager_create_file, cache_manager_open_cache,
}
use theo.CacheManager.Files.{
  Progress, Closes, Ends, IsClosed, Opened, cache_manager_filesize_lem,
  cache_manager_create_file_lem,
}
use theo.CacheManager.Opens.{cache_manager_open_cache_returns}
use theo.Tests.{sum, blank}

abbrev pub header : CellHeader
header = record {
  magic = 0;
  entry_count = 0;
  byte_count = 0;
  cell_ic = record { entry_code = 0; exit_code = 0 };
  cell_body = record { top_entry_offset = 0; next_entry_offset = 0 };
  cell_dir = cell_dir_init;
}

-- A file of zeros.
abbrev pub file : Mapping
file = record {
  cache_header = record { cache_magic = 0; cell_count = 0 };
  cell_headers = λ i. header;
  slabs = λ i. blank;
}

pub all_written : (count n : ℕ) → some count ≡ some n → n ≤ count
all_written count n e = ground arith

abbrev pub os : Os ℕ Mapping
os = record {
  access = λ path mode w. (true, w);
  remove = λ path w. (true, w);
  open_file = λ path flags mode w. (some 3, w);
  stat = λ path w. (none, w);
  write = λ fd bytes count w. (some count, w + count);
  close = λ fd w. (true, w);
  fsync = λ fd w. (true, w);
  mmap = λ addr length prot flags fd offset w. (mapped file, w);
  munmap = λ addr length w. (true, w);
  destroy = λ i. true;
  write_le = λ fd bytes count n w e. all_written count n e;
}

-- The words of Linux on x86-64.
abbrev pub words : Words
words = record {
  o_rdwr = 2;
  o_rdwr_creat = 66;
  s_irusr_iwusr = 384;
  prot_read_write = 3;
  map_shared_validate = 3;
  map_shared_validate_sync = 524291;
}

abbrev pub name : FileName
name = 99 ∷ []

abbrev sys : Msys ℕ Mapping
sys = msys os words name

sys-Progress : Progress sys
sys-Progress = λ fd bytes count w some'. ground arith

sys-Closes : Closes sys
sys-Closes = (λ fd w. refl, λ fd w. refl)

cache_manager_filesize_example :
    (cache_manager_filesize 5000000 % cache_manager_mb ≡ 0)
    × (5000000 < cache_manager_filesize 5000000)
    × (cache_manager_filesize 5000000 ≤ 5000000 + cache_manager_mb)
cache_manager_filesize_example = cache_manager_filesize_lem 5000000 (omega arith)

cache_manager_create_file_example : Ends sys (cache_manager_create_file sys 3145728 0)
cache_manager_create_file_example =
    cache_manager_create_file_lem sys sys-Progress sys-Closes 3145728 0

initial-IsClosed : IsClosed sys cache_manager_init
unfolding cache_manager_init
initial-IsClosed = record { no_file = refl; no_mapping = refl; no_cells = refl }

cache_manager_open_cache_example :
    (r : Status) × (manager' : CacheManager) × (w' : ℕ) × (cache_manager_open_cache sys
        cache_manager_init 5000000 0
      ≡ some (r, manager', w'))
    × Opened sys r manager'
cache_manager_open_cache_example =
    cache_manager_open_cache_returns sys sys-Progress sys-Closes cache_manager_init 5000000 0
      initial-IsClosed (omega arith) (omega arith)

cache_init-areas_example :
    (cache : Cache) × (cache_init file 3145728 ≡ some cache)
    × IsCache cache
    × (cache.cache_header.cell_count ≡ 3145728 / cache_cell_size - 1)
    × ((n : ℕ)
        → n < 3145728 / cache_cell_size - 1
        → (cell : Cell) × (cell_at cache n ≡ some cell)
          × (cell_init true (file.cell_headers n) (file.slabs n) cache_cell_size ≡ some cell))
cache_init-areas_example = cache_init-areas file 3145728 (omega arith) (inl (ground arith))

-- A cache of one fresh cell, and the cell with a chunk.
abbrev cell : Cell
cell = cell_header_init (record { cell_header = header; slab = blank; slab_size = 1048576 })

cell-IsFresh : IsFresh cell 1048576
cell-IsFresh =
    cell_header_init-IsFresh (record { cell_header = header; slab = blank; slab_size = 1048576 })
      (omega arith) (omega arith)

abbrev cache : Cache
cache = record {
  cells = some (cell ∷ []);
  cache_header = record { cache_magic = cache_header_magic; cell_count = 1 };
}

cache-IsCache : IsCache cache
cache-IsCache = record { cells = cell ∷ []; there = refl; counted = refl; some_cell = omega arith }

-- The cache opened on descriptor 3 and mapped.
abbrev open_manager : CacheManager
open_manager = record cache_manager_init { fd = some 3; ptr = some file; cache = cache }

cell-room : 73 ≤ cell_body_free_space cell
cell-room = omega (
  arith,
  cell_body_free_space_lem cell cell-IsFresh.valid,
  cell-IsFresh.top_is_zero,
  cell-IsFresh.none_overflowed,
  cell-IsFresh.size,
)

adds : (cell' : Cell) × (cell_add_chunk cell (sum 7) (1 ∷ []) ≡ some (true, cell'))
adds =
    let out =
      cell_add_chunk_lem cell (sum 7) (1 ∷ []) cell-IsFresh.valid cell-IsFresh.quiet refl
        (omega arith) (cell-IsFresh.empty (sum 7)) (omega (arith, cell-IsFresh.none_overflowed))
        (omega arith) cell-room cell-IsFresh.next_is_top in
    (out.0, out.1)

the_cell : cell_at cache (cache_get_cell_index cache (sum 7)) ≡ some cell
unfolding cell_at cache_get_cell_index checksum_part
the_cell = refl

cache_add_chunk-get_example :
    (cache' : Cache) × (cache_add_chunk cache (sum 7) (1 ∷ []) ≡ some (true, cache'))
    × IsCache cache'
    × ((chunk : Chunk)
        → (chunk' : Chunk) × (cache_get_chunk cache' (sum 7) chunk ≡ some (true, chunk'))
          × Holds chunk' (sum 7) (1 ∷ []))
    × ((k : Checksum) (chunk : Chunk)
        → k ≢ sum 7
        → block_no k < 256
        → cache_get_chunk cache' k chunk ≡ cache_get_chunk cache k chunk)
cache_add_chunk-get_example =
    cache_add_chunk-get cache cell (sum 7) (1 ∷ []) cache-IsCache the_cell cell-IsFresh.valid
      cell-IsFresh.quiet refl (omega arith) (cell-IsFresh.empty (sum 7))
      (omega (arith, cell-IsFresh.none_overflowed)) (omega arith) cell-room cell-IsFresh.next_is_top
