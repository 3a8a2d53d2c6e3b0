-- ===== src/Cache.antt =====
-- src/theo/cache.c and cache.h: the cells of a mapped file, one chosen by the front of a checksum.
pub mod Laws
pub mod Metrics
pub mod Chunks
pub mod History
pub mod Remap
use theo.Base.{
  ℕ, zero, suc, ◌+◌, ◌-◌, ◌*◌, ◌/◌, ◌%◌, ◌^◌, Bool, true, false, Option, none, some, List, [], ◌∷◌,
  get_or, set, get_elem?, leb, if◌then◌else◌, ◌>>=◌, ◌>>◌, always,
}
use mathlib.Core.Option
use theo.Checksum.{Checksum}
use theo.Memory.{Memory}
use theo.CellState.{Cell, CellHeader}
use theo.Cell.{
  cell_init, cell_release, cell_add_chunk, cell_get_chunk, cell_has_chunk, CacheMetrics,
  cache_metrics_init, cell_get_metrics,
}
use theo.Chunk.{Chunk}
use theo.CacheHeader.{CacheHeader, cache_header_init}

abbrev pub cache_cell_size : ℕ
cache_cell_size = 1048576

-- What the mapped file holds: a header in its first area, then the cells.
pub record Mapping : Type 0 where
  pub cache_header : CacheHeader
  pub cell_headers : ℕ → CellHeader
  pub slabs : ℕ → Memory

-- `cells` is NULL, here `none`, before `cache_init` and after `cache_release`.
pub record Cache : Type 0 where
  pub cells : Option (List Cell)
  pub cache_header : CacheHeader

-- The loop of `cache_init`: `n` cells are left, from the `i`-th on. pthread_mutex_init is taken to succeed.
unfoldable pub init_cells : Mapping → ℕ → ℕ → Option (List Cell)
init_cells file i zero = some []
init_cells file i (suc n) =
    cell_init true (file.cell_headers i) (file.slabs i) cache_cell_size >>= λ cell.
    init_cells file (i + 1) n >>= λ cells. some (cell ∷ cells)

-- `none` is an abort.
unfoldable pub cache_init : Mapping → ℕ → Option Cache
cache_init file size =
    let slots : ℕ = size / cache_cell_size in
    always (leb 2 slots) >> init_cells file 0 (slots - 1) >>= λ cells.
    some (record {
      cells = some cells;
      cache_header = cache_header_init file.cache_header (slots - 1);
    })

-- The first eight bytes of the checksum, least significant first.
unfoldable pub checksum_part : Checksum → ℕ
checksum_part c =
    get_or c 0 0
    + 2 ^ 8 * get_or c 1 0
    + 2 ^ 16 * get_or c 2 0
    + 2 ^ 24 * get_or c 3 0
    + 2 ^ 32 * get_or c 4 0
    + 2 ^ 40 * get_or c 5 0
    + 2 ^ 48 * get_or c 6 0
    + 2 ^ 56 * get_or c 7 0

-- The index of the cell; the function returns a pointer to it.
unfoldable pub cache_get_cell_index : Cache → Checksum → ℕ
cache_get_cell_index cache c = checksum_part c % cache.cache_header.cell_count

-- The cell at the pointer: `none` where it lies outside the array, or the array is NULL.
unfoldable pub cell_at : Cache → ℕ → Option Cell
cell_at cache i = cache.cells >>= λ cells. get_elem? cells i

unfoldable pub put_cell : Cache → ℕ → Cell → Cache
put_cell cache i cell = record cache { cells = Option.map (λ cells. set cells i cell) cache.cells }

-- `none` is an abort or an access out of bounds.
unfoldable pub cache_add_chunk : Cache → Checksum → List ℕ → Option (Bool × Cache)
cache_add_chunk cache c buffer =
    let i : ℕ = cache_get_cell_index cache c in
    cell_at cache i >>= λ cell.
    cell_add_chunk cell c buffer >>= λ (added, cell'). some (added, put_cell cache i cell')

unfoldable pub cache_has_chunk : Cache → Checksum → Option Bool
cache_has_chunk cache c =
    cell_at cache (cache_get_cell_index cache c) >>= λ cell. some (cell_has_chunk cell c)

unfoldable pub cache_get_chunk : Cache → Checksum → Chunk → Option (Bool × Chunk)
cache_get_chunk cache c chunk =
    cell_at cache (cache_get_cell_index cache c) >>= λ cell. cell_get_chunk cell c chunk

-- The loop of `cache_release`: `n` rounds are left, `i` is the index of the next cell. `destroyed` is
-- what pthread_mutex_destroy returns for the mutex of each cell.
unfoldable pub release_cells : (ℕ → Bool) → ℕ → ℕ → List Cell → Option (List Cell)
release_cells destroyed i zero cells = some cells
release_cells destroyed i (suc n) [] = none
release_cells destroyed i (suc n) (cell ∷ cells) =
    cell_release (destroyed i) cell >>= λ _. release_cells destroyed (i + 1) n cells

-- `cache_release` by its test for NULL; `none` is an abort, or a cell past the end of the array.
abbrev pub release_array : (ℕ → Bool) → Cache → Option (List Cell) → Option Cache
release_array destroyed cache none = some cache
release_array destroyed cache (some cells) =
    release_cells destroyed 0 cache.cache_header.cell_count cells >>= λ _.
    some (record cache { cells = none })

unfoldable pub cache_release : (ℕ → Bool) → Cache → Option Cache
cache_release destroyed cache = release_array destroyed cache cache.cells

-- The loop of `cache_get_metrics`: `n` cells are left, from the `i`-th on.
unfoldable pub sum_metrics : Cache → ℕ → ℕ → CacheMetrics → Option CacheMetrics
sum_metrics cache i zero metrics = some metrics
sum_metrics cache i (suc n) metrics =
    cell_at cache i >>= λ cell. sum_metrics cache (i + 1) n (cell_get_metrics cell metrics)

unfoldable pub cache_get_metrics : Cache → Option CacheMetrics
cache_get_metrics cache = sum_metrics cache 0 cache.cache_header.cell_count cache_metrics_init
