-- ===== src/Cache/Laws.antt =====
-- The invariant of the cache of src/theo/cache.c, its making, and additions to one cell of it.
use theo.Base.{
  ℕ, zero, suc, ◌+◌, ◌-◌, ◌*◌, ◌/◌, ◌%◌, ◌≤◌, ◌<◌, ◌≡◌, ◌≢◌, ◌⊎◌, refl, ap, sym, ◌∙◌, Bool, true,
  false, none, some, List, [], ◌∷◌, length, length-set, get_elem?-set, get_elem?-some, set, ◌==◌,
  leb, if◌then◌else◌, arith,
}
use theo.Checksum.{Checksum}
use theo.CellState.{Cell, CellHeader}
use theo.Memory.{Memory}
use theo.CellHeader.{cell_header_sane, cell_header_init}
use theo.Cell.{cell_init, cell_add_chunk}
use theo.CacheHeader.{cache_header_magic, cache_header_init}
use theo.Cache.{
  Mapping, Cache, init_cells, cache_init, checksum_part, cache_get_cell_index, cell_at, put_cell,
  cache_add_chunk, cache_cell_size,
}

-- The array has as many cells as the header says, and one at least.
pub record IsCache (cache : Cache) : Type 0 where
  pub cells : List Cell
  pub there : cache.cells ≡ some cells
  pub counted : length cells ≡ cache.cache_header.cell_count
  pub some_cell : 0 < cache.cache_header.cell_count

-- What `cell_init` makes of an area of the file.
abbrev pub made_cell : CellHeader → Memory → Cell
made_cell h m =
    let cell : Cell = record { cell_header = h; slab = m; slab_size = cache_cell_size } in
    if cell_header_sane h then cell else cell_header_init cell

-- With cells of 1 MiB the loop of `cache_init` makes each of them.
pub init_cells_lem :
    (file : Mapping) (i n : ℕ)
    → (cells : List Cell) × (init_cells file i n ≡ some cells) × (length cells ≡ n)
unfolding init_cells cell_init
init_cells_lem file i zero = ([], refl, refl)
init_cells_lem file i (suc n) =
    let rest = init_cells_lem file (i + 1) n in
    let cell : Cell = made_cell (file.cell_headers i) (file.slabs i) in
    (cell ∷ rest.0, rw rest.1, ap suc rest.2)

-- On a file of two areas or more, whose header is new or was made for as many cells, `cache_init`
-- returns a valid cache with a cell for each area but the first.
pub cache_init_lem :
    (file : Mapping) (size : ℕ)
    → 2 * cache_cell_size ≤ size
    → (file.cache_header.cache_magic ≢ cache_header_magic)
      ⊎ (file.cache_header.cell_count ≡ size / cache_cell_size - 1)
    → (cache : Cache) × (cache_init file size ≡ some cache)
      × IsCache cache
      × (cache.cache_header.cell_count ≡ size / cache_cell_size - 1)
unfolding cache_init cache_header_init
cache_init_lem file size large header =
    let n : ℕ = size / cache_cell_size - 1 in
    let made = init_cells_lem file 0 n in
    let count : (cache_header_init file.cache_header n).cell_count ≡ n = ground arith in
    let two : leb 2 (size / cache_cell_size) ≡ true = ground arith in
    (
      record { cells = some made.0; cache_header = cache_header_init file.cache_header n },
      rw (two, made.1),
      record {
        cells = made.0;
        there = refl;
        counted = made.2 ∙ sym count;
        some_cell = omega arith;
      },
      count,
    )

-- A smaller file makes it abort.
pub cache_init_small :
    (file : Mapping) (size : ℕ) → size < 2 * cache_cell_size → cache_init file size ≡ none
unfolding cache_init
cache_init_small file size small =
    let one : leb 2 (size / cache_cell_size) ≡ false = ground arith in rw one

index_low :
    (cache : Cache) (c : Checksum)
    → IsCache cache
    → cache_get_cell_index cache c < cache.cache_header.cell_count
unfolding cache_get_cell_index
index_low cache c v = omega (arith, v.some_cell)

header-put :
    (cache : Cache) (i : ℕ) (cell : Cell)
    → (put_cell cache i cell).cache_header ≡ cache.cache_header
unfolding put_cell
header-put cache i cell = refl

-- The cell of a checksum is in the array.
pub cell_at_lem :
    (cache : Cache) (c : Checksum)
    → IsCache cache
    → (cell : Cell) × (cell_at cache (cache_get_cell_index cache c) ≡ some cell)
unfolding cell_at cache_get_cell_index
cell_at_lem cache c v =
    let at =
      get_elem?-some v.cells (checksum_part c % cache.cache_header.cell_count)
        (omega (arith, v.some_cell, v.counted)) in
    (at.0, rw v.there at.1)

module _ (cache : Cache) (v : IsCache cache) (i : ℕ) (low : i < cache.cache_header.cell_count) where
  cell_at-put :
      (j : ℕ) (cell : Cell)
      → cell_at (put_cell cache i cell) j ≡ (if i == j then some cell else cell_at cache j)
  unfolding cell_at put_cell
  cell_at-put j cell = rw v.there (get_elem?-set v.cells i j cell (omega (arith, v.counted)))

  put-IsCache : (cell : Cell) → IsCache (put_cell cache i cell)
  unfolding put_cell
  put-IsCache cell = record {
    cells = set v.cells i cell;
    there = rw v.there;
    counted = length-set v.cells i cell ∙ v.counted;
    some_cell = v.some_cell;
  }

-- On a valid cache where `cell_add_chunk` returns on the cell of the checksum, `cache_add_chunk` returns
-- the same result, puts that cell in its place, and leaves every other cell and the header alone.
pub cache_add_chunk_lem :
    (cache : Cache) (c : Checksum) (buffer : List ℕ) (cell cell' : Cell) (added : Bool)
    → IsCache cache
    → cell_at cache (cache_get_cell_index cache c) ≡ some cell
    → cell_add_chunk cell c buffer ≡ some (added, cell')
    → (cache' : Cache) × (cache_add_chunk cache c buffer ≡ some (added, cache'))
      × IsCache cache'
      × (cache'.cache_header ≡ cache.cache_header)
      × ((j : ℕ)
          → cell_at cache' j
            ≡ (if cache_get_cell_index cache c == j then some cell' else cell_at cache j))
unfolding cache_add_chunk
cache_add_chunk_lem cache c buffer cell cell' added v at adds =
    let i : ℕ = cache_get_cell_index cache c in
    let low : i < cache.cache_header.cell_count = index_low cache c v in
    (
      put_cell cache i cell',
      rw (at, adds),
      put-IsCache cache v i low cell',
      header-put cache i cell',
      λ j. cell_at-put cache v i low j cell',
    )
