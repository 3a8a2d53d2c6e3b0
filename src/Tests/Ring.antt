-- ===== src/Tests/Ring.antt =====
-- The theorems on the ring and on the whole cache at a new cell of 1 MiB, and after a chunk of 2 KiB was
-- added to it.
use theo.Base.{
  ℕ, ◌+◌, ◌*◌, ◌%◌, ◌^◌, ◌≤◌, ◌<◌, ◌≡◌, ◌⊎◌, refl, inl, Bool, true, false, none, some, List, [],
  ◌∷◌, length, replicate, length-replicate, arith,
}
use mathlib.Core.List.{Mem}
use theo.CellDir.{cell_dir_init}
use theo.CellState.{Cell, CellHeader, buffer_top}
use theo.CellHeader.{cell_header_init, cell_header_sane}
use theo.CellBody.{top_offset, next_offset, entry_at, cell_body_free_space, cell_body_add_top}
use theo.CacheHeader.{cache_header_magic, cache_header_init}
use theo.Chunk.{chunk_init}
use theo.Cell.{cell_add_chunk, cell_get_chunk, cell_get_metrics, cache_metrics_init}
use theo.Cell.Chunks.{filled, cell_add_chunk_lem}
use theo.Cell.Recover.{IsFresh, cell_header_init-IsFresh}
use theo.Cell.Valid.{overflowed, cell_body_free_space_lem}
use theo.Cell.{cell_init, CacheMetrics}
use theo.Cache.{
  Mapping, init_cells, cache_init, Cache, cache_get_cell_index, cell_at, cache_add_chunk,
  cache_get_chunk, checksum_part,
}
use theo.Cache.{cache_get_metrics}
use theo.Cache.Metrics.{CellsHold, Summed, CacheFilling-cache_get_metrics}
use theo.Cache.Laws.{IsCache, cache_add_chunk_lem}
use theo.Cache.History.{
  CacheFilling, opened, stored, CacheFilling-cache_add_chunk, CacheFilling-cache_get_chunk,
}
use theo.Ring.Chain.{Item, IsItem, bytes_in}
use theo.Ring.Gap.{RingOf}
use theo.Ring.Top.{top_added}
use theo.Ring.Add.{IsRing}
use theo.Ring.Offset.{IsStuck}
use theo.Ring.Find.{find, got}
use theo.Ring.Fresh.{IsFresh-Gap}
use theo.Ring.Taken.{ring-find}
use theo.Ring.History.{Filling, mapped, taken, Filling-cell_add_chunk, Filling-cell_get_chunk}
use theo.Ring.Metrics.{cell_get_metrics_lem}
use theo.Tests.{sum, blank}

abbrev pub header : CellHeader
header = record {
  magic = 0;
  entry_count = 0;
  byte_count = 0;
  cell_ic = record { entry_code = 0; exit_code = 0 };
  cell_body = record { top_entry_offset = 0; next_entry_offset = 0 };
  cell_dir = cell_dir_init;
}

abbrev pub cell : Cell
cell = cell_header_init (record { cell_header = header; slab = blank; slab_size = 1048576 })

pub cell-IsFresh : IsFresh cell 1048576
cell-IsFresh =
    cell_header_init-IsFresh (record { cell_header = header; slab = blank; slab_size = 1048576 })
      (omega arith) (omega arith)

abbrev pub bytes_of : ℕ → List ℕ
bytes_of n = replicate 2048 n

-- A chunk of 2 KiB.
abbrev pub item_of : ℕ → Item
item_of n = record { checksum = sum n; bytes = bytes_of n }

pub item_of-IsItem : (n : ℕ) → n < 256 → IsItem (item_of n)
item_of-IsItem n low =
    let len : length (bytes_of n) ≡ 2048 = length-replicate 2048 n in
    record {
      key = length-replicate 32 n;
      low = low;
      least = omega (arith, len);
      most = omega (arith, len);
    }

bytes_length : (n : ℕ) → length (bytes_of n) ≡ 2048
bytes_length n = length-replicate 2048 n

pub seven : length (bytes_of 7) ≡ 2048
seven = bytes_length 7

pub cell-room : length (bytes_of 7) + 72 ≤ cell_body_free_space cell
cell-room = omega (
  arith,
  seven,
  cell_body_free_space_lem cell cell-IsFresh.valid,
  cell-IsFresh.top_is_zero,
  cell-IsFresh.none_overflowed,
  cell-IsFresh.size,
)

-- The cell with one chunk at the top.
one_chunk :
    (cell' : Cell) × (cell_body_add_top cell (sum 7) (bytes_of 7) ≡ (true, cell'))
    × RingOf cell' (item_of 7 ∷ []) []
    × (next_offset cell' ≡ top_offset cell')
one_chunk =
    top_added cell [] 0 0 0 (item_of 7) (IsFresh-Gap cell cell-IsFresh) cell-IsFresh.next_is_top
      refl (item_of-IsItem 7 (omega arith)) refl cell-room

one_chunk-IsRing : IsRing (one_chunk.0) (item_of 7 ∷ []) []
one_chunk-IsRing = record { ring = one_chunk.2; settled = inl (omega arith) }

cell_get_chunk-find_example :
    cell_get_chunk (one_chunk.0) (sum 7) chunk_init
    ≡ got (sum 7) chunk_init (find (sum 7) (item_of 7 ∷ []))
cell_get_chunk-find_example =
    ring-find (one_chunk.0) (item_of 7 ∷ []) [] (sum 7) one_chunk-IsRing (omega arith) chunk_init

cell_get_metrics_example :
    ((cell_get_metrics (one_chunk.0) cache_metrics_init).entry_count
      ≡ (cache_metrics_init.entry_count + length (item_of 7 ∷ [])) % 2 ^ 64)
    × ((cell_get_metrics (one_chunk.0) cache_metrics_init).byte_count
        ≡ (cache_metrics_init.byte_count + bytes_in (item_of 7 ∷ [])) % 2 ^ 64)
cell_get_metrics_example =
    cell_get_metrics_lem (one_chunk.0) (item_of 7 ∷ []) [] cache_metrics_init one_chunk-IsRing

-- The new cell after a call with the chunk.
adds : (cell' : Cell) × (cell_add_chunk cell (sum 7) (bytes_of 7) ≡ some (true, cell'))
adds =
    let out =
      cell_add_chunk_lem cell (sum 7) (bytes_of 7) cell-IsFresh.valid cell-IsFresh.quiet refl
        (omega arith) (cell-IsFresh.empty (sum 7)) (omega (arith, cell-IsFresh.none_overflowed))
        (omega (arith, seven)) cell-room cell-IsFresh.next_is_top in
    (out.0, out.1)

adds-Filling : Filling (item_of 7 ∷ []) (adds.0)
adds-Filling = taken (mapped cell-IsFresh) (item_of-IsItem 7 (omega arith)) (adds.1)

Filling-cell_add_chunk_example :
    ((b : Bool) × (cell' : Cell) × (cell_add_chunk (adds.0) (sum 9) (bytes_of 9) ≡ some (b, cell'))
      × Filling (item_of 9 ∷ item_of 7 ∷ []) cell')
    ⊎ ((cell_add_chunk (adds.0) (sum 9) (bytes_of 9) ≡ none)
        × (next_offset (adds.0) < top_offset (adds.0))
        × ((entry_at (adds.0) (next_offset (adds.0))).size ≡ length (bytes_of 9))
        × (buffer_top (adds.0) < top_offset (adds.0) + 72 + overflowed (adds.0) * 36))
Filling-cell_add_chunk_example =
    Filling-cell_add_chunk (item_of 7 ∷ []) (adds.0) (item_of 9) adds-Filling
      (item_of-IsItem 9 (omega arith))

Filling-cell_get_chunk_example :
    (cell_get_chunk (adds.0) (sum 7) chunk_init ≡ some (false, chunk_init))
    ⊎ ((i : Item) × Mem i (item_of 7 ∷ [])
        × (i.checksum ≡ sum 7)
        × (cell_get_chunk (adds.0) (sum 7) chunk_init
            ≡ some (true, filled chunk_init (sum 7) i.bytes)))
Filling-cell_get_chunk_example =
    Filling-cell_get_chunk (item_of 7 ∷ []) (adds.0) (sum 7) chunk_init adds-Filling (omega arith)

-- A cache of the one cell.
abbrev pub cache : Cache
cache = record {
  cells = some (cell ∷ []);
  cache_header = record { cache_magic = cache_header_magic; cell_count = 1 };
}

pub cache-IsCache : IsCache cache
cache-IsCache = record { cells = cell ∷ []; there = refl; counted = refl; some_cell = omega arith }

the_cell : cell_at cache (cache_get_cell_index cache (sum 7)) ≡ some cell
unfolding cell_at cache_get_cell_index checksum_part
the_cell = refl

-- A new file of two areas.
abbrev pub file : Mapping
file = record {
  cache_header = record { cache_magic = 0; cell_count = 0 };
  cell_headers = λ i. header;
  slabs = λ i. blank;
}

pub file-inits : cache_init file 2097152 ≡ some cache
unfolding cache_init init_cells cell_init cell_header_sane cache_header_init
file-inits = refl

pub file-insane : cell_header_sane header ≡ false
unfolding cell_header_sane
file-insane = refl

cache_adds : (cache' : Cache) × (cache_add_chunk cache (sum 7) (bytes_of 7) ≡ some (true, cache'))
cache_adds =
    let out =
      cache_add_chunk_lem cache (sum 7) (bytes_of 7) cell (adds.0) true cache-IsCache the_cell
        (adds.1) in
    (out.0, out.1)

cache-CacheFilling : CacheFilling (item_of 7 ∷ []) (cache_adds.0)
cache-CacheFilling =
    stored (opened file 2097152 (λ n. file-insane) (omega arith) (inl (ground arith)) file-inits)
      (item_of-IsItem 7 (omega arith)) (cache_adds.1)

CacheFilling-cache_get_chunk_example :
    (cache_get_chunk (cache_adds.0) (sum 7) chunk_init ≡ some (false, chunk_init))
    ⊎ ((i : Item) × Mem i (item_of 7 ∷ [])
        × (i.checksum ≡ sum 7)
        × (cache_get_chunk (cache_adds.0) (sum 7) chunk_init
            ≡ some (true, filled chunk_init (sum 7) i.bytes)))
CacheFilling-cache_get_chunk_example =
    CacheFilling-cache_get_chunk (item_of 7 ∷ []) (cache_adds.0) (sum 7) chunk_init
      cache-CacheFilling (omega arith)

CacheFilling-cache_add_chunk_example :
    ((b : Bool) × (cache' : Cache) × (cache_add_chunk (cache_adds.0) (sum 9) (bytes_of 9)
        ≡ some (b, cache'))
      × CacheFilling (item_of 9 ∷ item_of 7 ∷ []) cache')
    ⊎ ((cache_add_chunk (cache_adds.0) (sum 9) (bytes_of 9) ≡ none)
        × ((c : Cell) × (post : List Item) × (cell_at
                (cache_adds.0)
                (cache_get_cell_index (cache_adds.0) (sum 9))
              ≡ some c)
            × IsStuck c (item_of 9) post))
CacheFilling-cache_add_chunk_example =
    CacheFilling-cache_add_chunk (item_of 7 ∷ []) (cache_adds.0) (item_of 9) cache-CacheFilling
      (item_of-IsItem 9 (omega arith))

CacheFilling-cache_get_metrics_example :
    (iss : List (List Item)) × (total : CacheMetrics) × CellsHold (cache_adds.0) 0 iss
    × (length iss ≡ (cache_adds.0).cache_header.cell_count)
    × (cache_get_metrics (cache_adds.0) ≡ some total)
    × Summed cache_metrics_init iss total
CacheFilling-cache_get_metrics_example =
    CacheFilling-cache_get_metrics (item_of 7 ∷ []) (cache_adds.0) cache-CacheFilling
