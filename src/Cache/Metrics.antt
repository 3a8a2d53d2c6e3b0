-- ===== src/Cache/Metrics.antt =====
-- `cache_get_metrics` of src/theo/cache.c: the sum over the cells.
use theo.Base.{
  ℕ, zero, suc, ◌+◌, ◌%◌, ◌^◌, ◌<◌, ◌≡◌, refl, sym, ap, ◌∙◌, some, List, [], ◌∷◌, ◌++◌, length,
  get_elem?-some, arith,
}
use theo.CellState.{Cell}
use theo.Cell.{CacheMetrics, cache_metrics_init, cell_get_metrics}
use theo.Cache.{Cache, cell_at, sum_metrics, cache_get_metrics}
use theo.Cache.History.{CacheFilling, CachePast, CacheFilling-CachePast}
use theo.Ring.Chain.{Item, bytes_in}
use theo.Ring.Add.{IsRing}
use theo.Ring.Metrics.{cell_get_metrics_lem}

-- The cells from the `i`-th on are rings of these chunks.
pub data CellsHold (cache : Cache) : ℕ → List (List Item) → Type 0 where
  none_left : {i : ℕ} → CellsHold cache i []
  next_cell :
      {i : ℕ} {cell : Cell} {before post : List Item} {iss : List (List Item)}
      → cell_at cache i ≡ some cell
      → IsRing cell before post
      → CellsHold cache (i + 1) iss
      → CellsHold cache i ((before ++ post) ∷ iss)

abbrev pub total_count : List (List Item) → ℕ
total_count [] = 0
total_count (is ∷ iss) = length is + total_count iss

abbrev pub total_bytes : List (List Item) → ℕ
total_bytes [] = 0
total_bytes (is ∷ iss) = bytes_in is + total_bytes iss

-- The sum of the chunks and of their bytes, in 64 bits.
pub record Summed (metrics : CacheMetrics) (iss : List (List Item)) (sum : CacheMetrics)
    : Type 0 where
  pub entries : sum.entry_count ≡ (metrics.entry_count + total_count iss) % 2 ^ 64
  pub bytes : sum.byte_count ≡ (metrics.byte_count + total_bytes iss) % 2 ^ 64

sum-next :
    (cache : Cache) (i n : ℕ) (cell : Cell) (metrics : CacheMetrics)
    → cell_at cache i ≡ some cell
    → sum_metrics cache i (suc n) metrics
      ≡ sum_metrics cache (i + 1) n (cell_get_metrics cell metrics)
unfolding sum_metrics
sum-next cache i n cell metrics at = rw at refl

sum_metrics_lem :
    (cache : Cache) (i : ℕ) (iss : List (List Item)) (metrics : CacheMetrics)
    → CellsHold cache i iss
    → metrics.entry_count < 2 ^ 64
    → metrics.byte_count < 2 ^ 64
    → (sum : CacheMetrics) × (sum_metrics cache i (length iss) metrics ≡ some sum)
      × Summed metrics iss sum
unfolding sum_metrics
sum_metrics_lem cache i [] metrics none_left entries bytes =
    (metrics, refl, record { entries = omega arith; bytes = omega arith })
sum_metrics_lem cache i _ metrics
      (next_cell {cell = cell} {before = before} {post = post} {iss = iss} at ring rest) entries
      bytes =
    let (e, b) = cell_get_metrics_lem cell before post metrics ring in
    let (sum, eq, s) =
      sum_metrics_lem cache (i + 1) iss (cell_get_metrics cell metrics) rest (omega (arith, e))
        (omega (arith, b)) in
    (
      sum,
      sum-next cache i (length iss) cell metrics at ∙ eq,
      record { entries = omega (arith, s.entries, e); bytes = omega (arith, s.bytes, b) },
    )

-- The cells of a cache with a history, from the `i`-th on.
cells-CellsHold :
    (past : List Item) (cache : Cache) (v : CachePast past cache) (n i : ℕ)
    → i + n ≡ cache.cache_header.cell_count
    → (iss : List (List Item)) × CellsHold cache i iss × (length iss ≡ n)
unfolding cell_at
cells-CellsHold past cache v zero i e = ([], none_left, refl)
cells-CellsHold past cache v (suc n) i e =
    let (cell, here) = get_elem?-some v.valid.cells i (omega (arith, e, v.valid.counted)) in
    let at : cell_at cache i ≡ some cell = rw v.valid.there here in
    let w = v.rings i cell at in
    let (iss, hold, len) = cells-CellsHold past cache v n (i + 1) (omega (arith, e)) in
    ((w.before ++ w.post) ∷ iss, next_cell at w.ring hold, ap suc len)

-- A cache from a new file on after calls of `cache_add_chunk` with chunks of 2 to 24 KiB, between which
-- its file may be mapped again, also after a crash. Its cells are rings, and `cache_get_metrics` returns
-- the number of all their chunks and the number of the bytes of these, in 64 bits.
pub CacheFilling-cache_get_metrics :
    (past : List Item) (cache : Cache)
    → CacheFilling past cache
    → (iss : List (List Item)) × (sum : CacheMetrics) × CellsHold cache 0 iss
      × (length iss ≡ cache.cache_header.cell_count)
      × (cache_get_metrics cache ≡ some sum)
      × Summed cache_metrics_init iss sum
unfolding cache_get_metrics cache_metrics_init
CacheFilling-cache_get_metrics past cache was =
    let v = CacheFilling-CachePast past cache was in
    let (iss, hold, len) =
      cells-CellsHold past cache v cache.cache_header.cell_count 0 (omega arith) in
    let (sum, eq, s) =
      sum_metrics_lem cache 0 iss cache_metrics_init hold (omega arith) (omega arith) in
    (iss, sum, hold, len, ap (λ n. sum_metrics cache 0 n cache_metrics_init) (sym len) ∙ eq, s)
