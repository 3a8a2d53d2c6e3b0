-- ===== src/Ring/Metrics.antt =====
-- `cell_get_metrics` of src/theo/cell.c on the ring.
use theo.Base.{ℕ, ◌+◌, ◌%◌, ◌^◌, ◌<◌, ◌≡◌, ap, ◌∙◌, List, ◌++◌, length, length-append, arith}
use theo.CellState.{Cell}
use theo.CellHeader.{cell_header_entry_count, cell_header_byte_count}
use theo.Cell.{CacheMetrics, cell_get_metrics, cell_entry_count, cell_byte_count, sign_extend}
use theo.Ring.Chain.{Item, bytes_in, bytes_in-append}
use theo.Ring.Gap.{few_entries, few_bytes, top_lt}
use theo.Ring.Add.{IsRing}

sign_extend_small : (w : ℕ) → w < 2 ^ 31 → sign_extend w ≡ w
sign_extend_small w h = ground arith

-- On a ring `cell_get_metrics` adds the number of the chunks that are there and the number of their bytes:
-- neither count is taken for a negative one.
pub cell_get_metrics_lem :
    (cell : Cell) (before post : List Item) (metrics : CacheMetrics)
    → IsRing cell before post
    → ((cell_get_metrics cell metrics).entry_count
        ≡ (metrics.entry_count + length (before ++ post)) % 2 ^ 64)
      × ((cell_get_metrics cell metrics).byte_count
          ≡ (metrics.byte_count + bytes_in (before ++ post)) % 2 ^ 64)
unfolding cell_get_metrics cell_entry_count cell_byte_count cell_header_entry_count
    cell_header_byte_count
cell_get_metrics_lem cell before post metrics v =
    let gap = v.ring.gap in
    let entries : cell.cell_header.entry_count ≡ length (before ++ post) =
      omega (arith, gap.entries, length-append before post) in
    let bytes : cell.cell_header.byte_count ≡ bytes_in (before ++ post) =
      omega (arith, gap.bytes, bytes_in-append before post) in
    let few = sign_extend_small cell.cell_header.entry_count (omega (arith, few_entries gap)) in
    let low =
      sign_extend_small cell.cell_header.byte_count (omega (arith, few_bytes gap, top_lt gap)) in
    (
      ap (λ n. (metrics.entry_count + n) % 2 ^ 64) (few ∙ entries),
      ap (λ n. (metrics.byte_count + n) % 2 ^ 64) (low ∙ bytes),
    )
