-- ===== src/Cache/Chunks.antt =====
-- Adding a chunk to a cache and getting it back, and the other chunks.
use theo.Base.{
  ℕ, ◌+◌, ◌^◌, ◌≤◌, ◌<◌, ◌≡◌, ◌≢◌, refl, sym, ◌∙◌, inl, inr, some, none, List, true, length, ◌==◌,
  ==_refl, Bool-cases, arith,
}
use theo.Checksum.{Checksum}
use theo.CellDir.{block_no}
use theo.CellState.{Cell}
use theo.CellBody.{top_offset, next_offset, cell_body_free_space}
use theo.Chunk.{Chunk}
use theo.Cell.{cell_get_chunk}
use theo.Cell.Valid.{IsCell, IsQuiet, overflowed, listed}
use theo.Cell.Chunks.{Holds, cell_add_chunk_lem}
use theo.Cache.{Cache, cache_get_cell_index, cell_at, cache_add_chunk, cache_get_chunk}
use theo.Cache.Laws.{IsCache, cache_add_chunk_lem}

-- Getting from the cell of the checksum.
pub get-at :
    (cache : Cache) (c : Checksum) (chunk : Chunk) (cell : Cell)
    → cell_at cache (cache_get_cell_index cache c) ≡ some cell
    → cache_get_chunk cache c chunk ≡ cell_get_chunk cell c chunk
unfolding cache_get_chunk
get-at cache c chunk cell at = rw (at, cache_get_chunk)

-- Where the cells of the checksum are the same, so is what is got.
get-same :
    (cache cache' : Cache) (c : Checksum) (chunk : Chunk)
    → cell_at cache' (cache_get_cell_index cache' c) ≡ cell_at cache (cache_get_cell_index cache c)
    → cache_get_chunk cache' c chunk ≡ cache_get_chunk cache c chunk
unfolding cache_get_chunk
get-same cache cache' c chunk same = rw (same, cache_get_chunk)

index-header :
    (cache cache' : Cache) (c : Checksum)
    → cache'.cache_header ≡ cache.cache_header
    → cache_get_cell_index cache' c ≡ cache_get_cell_index cache c
unfolding cache_get_cell_index
index-header cache cache' c same = rw same refl

module _ (cache : Cache) (cell : Cell) (c : Checksum) (buffer : List ℕ) (valid : IsCache cache)
    (at : cell_at cache (cache_get_cell_index cache c) ≡ some cell) (v : IsCell cell)
    (quiet : IsQuiet cell) (bytes : length c ≡ 32) (low : block_no c < 256)
    (fresh : listed cell c ≡ none) (few : overflowed cell < 4095) (short : length buffer < 2 ^ 15)
    (room : length buffer + 72 ≤ cell_body_free_space cell)
    (at_top : next_offset cell ≡ top_offset cell) where
  -- In a valid cache, where the cell of the checksum is valid and sane with its next entry at the top,
  -- fewer than 4095 overflowed entries and room for a chunk of less than 32 KiB that is not listed: the
  -- call that adds the chunk returns true, the cache is valid, the chunk can be got with its bytes, and
  -- getting any other chunk, from whichever cell, gives what it gave.
  pub cache_add_chunk-get :
      (cache' : Cache) × (cache_add_chunk cache c buffer ≡ some (true, cache'))
      × IsCache cache'
      × ((chunk : Chunk)
          → (chunk' : Chunk) × (cache_get_chunk cache' c chunk ≡ some (true, chunk'))
            × Holds chunk' c buffer)
      × ((k : Checksum) (chunk : Chunk)
          → k ≢ c
          → block_no k < 256
          → cache_get_chunk cache' k chunk ≡ cache_get_chunk cache k chunk)
  cache_add_chunk-get =
      let (cell', adds, added) =
        cell_add_chunk_lem cell c buffer v quiet bytes low fresh few short room at_top in
      let (cache', returned, valid', header, cells) =
        cache_add_chunk_lem cache c buffer cell cell' true valid at adds in
      let index = λ (k : Checksum). index-header cache cache' k header in
      let own : cell_at cache' (cache_get_cell_index cache' c) ≡ some cell' =
        rw (index c, cells (cache_get_cell_index cache c), ==_refl (cache_get_cell_index cache c))
          refl in
      (
        cache',
        returned,
        valid',
        λ chunk. rw (get-at cache' c chunk cell' own) (added.got chunk),
        λ k chunk ne lo.
            elim (Bool-cases (cache_get_cell_index cache c == cache_get_cell_index cache k)) [
              | inl same ↦
                  let here : cell_at cache' (cache_get_cell_index cache' k) ≡ some cell' =
                    rw (index k, cells (cache_get_cell_index cache k), same) refl in
                  let there : cell_at cache (cache_get_cell_index cache k) ≡ some cell =
                    ground (arith, at, same) in
                  get-at cache' k chunk cell' here
                  ∙ added.same k ne lo chunk
                  ∙ sym (get-at cache k chunk cell there)
              | inr differs ↦
                  get-same cache cache' k chunk
                    (rw (index k, cells (cache_get_cell_index cache k), differs) refl)
            ],
      )
