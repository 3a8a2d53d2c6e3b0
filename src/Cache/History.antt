-- ===== src/Cache/History.antt =====
-- A cache from its start on: any number of calls of `cache_add_chunk` and `cache_init` of
-- src/theo/cache.c, one after another.
use theo.Base.{
  ◌*◌, ◌≤◌, ℕ, ◌<◌, ◌≡◌, ◌⊎◌, refl, ◌∙◌, inl, inr, Bool, true, false, none, some, List, [], ◌∷◌,
  ◌==◌, Bool-cases, arith,
}
use mathlib.Core.List.{Mem, mem-cons_of_mem}
use mathlib.Core.Path.{subst}
use theo.Checksum.{Checksum}
use theo.CellDir.{block_no}
use theo.CellState.{Cell}
use theo.Chunk.{Chunk}
use theo.Cell.{cell_add_chunk}
use theo.Cell.Chunks.{filled}
use theo.Ring.Chain.{Item, IsItem}
use theo.Ring.Offset.{IsStuck}
use theo.Ring.Past.{RingOfPast, NextOfPast, called, past-get}
use theo.Ring.History.{insane-RingOfPast}
use theo.CellHeader.{cell_header_sane}
use theo.Cache.Remap.{IsFileOf, HasCount, cache_init-cell, remapped-rings, remapped-IsCache}
use theo.Cache.{
  Mapping, Cache, cache_cell_size, cache_init, cache_get_cell_index, cell_at, cache_add_chunk,
  cache_get_chunk,
}
use theo.Cache.Laws.{IsCache, cell_at_lem, cache_add_chunk_lem}
use theo.Cache.Chunks.{get-at}

-- A cache after calls with these chunks, the last first, from a new file on. Between the calls the file may
-- be unmapped and mapped again, also after a crash.
pub data CacheFilling : List Item → Cache → Type 0 where
  opened :
      {cache : Cache} (file : Mapping) (size : ℕ)
      → ((n : ℕ) → cell_header_sane (file.cell_headers n) ≡ false)
      → 2 * cache_cell_size ≤ size
      → HasCount file size
      → cache_init file size ≡ some cache
      → CacheFilling [] cache
  reopened :
      {past : List Item} {cache cache' : Cache} (file : Mapping) (size : ℕ)
      → CacheFilling past cache
      → IsFileOf cache file
      → 2 * cache_cell_size ≤ size
      → HasCount file size
      → cache_init file size ≡ some cache'
      → CacheFilling past cache'
  stored :
      {past : List Item} {cache cache' : Cache} {i : Item} {b : Bool}
      → CacheFilling past cache
      → IsItem i
      → cache_add_chunk cache i.checksum i.bytes ≡ some (b, cache')
      → CacheFilling (i ∷ past) cache'

-- Every cell is a ring of chunks that were given to the cache.
pub record CachePast (past : List Item) (cache : Cache) : Type 0 where
  pub valid : IsCache cache
  pub rings : (n : ℕ) (cell : Cell) → cell_at cache n ≡ some cell → RingOfPast past cell

RingOfPast-more :
    (past : List Item) (cell : Cell) (i : Item) → RingOfPast past cell → RingOfPast (i ∷ past) cell
RingOfPast-more past cell i v = record {
  before = v.before;
  post = v.post;
  ring = v.ring;
  given = λ c j h. mem-cons_of_mem i (v.given c j h);
}

-- One more call.
record NextOfCache (past : List Item) (cache : Cache) (i : Item) : Type 0 where
  pub b : Bool
  pub cache' : Cache
  pub returns : cache_add_chunk cache i.checksum i.bytes ≡ some (b, cache')
  pub after : CachePast (i ∷ past) cache'

module _ (past : List Item) (cache : Cache) (i : Item) (v : CachePast past cache)
    (item : IsItem i) where
  abbrev index : ℕ
  index = cache_get_cell_index cache i.checksum

  returned :
      (cell : Cell)
      → cell_at cache index ≡ some cell
      → NextOfPast past cell i
      → NextOfCache past cache i
  returned cell at next =
      let (cache', eq, valid', header, cells) =
        cache_add_chunk_lem cache i.checksum i.bytes cell next.cell' next.b v.valid at
          next.returns in
      record {
        b = next.b;
        cache' = cache';
        returns = eq;
        after = record {
          valid = valid';
          rings = λ n c there. elim (Bool-cases (index == n)) [
            | inl same ↦
                let eq' : next.cell' ≡ c = ground (arith, cells n, there, same) in
                subst (RingOfPast (i ∷ past)) eq' next.after
            | inr differs ↦
                RingOfPast-more past c i (v.rings n c (ground (arith, cells n, there, differs)))
          ];
        };
      }

  aborts :
      (cell : Cell)
      → cell_at cache index ≡ some cell
      → cell_add_chunk cell i.checksum i.bytes ≡ none
      → cache_add_chunk cache i.checksum i.bytes ≡ none
  unfolding cache_add_chunk
  aborts cell at eq = rw (at, eq) refl

  -- The one reason for an abort, in the cell of the checksum.
  abbrev Stops : Type 0
  Stops =
      (cache_add_chunk cache i.checksum i.bytes ≡ none)
      × ((cell : Cell) × (post : List Item) × (cell_at cache index ≡ some cell)
          × IsStuck cell i post)

  cache_called : NextOfCache past cache i ⊎ Stops
  cache_called =
      let (cell, at) = cell_at_lem cache i.checksum v.valid in
      let w = v.rings index cell at in
      elim (called past cell i w item) [
        | inl next ↦ inl (returned cell at next)
        | inr (eq, stuck) ↦ inr (aborts cell at eq, (cell, w.post, at, stuck))
      ]

next_cache :
    (past : List Item) (cache cache' : Cache) (i : Item) (b : Bool)
    → CachePast past cache
    → IsItem i
    → cache_add_chunk cache i.checksum i.bytes ≡ some (b, cache')
    → CachePast (i ∷ past) cache'
next_cache past cache cache' i b v item returns = elim (cache_called past cache i v item) [
  | inl next ↦
      let same : next.cache' ≡ cache' = ground (arith, next.returns, returns) in
      subst (CachePast (i ∷ past)) same next.after
  | inr (eq, stuck) ↦ absurd (ground (arith, eq, returns))
]

pub CacheFilling-CachePast :
    (past : List Item) (cache : Cache) → CacheFilling past cache → CachePast past cache
CacheFilling-CachePast _ _ (opened {cache} file size insane large count inits) = record {
  valid = remapped-IsCache cache file size large count inits;
  rings = λ n cell at.
      insane-RingOfPast [] (file.cell_headers n) (file.slabs n) cell (insane n)
        (cache_init-cell file size cache n cell large inits at);
}
CacheFilling-CachePast _ _
      (reopened {past} {cache} {cache'} file size was holds large count inits) =
    record {
      valid = remapped-IsCache cache' file size large count inits;
      rings =
          remapped-rings past cache cache' file size (CacheFilling-CachePast past cache was).rings
            holds large inits;
    }
CacheFilling-CachePast _ _ (stored {past} {cache} {cache'} {i} {b} was item returns) =
    next_cache past cache cache' i b (CacheFilling-CachePast past cache was) item returns

-- A cache from a new file on after calls of `cache_add_chunk` with chunks of 2 to 24 KiB, between which
-- its file may be mapped again, also after a crash. One more
-- such call returns, or it aborts. It aborts only where in the cell of the checksum the next entry is below
-- the top and has the size of the chunk, fewer than 36 bytes are free, and at most one chunk lies behind
-- the next entry.
pub CacheFilling-cache_add_chunk :
    (past : List Item) (cache : Cache) (i : Item)
    → CacheFilling past cache
    → IsItem i
    → ((b : Bool) × (cache' : Cache) × (cache_add_chunk cache i.checksum i.bytes ≡ some (b, cache'))
        × CacheFilling (i ∷ past) cache')
      ⊎ ((cache_add_chunk cache i.checksum i.bytes ≡ none)
          × ((cell : Cell) × (post : List Item) × (cell_at cache
                  (cache_get_cell_index cache i.checksum)
                ≡ some cell)
              × IsStuck cell i post))
CacheFilling-cache_add_chunk past cache i was item =
    elim (cache_called past cache i (CacheFilling-CachePast past cache was) item) [
      | inl next ↦ inl (next.b, next.cache', next.returns, stored was item next.returns)
      | inr stops ↦ inr stops
    ]

-- A cache from a new file on after calls of `cache_add_chunk` with chunks of 2 to 24 KiB, between
-- which its file may be mapped again, also after a crash. `cache_get_chunk` of a checksum then does
-- not abort. It finds nothing, or it returns the bytes that one of the calls was given under this
-- checksum.
pub CacheFilling-cache_get_chunk :
    (past : List Item) (cache : Cache) (c : Checksum) (chunk : Chunk)
    → CacheFilling past cache
    → block_no c < 256
    → (cache_get_chunk cache c chunk ≡ some (false, chunk))
      ⊎ ((i : Item) × Mem i past
          × (i.checksum ≡ c)
          × (cache_get_chunk cache c chunk ≡ some (true, filled chunk c i.bytes)))
CacheFilling-cache_get_chunk past cache c chunk was low =
    let v = CacheFilling-CachePast past cache was in
    let (cell, at) = cell_at_lem cache c v.valid in
    let gets = get-at cache c chunk cell at in
    elim (past-get past cell c chunk (v.rings (cache_get_cell_index cache c) cell at) low) [
      | inl none' ↦ inl (gets ∙ none')
      | inr (i, given, key, eq) ↦ inr (i, given, key, gets ∙ eq)
    ]
