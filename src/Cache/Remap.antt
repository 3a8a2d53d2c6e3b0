-- ===== src/Cache/Remap.antt =====
-- `cache_init` of src/theo/cache.c on the file of a cache that was in use.
use theo.Base.{
  ℕ, zero, suc, ◌+◌, ◌*◌, ◌-◌, ◌/◌, ◌≤◌, ◌<◌, ◌≡◌, ◌≢◌, ◌⊎◌, refl, sym, ap, ◌∙◌, inl, inr, true,
  false, Option, some, List, [], ◌∷◌, get_elem?, get_elem?-some, leb, ◌>>=◌, arith,
}
use mathlib.Core.Path.{subst}
use theo.Memory.{Memory}
use theo.CacheHeader.{cache_header_magic, cache_header_init}
use theo.CellState.{Cell, CellHeader}
use theo.CellHeader.{cell_header_sane}
use theo.Cell.{cell_init}
use theo.Cache.{Mapping, Cache, cache_cell_size, init_cells, cache_init, cell_at}
use theo.Cache.Laws.{IsCache, made_cell, cache_init_lem}
use theo.Ring.Chain.{Item}
use theo.Ring.Past.{RingOfPast}
use theo.Ring.History.{reopened-RingOfPast, insane-RingOfPast}

-- The cells of the areas from the `i`-th on.
abbrev made_cells : Mapping → ℕ → ℕ → List Cell
made_cells file i zero = []
made_cells file i (suc n) =
    made_cell (file.cell_headers i) (file.slabs i) ∷ made_cells file (i + 1) n

cell_init-made :
    (h : CellHeader) (m : Memory) → cell_init true h m cache_cell_size ≡ some (made_cell h m)
unfolding cell_init
cell_init-made h m = refl

init_cells-made : (file : Mapping) (i n : ℕ) → init_cells file i n ≡ some (made_cells file i n)
unfolding init_cells
init_cells-made file i zero = refl
init_cells-made file i (suc n) =
    rw (cell_init-made (file.cell_headers i) (file.slabs i), init_cells-made file (i + 1) n) refl

made_cells-elem :
    (file : Mapping) (i n k : ℕ) (cell : Cell)
    → get_elem? (made_cells file i n) k ≡ some cell
    → cell ≡ made_cell (file.cell_headers (i + k)) (file.slabs (i + k))
made_cells-elem file i zero k cell h = absurd (ground (arith, h))
made_cells-elem file i (suc n) zero cell h =
    let same : cell ≡ made_cell (file.cell_headers i) (file.slabs i) = ground (arith, h) in
    let at : i ≡ i + 0 = omega arith in
    same ∙ ap (λ j. made_cell (file.cell_headers j) (file.slabs j)) at
made_cells-elem file i (suc n) (suc k) cell h =
    let at : i + 1 + k ≡ i + suc k = omega arith in
    made_cells-elem file (i + 1) n k cell h
    ∙ ap (λ j. made_cell (file.cell_headers j) (file.slabs j)) at

-- The cells of a cache that was made from a file.
pub cache_init-cell :
    (file : Mapping) (size : ℕ) (cache : Cache) (n : ℕ) (cell : Cell)
    → 2 * cache_cell_size ≤ size
    → cache_init file size ≡ some cache
    → cell_at cache n ≡ some cell
    → cell_init true (file.cell_headers n) (file.slabs n) cache_cell_size ≡ some cell
unfolding cache_init cell_at
cache_init-cell file size cache n cell large inits at =
    let two : leb 2 (size / cache_cell_size) ≡ true = ground arith in
    let cells = made_cells file 0 (size / cache_cell_size - 1) in
    let kept : cache_init file size
        ≡ some (record {
          cells = some cells;
          cache_header = cache_header_init file.cache_header (size / cache_cell_size - 1);
        }) =
      rw (two, init_cells-made file 0 (size / cache_cell_size - 1), cache_init) refl in
    let same : cache.cells ≡ some cells = ground (arith, kept, inits) in
    let at' : get_elem? cells n ≡ some cell =
      subst (λ (o : Option (List Cell)). (o >>= λ cs. get_elem? cs n) ≡ some cell) same at in
    let from : 0 + n ≡ n = omega arith in
    cell_init-made (file.cell_headers n) (file.slabs n)
    ∙ ap (λ j. some (made_cell (file.cell_headers j) (file.slabs j))) (sym from)
    ∙ ap some (sym (made_cells-elem file 0 (size / cache_cell_size - 1) n cell at'))

-- On a file of two areas or more, whose header is new or was made for as many cells, `cache_init`
-- returns a valid cache with a cell for each area but the first; the cell at each index is what `cell_init`
-- makes of the area of this index.
pub cache_init-areas :
    (file : Mapping) (size : ℕ)
    → 2 * cache_cell_size ≤ size
    → (file.cache_header.cache_magic ≢ cache_header_magic)
      ⊎ (file.cache_header.cell_count ≡ size / cache_cell_size - 1)
    → (cache : Cache) × (cache_init file size ≡ some cache)
      × IsCache cache
      × (cache.cache_header.cell_count ≡ size / cache_cell_size - 1)
      × ((n : ℕ)
          → n < size / cache_cell_size - 1
          → (cell : Cell) × (cell_at cache n ≡ some cell)
            × (cell_init true (file.cell_headers n) (file.slabs n) cache_cell_size ≡ some cell))
unfolding cell_at
cache_init-areas file size large count =
    let (cache, inits, valid, counted) = cache_init_lem file size large count in
    (
      cache,
      inits,
      valid,
      counted,
      λ n low.
          let (cell, at) = get_elem?-some valid.cells n (omega (arith, valid.counted, counted)) in
          let at' : cell_at cache n ≡ some cell = rw (valid.there) at in
          (cell, at', cache_init-cell file size cache n cell large inits at'),
    )

-- What a file holds of a cache: for each cell, its header and its bytes, or whatever a crash left under a
-- header that is not sane.
abbrev pub IsFileOf : Cache → Mapping → Type 0
IsFileOf cache file =
    (n : ℕ)
    → (cell_header_sane (file.cell_headers n) ≡ false)
      ⊎ ((cell : Cell) × (cell_at cache n ≡ some cell)
          × (file.cell_headers n ≡ cell.cell_header)
          × (file.slabs n ≡ cell.slab))

-- The header of the file is new, or was made for as many cells.
abbrev pub HasCount : Mapping → ℕ → Type 0
HasCount file size =
    (file.cache_header.cache_magic ≢ cache_header_magic)
    ⊎ (file.cache_header.cell_count ≡ size / cache_cell_size - 1)

-- Mapping the file of a cache again keeps the rings, but for those that are made anew.
pub remapped-rings :
    (past : List Item) (cache cache' : Cache) (file : Mapping) (size : ℕ)
    → ((n : ℕ) (cell : Cell) → cell_at cache n ≡ some cell → RingOfPast past cell)
    → IsFileOf cache file
    → 2 * cache_cell_size ≤ size
    → cache_init file size ≡ some cache'
    → (n : ℕ) (cell : Cell) → cell_at cache' n ≡ some cell
    → RingOfPast past cell
remapped-rings past cache cache' file size rings holds large inits n cell at =
    let made = cache_init-cell file size cache' n cell large inits at in
    elim (holds n) [
      | inl insane ↦ insane-RingOfPast past (file.cell_headers n) (file.slabs n) cell insane made
      | inr (old, there, header, slab) ↦ reopened-RingOfPast past old cell (rings n old there) (
          ap (λ h. cell_init true h old.slab cache_cell_size) (sym header)
          ∙ ap (λ m. cell_init true (file.cell_headers n) m cache_cell_size) (sym slab)
          ∙ made)
    ]

pub remapped-IsCache :
    (cache : Cache) (file : Mapping) (size : ℕ)
    → 2 * cache_cell_size ≤ size
    → HasCount file size
    → cache_init file size ≡ some cache
    → IsCache cache
remapped-IsCache cache file size large count inits =
    let (made, eq, valid, counted) = cache_init_lem file size large count in
    let same : made ≡ cache = ground (arith, eq, inits) in subst IsCache same valid
