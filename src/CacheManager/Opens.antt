-- ===== src/CacheManager/Opens.antt =====
-- The calls of `cache_manager_open_cache` of src/theo/cache_manager.c, one after the other.
use theo.Base.{
  ℕ, ◌-◌, ◌*◌, ◌/◌, ◌^◌, ◌≤◌, ◌<◌, ◌≡◌, refl, inl, inr, Bool, true, false, Option, none, some, leb,
  ◌==◌, Bool-cases, Option-cases, arith,
}
use theo.Cache.{Mapping, cache_cell_size, cache_init}
use theo.Cache.Laws.{init_cells_lem}
use theo.Msys.{Msys, Mapped, mapped, not_supported, map_failed}
use theo.CacheManager.{
  cache_manager_mb, CacheManager, Status, ok, failed, cache_manager_filesize, after_unlink,
  after_stat, cache_manager_check_file, cache_manager_release, use_mapping, give_up, map_plain,
  map_file, open_checked, open_file_checked, cache_manager_open_cache,
}
use theo.CacheManager.Files.{
  Progress, Closes, IsClosed, Opened, cache_manager_create_file_lem, cache_manager_filesize_lem,
  cache_manager_open_cache_lem, cache_release-none,
}

abbrev pub Returns : {A : Type 0} → Option A → Type 0
Returns {A} o = (r : A) × (o ≡ some r)

cache_init-Returns :
    (file : Mapping) (size : ℕ) → 2 * cache_cell_size ≤ size → Returns (cache_init file size)
unfolding cache_init
cache_init-Returns file size large =
    let two : leb 2 (size / cache_cell_size) ≡ true = ground arith in
    let made = init_cells_lem file 0 (size / cache_cell_size - 1) in rw (two, made.1) (_, refl)

module _ {W : Type 0} (sys : Msys W Mapping) (progress : Progress sys) (closes : Closes sys) where
  open sys use {stat, unlink, open_file, mmap}

  -- A manager whose file is not mapped is released without a call of munmap.
  release-Returns :
      (manager : CacheManager) (w : W)
      → manager.ptr ≡ none
      → manager.cache.cells ≡ none
      → Returns (cache_manager_release sys manager w)
  unfolding cache_manager_release
  release-Returns manager w unmapped no_cells =
      let released = cache_release-none sys.destroy manager.cache no_cells in
      elim (Option-cases manager.fd) [
        | inl e ↦ rw (released, unmapped, e) (_, refl)
        | inr (fd, e) ↦ rw (released, unmapped, e) (rw (closes.1 fd w) (_, refl))
      ]

  give_up-Returns :
      (manager : CacheManager) (w : W)
      → manager.ptr ≡ none
      → manager.cache.cells ≡ none
      → Returns (give_up sys manager w)
  give_up-Returns manager w unmapped no_cells =
      rw ((release-Returns manager w unmapped no_cells).1) (_, refl)

  use_mapping-Returns :
      (manager : CacheManager) (dax : Bool) (file : Mapping) (w : W)
      → 2 * cache_cell_size ≤ manager.memory_size
      → Returns (use_mapping sys manager dax file w)
  use_mapping-Returns manager dax file w large =
      rw ((cache_init-Returns file manager.memory_size large).1) (_, refl)

  module _ (manager : CacheManager) (unmapped : manager.ptr ≡ none)
      (no_cells : manager.cache.cells ≡ none)
      (large : 2 * cache_cell_size ≤ manager.memory_size) where
    map_plain-Returns : (r : Mapped Mapping × W) → Returns (map_plain sys manager r)
    map_plain-Returns (mapped file, w) = use_mapping-Returns manager manager.dax file w large
    map_plain-Returns (not_supported, w) = give_up-Returns manager w unmapped no_cells
    map_plain-Returns (map_failed, w) = give_up-Returns manager w unmapped no_cells

    map_file-Returns : (fd : ℕ) (r : Mapped Mapping × W) → Returns (map_file sys manager fd r)
    map_file-Returns fd (mapped file, w) = use_mapping-Returns manager true file w large
    map_file-Returns fd (not_supported, w) = map_plain-Returns (mmap false fd manager.memory_size w)
    map_file-Returns fd (map_failed, w) = give_up-Returns manager w unmapped no_cells

  open_checked-Returns :
      (manager : CacheManager) (r : Option ℕ × W)
      → manager.ptr ≡ none
      → manager.cache.cells ≡ none
      → 2 * cache_cell_size ≤ manager.memory_size
      → Returns (open_checked sys manager r)
  open_checked-Returns manager (none, w) unmapped no_cells large = (_, refl)
  open_checked-Returns manager (some fd, w) unmapped no_cells large =
      map_file-Returns (record manager { fd = some fd }) unmapped no_cells large fd
        (mmap true fd manager.memory_size w)

  open_file_checked-Returns :
      (manager : CacheManager) (r : Status × W)
      → manager.ptr ≡ none
      → manager.cache.cells ≡ none
      → 2 * cache_cell_size ≤ manager.memory_size
      → Returns (open_file_checked sys manager r)
  open_file_checked-Returns manager (ok, w) unmapped no_cells large =
      open_checked-Returns manager (open_file false w) unmapped no_cells large
  open_file_checked-Returns manager (failed, w) unmapped no_cells large = (_, refl)

  after_unlink-Returns : (required : ℕ) (r : Bool × W) → Returns (after_unlink sys required r)
  after_unlink-Returns required (false, w) = (_, refl)
  after_unlink-Returns required (true, w) =
      cache_manager_create_file_lem sys progress closes required w

  after_stat-Returns : (required : ℕ) (r : Option ℕ × W) → Returns (after_stat sys required r)
  after_stat-Returns required (none, w) =
      cache_manager_create_file_lem sys progress closes required w
  after_stat-Returns required (some size, w) = elim (Bool-cases (size == required)) [
    | inl same ↦ rw same (_, refl)
    | inr differs ↦ rw differs (after_unlink-Returns required (unlink w))
  ]

  -- Where a write takes at least a byte or fails, and syncing and closing succeed: from a closed manager
  -- and with a size from 1 MiB to below 2^63, `cache_manager_open_cache` returns; it has opened the cache,
  -- or it has failed and left nothing open and nothing mapped.
  pub cache_manager_open_cache_returns :
      (manager : CacheManager) (size : ℕ) (w : W)
      → IsClosed sys manager
      → cache_manager_mb ≤ size
      → size < 2 ^ 63
      → (r : Status) × (manager' : CacheManager) × (w' : W) × (cache_manager_open_cache sys manager
            size w
          ≡ some (r, manager', w'))
        × Opened sys r manager'
  unfolding cache_manager_open_cache cache_manager_check_file
  cache_manager_open_cache_returns manager size w closed large small =
      let n : ℕ = cache_manager_filesize size in
      let fits : 2 * cache_cell_size ≤ n = omega (arith, cache_manager_filesize_lem size small) in
      let checked = after_stat-Returns n (stat w) in
      let out =
        open_file_checked-Returns (record manager { memory_size = n }) checked.0 closed.no_mapping
          closed.no_cells fits in
      let returned : cache_manager_open_cache sys manager size w ≡ some out.0 =
        rw (checked.1) out.1 in
      (
        out.0.0,
        out.0.1,
        out.0.2,
        returned,
        cache_manager_open_cache_lem sys manager size w out.0.0 out.0.1 out.0.2 closed returned,
      )
