-- ===== src/CacheManager/Files.antt =====
-- The size and the making of the cache file, and what is held after opening and releasing it.
use theo.Base.{
  ℕ, zero, suc, ◌+◌, ◌-◌, ◌/◌, ◌%◌, ◌^◌, ◌≤◌, ◌<◌, ◌≡◌, ◌≢◌, refl, sym, ap, ◌∙◌, inl, inr, Bool,
  true, false, Option, none, some, List, ltb, Bool-cases, ◌>>=◌, >>=-eq_some, arith,
}
use theo.CellState.{Cell}
use theo.Cache.{Mapping, Cache, cache_init, release_cells, release_array, cache_release}
use theo.Memory.{Memory}
use theo.Msys.{Msys, Mapped, mapped, not_supported, map_failed}
use theo.CacheManager.{
  cache_manager_mb, CacheManager, Status, ok, failed, cache_manager_filesize, write_area,
  write_areas, after_write, next_area, finish_file, fill_file, cache_manager_create_file,
  cache_manager_check_file, cache_manager_release, use_mapping, give_up, map_plain, map_file,
  open_checked, open_file_checked, cache_manager_open_cache,
}

-- For a size below 2^63 the file is a whole number of areas, and larger than the size by at most one.
pub cache_manager_filesize_lem :
    (n : ℕ)
    → n < 2 ^ 63
    → (cache_manager_filesize n % cache_manager_mb ≡ 0)
      × (n < cache_manager_filesize n)
      × (cache_manager_filesize n ≤ n + cache_manager_mb)
unfolding cache_manager_filesize
cache_manager_filesize_lem n h = omega arith

-- A cache that was released has no cells, and one that has none is released as it is.
release_array-cells :
    (destroyed : ℕ → Bool) (cache cache' : Cache) (o : Option (List Cell))
    → cache.cells ≡ o
    → release_array destroyed cache o ≡ some cache'
    → cache'.cells ≡ none
release_array-cells destroyed cache cache' none e h =
    let same : cache ≡ cache' = ground (arith, h) in ap (λ (c : Cache). c.cells) (sym same) ∙ e
release_array-cells destroyed cache cache' (some cells) e h =
    let (left, e', same) =
      >>=-eq_some (release_cells destroyed 0 cache.cache_header.cell_count cells) _ h in
    let one : record cache { cells = none } ≡ cache' = ground (arith, same) in
    ap (λ (c : Cache). c.cells) (sym one)

cache_release-cells :
    (destroyed : ℕ → Bool) (cache cache' : Cache)
    → cache_release destroyed cache ≡ some cache'
    → cache'.cells ≡ none
unfolding cache_release
cache_release-cells destroyed cache cache' h =
    release_array-cells destroyed cache cache' cache.cells refl h

pub cache_release-none :
    (destroyed : ℕ → Bool) (cache : Cache)
    → cache.cells ≡ none
    → cache_release destroyed cache ≡ some cache
unfolding cache_release
cache_release-none destroyed cache e = ap (release_array destroyed cache) e

module _ {W : Type 0} (sys : Msys W Mapping) where
  open sys use {write, fsync, close, stat, unlink, open_file, mmap, munmap}

  -- Each call of write takes at least a byte, or fails.
  abbrev pub Progress : Type 0
  Progress =
      (fd : ℕ) (bytes : Memory) (count : ℕ) (w : W)
      → 0 < count
      → (write fd bytes count w).0 ≢ some 0

  -- Syncing and closing the file succeed.
  abbrev pub Closes : Type 0
  Closes = ((fd : ℕ) (w : W) → (fsync fd w).0 ≡ true) × ((fd : ℕ) (w : W) → (close fd w).0 ≡ true)

  -- The call returns.
  abbrev pub Ends : Option (Status × W) → Type 0
  Ends o = (r : Status × W) × (o ≡ some r)

  after_write_lem :
      (again : ℕ → W → Option (Status × W)) (written : ℕ) (r : Option ℕ × W)
      → r.0 ≢ some 0
      → ((n : ℕ) (w : W) → written < n → n < cache_manager_mb → Ends (again n w))
      → Ends (after_write sys again written r)
  after_write_lem again written (none, w) progress goes = (_, refl)
  after_write_lem again written (some n, w) progress goes =
      elim (Bool-cases (ltb (written + n) cache_manager_mb)) [
        | inl more ↦ rw more (goes (written + n) w (ground (arith, progress)) (ground arith))
        | inr full ↦ rw full (_, refl)
      ]

  write_area_lem :
      Progress
      → (fuel fd written : ℕ) (w : W) → written < cache_manager_mb
      → cache_manager_mb < written + fuel
      → Ends (write_area sys fuel fd written w)
  unfolding write_area
  write_area_lem progress zero fd written w lt enough = absurd (omega arith)
  write_area_lem progress (suc fuel) fd written w lt enough =
      after_write_lem (write_area sys fuel fd) written _
        (progress fd _ (cache_manager_mb - written) w (omega arith))
        (λ n w' more lt'. write_area_lem progress fuel fd n w' lt' (omega arith))

  next_area_lem :
      (again : W → Option (Status × W)) (o : Option (Status × W))
      → Ends o
      → ((w : W) → Ends (again w))
      → Ends (o >>= next_area sys again)
  next_area_lem again o ((ok, w), e) goes = rw e (goes w)
  next_area_lem again o ((failed, w), e) goes = rw e (_, refl)

  write_areas_lem : Progress → (mb fd : ℕ) (w : W) → Ends (write_areas sys mb fd w)
  unfolding write_areas
  write_areas_lem progress zero fd w = (_, refl)
  write_areas_lem progress (suc mb) fd w =
      next_area_lem (write_areas sys mb fd) _
        (write_area_lem progress (cache_manager_mb + 1) fd 0 w (omega arith) (omega arith))
        (write_areas_lem progress mb fd)

  finish_file_lem :
      Closes → (fd : ℕ) (o : Option (Status × W)) → Ends o → Ends (o >>= finish_file sys fd)
  finish_file_lem closes fd o ((ok, w), e) = rw (e, closes.0 fd w) (rw (closes.1 fd _) (_, refl))
  finish_file_lem closes fd o ((failed, w), e) = rw (e, closes.1 fd w) (_, refl)

  fill_file_lem : Progress → Closes → (size : ℕ) (r : Option ℕ × W) → Ends (fill_file sys size r)
  fill_file_lem progress closes size (none, w) = (_, refl)
  fill_file_lem progress closes size (some fd, w) =
      finish_file_lem closes fd _ (write_areas_lem progress (size / cache_manager_mb) fd w)

  -- Where a write takes at least a byte or fails, and syncing and closing succeed,
  -- `cache_manager_create_file` returns, for every size, short writes and failures included.
  pub cache_manager_create_file_lem :
      Progress → Closes → (size : ℕ) (w : W) → Ends (cache_manager_create_file sys size w)
  unfolding cache_manager_create_file
  cache_manager_create_file_lem progress closes size w =
      fill_file_lem progress closes size (open_file true w)

  -- After `cache_manager_release` nothing is mapped and no file is open.
  pub cache_manager_release_lem :
      (manager manager' : CacheManager) (w w' : W)
      → cache_manager_release sys manager w ≡ some (manager', w')
      → (manager'.fd ≡ none) × (manager'.ptr ≡ none) × (manager'.cache.cells ≡ none)
  unfolding cache_manager_release
  cache_manager_release_lem manager manager' w w' h =
      let (cache, e, e') = >>=-eq_some (cache_release sys.destroy manager.cache) _ h in
      let no_cells = cache_release-cells sys.destroy manager.cache cache e in
      ground (arith, no_cells)

  -- Nothing is mapped, no file is open, there are no cells.
  pub record IsClosed (manager : CacheManager) : Type 0 where
    pub no_file : manager.fd ≡ none
    pub no_mapping : manager.ptr ≡ none
    pub no_cells : manager.cache.cells ≡ none

  -- A file is open and mapped, and the cache is what `cache_init` makes of the mapping.
  pub record IsOpen (manager : CacheManager) : Type 0 where
    pub fd : ℕ
    pub file : Mapping
    pub a_file : manager.fd ≡ some fd
    pub a_mapping : manager.ptr ≡ some file
    pub cells : cache_init file manager.memory_size ≡ some manager.cache

  abbrev pub Opened : Status → CacheManager → Type 0
  Opened ok manager = IsOpen manager
  Opened failed manager = IsClosed manager

  -- What a call says that returned.
  abbrev Result : Option (Status × CacheManager × W) → Type 0
  Result o =
      (r : Status) (manager : CacheManager) (w : W) → o ≡ some (r, manager, w) → Opened r manager

  give_up_lem : (manager : CacheManager) (w : W) → Result (give_up sys manager w)
  give_up_lem manager w r manager' w' h =
      let (released, e, e') = >>=-eq_some (cache_manager_release sys manager w) _ h in
      let out = cache_manager_release_lem manager released.0 w released.1 e in
      let r_failed : r ≡ failed = ground arith in
      let same : manager' ≡ released.0 = ground arith in
      rw (r_failed, same) (record { no_file = out.0; no_mapping = out.1; no_cells = out.2 })

  use_mapping_lem :
      (manager : CacheManager) (fd : ℕ) (dax : Bool) (file : Mapping) (w : W)
      → manager.fd ≡ some fd
      → Result (use_mapping sys manager dax file w)
  use_mapping_lem manager fd dax file w is_fd r manager' w' h =
      let (cache, e, e') = >>=-eq_some (cache_init file manager.memory_size) _ h in
      let r_ok : r ≡ ok = ground arith in
      let same : manager' ≡ record manager { dax = dax; ptr = some file; cache = cache } =
        ground arith in
      rw (r_ok, same) (record { fd = fd; file = file; a_file = is_fd; a_mapping = refl; cells = e })

  map_plain_lem :
      (manager : CacheManager) (fd : ℕ) (r : Mapped Mapping × W)
      → manager.fd ≡ some fd
      → Result (map_plain sys manager r)
  map_plain_lem manager fd (mapped file, w) is_fd = use_mapping_lem manager fd _ file w is_fd
  map_plain_lem manager fd (not_supported, w) is_fd = give_up_lem manager w
  map_plain_lem manager fd (map_failed, w) is_fd = give_up_lem manager w

  map_file_lem :
      (manager : CacheManager) (fd : ℕ) (r : Mapped Mapping × W)
      → manager.fd ≡ some fd
      → Result (map_file sys manager fd r)
  map_file_lem manager fd (mapped file, w) is_fd = use_mapping_lem manager fd _ file w is_fd
  map_file_lem manager fd (not_supported, w) is_fd =
      map_plain_lem manager fd (mmap false fd manager.memory_size w) is_fd
  map_file_lem manager fd (map_failed, w) is_fd = give_up_lem manager w

  open_checked_lem :
      (manager : CacheManager) (r : Option ℕ × W)
      → IsClosed manager
      → Result (open_checked sys manager r)
  open_checked_lem manager (none, w) closed = λ r manager' w' h.
      let r_failed : r ≡ failed = ground arith in
      let same : manager' ≡ record manager { fd = none } = ground arith in
      rw (r_failed, same)
        (record { no_file = refl; no_mapping = closed.no_mapping; no_cells = closed.no_cells })
  open_checked_lem manager (some fd, w) closed =
      map_file_lem (record manager { fd = some fd }) fd (mmap true fd manager.memory_size w) refl

  open_file_checked_lem :
      (manager : CacheManager) (r : Status × W)
      → IsClosed manager
      → Result (open_file_checked sys manager r)
  open_file_checked_lem manager (ok, w) closed = open_checked_lem manager (open_file false w) closed
  open_file_checked_lem manager (failed, w) closed = λ r manager' w' h.
      let r_failed : r ≡ failed = ground arith in
      let same : manager' ≡ manager = ground arith in rw (r_failed, same) closed

  -- From a closed manager, a call of `cache_manager_open_cache` that returns has opened the cache, or
  -- has failed and left nothing open.
  pub cache_manager_open_cache_lem :
      (manager : CacheManager) (size : ℕ) (w : W) (r : Status) (manager' : CacheManager) (w' : W)
      → IsClosed manager
      → cache_manager_open_cache sys manager size w ≡ some (r, manager', w')
      → Opened r manager'
  unfolding cache_manager_open_cache
  cache_manager_open_cache_lem manager size w r manager' w' closed h =
      let n : ℕ = cache_manager_filesize size in
      let (checked, e, e') = >>=-eq_some (cache_manager_check_file sys n w) _ h in
      open_file_checked_lem (record manager { memory_size = n }) checked
        (record {
          no_file = closed.no_file;
          no_mapping = closed.no_mapping;
          no_cells = closed.no_cells;
        })
        r manager' w' e'
