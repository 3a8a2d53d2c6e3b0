-- ===== src/CacheManager.antt =====
-- src/theo/cache_manager.c: the cache file, made and mapped.
pub mod Files
pub mod Release
pub mod Opens
pub mod Store
pub mod Life
use theo.Base.{
  ℕ, zero, suc, ◌+◌, ◌-◌, ◌*◌, ◌/◌, ◌%◌, ◌^◌, Bool, true, false, Option, none, some, List, ◌==◌,
  ltb, if◌then◌else◌, ◌>>=◌, ◌>>◌, always,
}
use theo.Checksum.{Checksum}
use theo.Memory.{Memory}
use theo.Chunk.{Chunk}
use theo.Cell.{CacheMetrics}
use theo.Cache.{
  Mapping, Cache, cache_init, cache_release, cache_add_chunk, cache_has_chunk, cache_get_chunk,
  cache_get_metrics,
}
use theo.CacheHeader.{CacheHeader}
use theo.Msys.{Msys, Mapped, mapped, not_supported, map_failed}

abbrev pub cache_manager_mb : ℕ
cache_manager_mb = 1048576

-- `ptr` is NULL, here `none`, while nothing is mapped; `fd` is -1, here `none`, while no file is
-- open. What the pointer leads to is the mapping.
pub record CacheManager : Type 0 where
  pub cache : Cache
  pub ptr : Option Mapping
  pub memory_size : ℕ
  pub fd : Option ℕ
  pub dax : Bool

-- A call that returns 0, or that fails with a negative number.
pub data Status : Type 0 where
  ok : Status
  failed : Status

unfoldable pub cache_manager_init : CacheManager
cache_manager_init = record {
  cache = record { cells = none; cache_header = record { cache_magic = 0; cell_count = 0 } };
  ptr = none;
  memory_size = 0;
  fd = none;
  dax = false;
}

unfoldable pub cache_manager_filesize : ℕ → ℕ
cache_manager_filesize requested = ((requested / cache_manager_mb + 1) * cache_manager_mb) % 2 ^ 64

-- The buffer that is written to a new file, which memset sets to 0.
abbrev pub zero_buffer : Memory
zero_buffer i = 0

-- A step on the system that may abort.
module _ {W : Type 0} (sys : Msys W Mapping) where
  open sys use {open_file, write, fsync, close, stat, unlink, mmap, munmap, destroy}

  -- A round of the inner loop of `cache_manager_create_file` after its call of write; `again` is
  -- the next one.
  abbrev pub after_write : (ℕ → W → Option (Status × W)) → ℕ → Option ℕ × W → Option (Status × W)
  after_write again written (none, w) = some (failed, w)
  after_write again written (some n, w) =
      let rest = again (written + n) w in
      if ltb (written + n) cache_manager_mb then rest else some (ok, w)

  -- That loop: `written` bytes of the area are written. `none` is the end of the fuel.
  unfoldable pub write_area : ℕ → ℕ → ℕ → W → Option (Status × W)
  write_area zero fd written w = none
  write_area (suc fuel) fd written w =
      after_write (write_area fuel fd) written
        (write fd (λ i. zero_buffer (written + i)) (cache_manager_mb - written) w)

  abbrev pub next_area : (W → Option (Status × W)) → Status × W → Option (Status × W)
  next_area again (ok, w) = again w
  next_area again (failed, w) = some (failed, w)

  -- The outer loop, `mb` areas left.
  unfoldable pub write_areas : ℕ → ℕ → W → Option (Status × W)
  write_areas zero fd w = some (ok, w)
  write_areas (suc mb) fd w =
      write_area (cache_manager_mb + 1) fd 0 w >>= next_area (write_areas mb fd)

  -- `msys_close`, which must succeed.
  abbrev pub close_file : ℕ → W → Option W
  close_file fd w = let (r, w') = close fd w in always r >> some w'

  -- `msys_fsync` after all areas were written, which must succeed; the other way to `err`.
  abbrev pub sync_file : ℕ → Status → W → Option W
  sync_file fd ok w = let (r, w') = fsync fd w in always r >> some w'
  sync_file fd failed w = some w

  -- `cache_manager_create_file` after its loops, and after its call of open.
  abbrev pub finish_file : ℕ → Status × W → Option (Status × W)
  finish_file fd (r, w) = sync_file fd r w >>= λ w₁. close_file fd w₁ >>= λ w₂. some (r, w₂)

  abbrev pub fill_file : ℕ → Option ℕ × W → Option (Status × W)
  fill_file size (none, w) = some (failed, w)
  fill_file size (some fd, w) = write_areas (size / cache_manager_mb) fd w >>= finish_file fd

  -- `none` is an abort.
  unfoldable pub cache_manager_create_file : ℕ → W → Option (Status × W)
  cache_manager_create_file size w = fill_file size (open_file true w)

  -- `cache_manager_check_file` where the file has another size, after `msys_unlink`.
  abbrev pub after_unlink : ℕ → Bool × W → Option (Status × W)
  after_unlink required (false, w) = some (failed, w)
  after_unlink required (true, w) = cache_manager_create_file required w

  abbrev pub after_stat : ℕ → Option ℕ × W → Option (Status × W)
  after_stat required (none, w) = cache_manager_create_file required w
  after_stat required (some size, w) =
      if size == required then some (ok, w) else after_unlink required (unlink w)

  unfoldable pub cache_manager_check_file : ℕ → W → Option (Status × W)
  cache_manager_check_file required w = after_stat required (stat w)

  abbrev pub unmap : CacheManager → W → Option (CacheManager × W)
  unmap manager w = elim manager.ptr [
    | none ↦ some (manager, w)
    | some ptr ↦
        let (r, w') = munmap ptr manager.memory_size w in
        always r >> some (record manager { ptr = none }, w')
  ]

  abbrev pub close_cache : CacheManager → W → Option (CacheManager × W)
  close_cache manager w = elim manager.fd [
    | none ↦ some (manager, w)
    | some fd ↦ close_file fd w >>= λ w'. some (record manager { fd = none }, w')
  ]

  unfoldable pub cache_manager_release : CacheManager → W → Option (CacheManager × W)
  cache_manager_release manager w = cache_release destroy manager.cache >>= λ cache.
      unmap (record manager { cache = cache }) w >>= λ (manager', w'). close_cache manager' w'

  -- `cache_manager_open_cache` where the file is mapped.
  abbrev pub use_mapping : CacheManager → Bool → Mapping → W → Option (Status × CacheManager × W)
  use_mapping manager dax file w = cache_init file manager.memory_size >>= λ cache.
      some (ok, record manager { dax = dax; ptr = some file; cache = cache }, w)

  -- The label `err`.
  abbrev pub give_up : CacheManager → W → Option (Status × CacheManager × W)
  give_up manager w =
      cache_manager_release manager w >>= λ (manager', w'). some (failed, manager', w')

  -- The second call of `msys_mmap`, without MAP_SYNC.
  abbrev pub map_plain : CacheManager → Mapped Mapping × W → Option (Status × CacheManager × W)
  map_plain manager (mapped file, w) = use_mapping manager manager.dax file w
  map_plain manager (not_supported, w) = give_up manager w
  map_plain manager (map_failed, w) = give_up manager w

  abbrev pub map_file : CacheManager → ℕ → Mapped Mapping × W → Option (Status × CacheManager × W)
  map_file manager fd (mapped file, w) = use_mapping manager true file w
  map_file manager fd (not_supported, w) = map_plain manager (mmap false fd manager.memory_size w)
  map_file manager fd (map_failed, w) = give_up manager w

  abbrev pub open_checked : CacheManager → Option ℕ × W → Option (Status × CacheManager × W)
  open_checked manager (none, w) = some (failed, record manager { fd = none }, w)
  open_checked manager (some fd, w) =
      map_file (record manager { fd = some fd }) fd (mmap true fd manager.memory_size w)

  -- `cache_manager_open_cache` after `cache_manager_check_file`.
  abbrev pub open_file_checked : CacheManager → Status × W → Option (Status × CacheManager × W)
  open_file_checked manager (ok, w) = open_checked manager (open_file false w)
  open_file_checked manager (failed, w) = some (failed, manager, w)

  unfoldable pub cache_manager_open_cache :
      CacheManager → ℕ → W → Option (Status × CacheManager × W)
  cache_manager_open_cache manager cache_size w =
      let size : ℕ = cache_manager_filesize cache_size in
      cache_manager_check_file size w >>= open_file_checked (record manager { memory_size = size })

abbrev pub with_cache : CacheManager → Cache → CacheManager
with_cache manager cache = record manager { cache = cache }

unfoldable pub cache_manager_add_chunk :
    CacheManager → Checksum → List ℕ → Option (Bool × CacheManager)
cache_manager_add_chunk manager c buffer =
    cache_add_chunk manager.cache c buffer >>= λ (added, cache).
    some (added, with_cache manager cache)

unfoldable pub cache_manager_has_chunk : CacheManager → Checksum → Option Bool
cache_manager_has_chunk manager c = cache_has_chunk manager.cache c

unfoldable pub cache_manager_get_chunk : CacheManager → Checksum → Chunk → Option (Bool × Chunk)
cache_manager_get_chunk manager c chunk = cache_get_chunk manager.cache c chunk

unfoldable pub cache_manager_cache_metrics : CacheManager → Option CacheMetrics
cache_manager_cache_metrics manager = cache_get_metrics manager.cache
