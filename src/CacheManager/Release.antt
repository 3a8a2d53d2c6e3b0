-- ===== src/CacheManager/Release.antt =====
-- `cache_manager_release` of src/theo/cache_manager.c and `cache_release` of src/theo/cache.c.
use theo.Base.{ℕ, ◌≡◌, Bool, true, Option, some, length}
use theo.CellState.{Cell}
use theo.Cache.{Mapping, Cache}
use theo.Msys.{Msys}
use theo.CacheManager.{CacheManager}
use theo.CacheManager.Files.{IsClosed}

-- Every mutex can be destroyed.
abbrev pub Destroys : (ℕ → Bool) → Type 0
Destroys destroyed = (i : ℕ) → destroyed i ≡ true

module _ {W : Type 0} (sys : Msys W Mapping) where
  -- munmap succeeds.
  abbrev pub Unmaps : Type 0
  Unmaps = (file : Mapping) (length : ℕ) (w : W) → (sys.munmap file length w).0 ≡ true

  -- The call returns, and leaves nothing open.
  abbrev pub ReturnsClosed : Option (CacheManager × W) → Type 0
  ReturnsClosed o =
      (manager : CacheManager) × (w : W) × (o ≡ some (manager, w)) × IsClosed sys manager
