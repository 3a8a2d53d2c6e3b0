-- ===== src/CacheHeader.antt =====
-- src/theo/cache_header.c and cache_header.h.
use theo.Base.{ℕ, ◌==◌, if◌then◌else◌}

abbrev pub cache_header_magic : ℕ
cache_header_magic = 340865607434

pub record CacheHeader : Type 0 where
  pub cache_magic : ℕ
  pub cell_count : ℕ

-- A header that is there already is kept, with the cell count that it has.
unfoldable pub cache_header_init : CacheHeader → ℕ → CacheHeader
cache_header_init h count =
    if h.cache_magic == cache_header_magic
    then h
    else record { cache_magic = cache_header_magic; cell_count = count }
