-- ===== src/Xmalloc.antt =====
-- src/theo/xmalloc.c: allocation that aborts where memory runs out. `malloc` of the C library is a
-- parameter, and a pointer that is NULL is `none`.
use theo.Base.{ℕ, Bool, true, false, Option, none, some, ◌>>◌, always}

-- Whether a pointer is not NULL.
abbrev pub non_null : {P : Type 0} → Option P → Bool
non_null none = false
non_null (some p) = true

unfoldable pub xmalloc : {P : Type 0} → (ℕ → Option P) → ℕ → Option P
xmalloc malloc size = let ptr = malloc size in always (non_null ptr) >> ptr

-- `free` is given the pointer and returns the memory without it.
unfoldable pub xfree : {P W : Type 0} → (P → W → W) → Option P → W → Option W
xfree free none w = none
xfree free (some p) w = some (free p w)
