-- ===== src/Memory.antt =====
-- The bytes of a cell's slab, and what memcpy and memset do to them.
pub mod Laws
use theo.Base.{ℕ, zero, suc, ◌+◌, ◌*◌, ◌/◌, ◌%◌, List, [], ◌∷◌, ◌==◌, if◌then◌else◌}

-- The byte at each offset from `cell->slab`.
abbrev pub Memory : Type 0
Memory = ℕ → ℕ

-- The `n` bytes from offset `a` on.
unfoldable pub read : Memory → ℕ → ℕ → List ℕ
read m a zero = []
read m a (suc n) = m a ∷ read m (a + 1) n

-- memcpy of the bytes of a list to offset `a`.
unfoldable pub write : Memory → ℕ → List ℕ → Memory
write m a [] x = m x
write m a (b ∷ bs) x = if x == a then b else write m (a + 1) bs x

-- A `uint32_t`, least significant byte first.
unfoldable pub load_word : Memory → ℕ → ℕ
load_word m a = m a + 256 * m (a + 1) + 65536 * m (a + 2) + 16777216 * m (a + 3)

unfoldable pub store_word : Memory → ℕ → ℕ → Memory
store_word m a w = write m a (w % 256 ∷ w / 256 % 256 ∷ w / 65536 % 256 ∷ w / 16777216 % 256 ∷ [])
