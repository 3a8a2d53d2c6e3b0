-- ===== src/CellDirOverflow/Rows.antt =====
-- The entries of the overflow as a list, and how stores to the slab change it.
use theo.Base.{
  ℕ, zero, suc, ◌+◌, ◌*◌, ◌≤◌, ◌<◌, ◌≡◌, refl, ap, ◌∙◌, inl, inr, List, [], ◌∷◌, length, get_or,
  set, arith,
}
use mathlib.Core.Path.{ap₂}
use theo.Memory.{Memory}
use theo.Memory.Laws.{Apart}
use theo.Checksum.{Checksum, checksum_compare_comm}
use theo.CellDirEntry.{CellDirEntry, load_dir_entry, store_dir_entry}
use theo.CellDirEntry.Layout.{
  IsDirEntry, load-store_dir_entry, load-store_dir_entry-Apart, load_dir_entry-agree,
}
use theo.CellDirEntry.Lookup.{used, used-le-length}
use theo.CellDirBlock.{find_entry}
use theo.CellDirOverflow.{find_overflow}

-- The `n` entries from offset `a` on.
unfoldable pub rows : Memory → ℕ → ℕ → List CellDirEntry
rows m a zero = []
rows m a (suc n) = load_dir_entry m a ∷ rows m (a + 36) n

pub length-rows : (m : Memory) (a n : ℕ) → length (rows m a n) ≡ n
unfolding rows
length-rows m a zero = refl
length-rows m a (suc n) = ap suc (length-rows m (a + 36) n)

pub get_or-rows :
    (m : Memory) (a n i : ℕ) (d : CellDirEntry)
    → i < n
    → get_or (rows m a n) i d ≡ load_dir_entry m (a + i * 36)
unfolding rows
get_or-rows m a zero i d h = absurd (omega arith)
get_or-rows m a (suc n) zero d h = ap (load_dir_entry m) (omega arith)
get_or-rows m a (suc n) (suc i) d h =
    get_or-rows m (a + 36) n i d (omega arith) ∙ ap (load_dir_entry m) (omega arith)

module _ (m : Memory) (e : CellDirEntry) (v : IsDirEntry e) where
  pub rows-store-Apart :
      (b a n : ℕ) → Apart b 36 a (n * 36) → rows (store_dir_entry m b e) a n ≡ rows m a n
  unfolding rows
  rows-store-Apart b a zero h = refl
  rows-store-Apart b a (suc n) h =
      ap₂ ◌∷◌ (load-store_dir_entry-Apart m b e a v (omega arith))
        (rows-store-Apart b (a + 36) n (omega arith))

  pub rows-store_at :
      (a n i b : ℕ)
      → i < n
      → b ≡ a + i * 36
      → rows (store_dir_entry m b e) a n ≡ set (rows m a n) i e
  unfolding rows
  rows-store_at a zero i b h at = absurd (omega arith)
  rows-store_at a (suc n) zero b h at =
      let here : b ≡ a = omega arith in
      ap₂ ◌∷◌ (rw here (load-store_dir_entry m a e v))
        (rows-store-Apart b (a + 36) n (inl (omega arith)))
  rows-store_at a (suc n) (suc i) b h at =
      ap₂ ◌∷◌ (load-store_dir_entry-Apart m b e a v (inr (omega arith)))
        (rows-store_at (a + 36) n i b (omega arith) (omega arith))

-- Where every entry is in use, the search through the slab is that through a block.
pub find_overflow-rows :
    (m : Memory) (c : Checksum) (a n : ℕ)
    → used (rows m a n) ≡ n
    → find_overflow m c a n ≡ find_entry c (rows m a n)
unfolding find_overflow find_entry rows used
find_overflow-rows m c a zero h = refl
find_overflow-rows m c a (suc n) h = ground (
  arith,
  checksum_compare_comm c (load_dir_entry m a).checksum,
  used-le-length (rows m (a + 36) n),
  length-rows m (a + 36) n,
  find_overflow-rows m c (a + 36) n,
)

pub rows-push :
    (m : Memory) (a n : ℕ) (e : CellDirEntry)
    → IsDirEntry e
    → rows (store_dir_entry m a e) a (suc n) ≡ e ∷ rows m (a + 36) n
unfolding rows
rows-push m a n e v =
    ap₂ ◌∷◌ (load-store_dir_entry m a e v) (rows-store-Apart m e v a (a + 36) n (inl (omega arith)))

pub rows-agree :
    (m m' : Memory) (a n : ℕ)
    → ((x : ℕ) → a ≤ x → x < a + n * 36 → m' x ≡ m x)
    → rows m' a n ≡ rows m a n
unfolding rows
rows-agree m m' a zero h = refl
rows-agree m m' a (suc n) h =
    ap₂ ◌∷◌ (load_dir_entry-agree m m' a (λ x l u. h x l (omega arith)))
      (rows-agree m m' (a + 36) n (λ x l u. h x (omega arith) (omega arith)))
