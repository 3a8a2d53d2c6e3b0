-- ===== src/CellDir/View.antt =====
-- The directory of a cell as a map from checksums to entries, and its invariant.
use theo.Base.{
  ℕ, ◌+◌, ◌≤◌, ◌<◌, ◌≡◌, ◌≢◌, ◌↔◌, inl, inr, Bool, true, false, Option, none, some, List, length,
  zero, suc, [], ◌∷◌, set, get_or, get_or-set_self, get_or-set_ne, ◌==◌, if◌then◌else◌, Bool-cases,
  arith,
}
use theo.Checksum.{Checksum, checksum_compare_refl}
use theo.Memory.{Memory}
use theo.CellDirEntry.{CellDirEntry}
use theo.CellDirEntry.Lookup.{is_hit, hit_checksum, lookup, count, count-zero, lookup-none, used}
use theo.CellDirBlock.{CellDirBlock, cell_dir_block_init, cell_dir_block_overflowed}
use theo.CellDirBlock.Laws.{IsBlock, cell_dir_block_get_chunk_lem}
use theo.CellDirOverflow.Swap.{spilled, count-le-spilled}
use theo.CellDirOverflow.Laws.{IsOverflow, overflow_entries, cell_dir_overflow_get_chunk_lem}
use theo.CellDir.{CellDir, block_no, block_at, put_block, cell_dir_get_chunk}

-- How many entries the blocks hold, and how many the directory holds.
abbrev pub blocks_used : List CellDirBlock → ℕ
blocks_used [] = 0
blocks_used (b ∷ bs) = used b.entries + blocks_used bs

abbrev pub dir_total : CellDir → ℕ
dir_total d = blocks_used d.blocks + d.overflow.overflow_count

pub blocks_used-set :
    (bs : List CellDirBlock) (i : ℕ) (b : CellDirBlock)
    → i < length bs
    → blocks_used (set bs i b) + used (get_or bs i cell_dir_block_init).entries
      ≡ blocks_used bs + used b.entries
blocks_used-set [] i b h = absurd (omega arith)
blocks_used-set (x ∷ bs) zero b h = omega arith
blocks_used-set (x ∷ bs) (suc i) b h = omega (arith, blocks_used-set bs i b (omega arith))

-- The checksums that block `n` is for.
abbrev pub lands : ℕ → Checksum → Bool
lands n c = block_no c == n

abbrev pub spilt : CellDir → Memory → ℕ → List CellDirEntry
spilt d m bt = overflow_entries d.overflow m bt

-- How many entries the directory holds for a checksum.
abbrev pub held : CellDir → Memory → ℕ → Checksum → ℕ
held d m bt c = count c (block_at d (block_no c)).entries + count c (spilt d m bt)

-- Every block is valid and knows how many of its entries are in the overflow; no checksum has two
-- entries.
pub record IsDir (d : CellDir) (m : Memory) (bt : ℕ) : Type 0 where
  pub size : length d.blocks ≡ 256
  pub blocks_valid : (n : ℕ) → n < 256 → IsBlock (block_at d n)
  pub overflow_valid : IsOverflow d.overflow m bt
  pub routed : (n : ℕ) → n < 256 → (block_at d n).overflow_count ≡ spilled (lands n) (spilt d m bt)
  pub unique : (c : Checksum) → held d m bt c ≤ 1

-- The entry of a checksum: in its block, else in the overflow.
abbrev pub or_else : Option CellDirEntry → Option CellDirEntry → Option CellDirEntry
or_else (some e) o = some e
or_else none o = o

abbrev pub entry_of : CellDir → Memory → ℕ → Checksum → Option CellDirEntry
entry_of d m bt c = or_else (lookup c (block_at d (block_no c)).entries) (lookup c (spilt d m bt))

module _ (d : CellDir) (m : Memory) (bt : ℕ) (v : IsDir d m bt) (c : Checksum) where
  -- The short cut on `overflow_count` loses nothing.
  pub not_overflowed :
      block_no c < 256
      → (block_at d (block_no c)).overflow_count ≡ 0
      → lookup c (spilt d m bt) ≡ none
  not_overflowed h zero' = lookup-none c (spilt d m bt) (
      ground
        (arith, v.routed (block_no c) h, count-le-spilled (lands (block_no c)) c (spilt d m bt)))

  -- On a valid directory the entry that is found is the one of the block of the checksum, or else the one
  -- of the whole overflow: that an overflow is searched only for blocks that count one loses nothing.
  pub cell_dir_get_chunk_lem : block_no c < 256 → cell_dir_get_chunk d m bt c ≡ entry_of d m bt c
  unfolding cell_dir_get_chunk cell_dir_block_overflowed
  cell_dir_get_chunk_lem h = ground (
    arith,
    cell_dir_block_get_chunk_lem (block_at d (block_no c)) (v.blocks_valid (block_no c) h) c,
    cell_dir_overflow_get_chunk_lem d.overflow m bt v.overflow_valid c,
    not_overflowed h,
  )

pub block_at-put :
    (d : CellDir) (n : ℕ) (b : CellDirBlock) (k : ℕ)
    → n < length d.blocks
    → block_at (put_block d n b) k ≡ (if n == k then b else block_at d k)
block_at-put d n b k h = elim (Bool-cases (n == k)) [
  | inl same ↦
      let eq : n ≡ k = ground arith in
      rw same (rw (← eq) (get_or-set_self d.blocks n b cell_dir_block_init h))
  | inr other ↦ rw other (get_or-set_ne d.blocks n k b cell_dir_block_init (ground arith))
]

-- A valid block may be put in the place of another.
pub put-IsBlock :
    (d : CellDir) (n : ℕ) (b : CellDirBlock)
    → length d.blocks ≡ 256
    → n < 256
    → ((k : ℕ) → k < 256 → IsBlock (block_at d k))
    → IsBlock b
    → (k : ℕ) → k < 256
    → IsBlock (block_at (put_block d n b) k)
put-IsBlock d n b size low all valid k h =
    let at = block_at-put d n b k (omega arith) in
    elim (Bool-cases (n == k)) [
      | inl same ↦ rw (at, same) valid
      | inr other ↦ rw (at, other) (all k h)
    ]

pub hit_self : (e : CellDirEntry) → e.set ≡ 1 → is_hit e.checksum e ≡ true
hit_self e one = ground (arith, checksum_compare_refl e.checksum)

pub miss_other : (c : Checksum) (e : CellDirEntry) → c ≢ e.checksum → is_hit c e ≡ false
miss_other c e ne = ground (arith, hit_checksum c e)

-- A checksum has an entry exactly where one is held for it.
pub entry_of-none :
    (d : CellDir) (m : Memory) (bt : ℕ) (c : Checksum)
    → (entry_of d m bt c ≡ none) ↔ (held d m bt c ≡ 0)
entry_of-none d m bt c =
    let es : List CellDirEntry = (block_at d (block_no c)).entries in
    let fs : List CellDirEntry = spilt d m bt in
    (
      λ h. ground (arith, h, count-zero c es, count-zero c fs),
      λ h. ground (arith, h, lookup-none c es, lookup-none c fs),
    )
