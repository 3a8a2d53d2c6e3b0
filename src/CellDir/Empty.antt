-- ===== src/CellDir/Empty.antt =====
-- The directory that `cell_dir_init` makes.
use theo.Base.{
  ℕ, zero, suc, ◌≡◌, refl, none, List, [], length, get_or, replicate, length-replicate, arith,
}
use theo.Checksum.{Checksum}
use theo.Memory.{Memory}
use theo.CellDirEntry.{cell_dir_entry_init}
use theo.CellDirEntry.Lookup.{lookup, count, count-zero, used}
use theo.CellDirBlock.{CellDirBlock, cell_dir_block_init}
use theo.CellDirBlock.Laws.{cell_dir_block_init-IsBlock}
use theo.CellDirOverflow.{cell_dir_overflow_init}
use theo.CellDirOverflow.Rows.{rows}
use theo.CellDirOverflow.Swap.{spilled}
use theo.CellDir.{cell_dir_init, block_no, block_at}
use theo.CellDir.View.{blocks_used, dir_total, spilt, IsDir, entry_of}

get_or-replicate : (n k : ℕ) (b : CellDirBlock) → get_or (replicate n b) k b ≡ b
get_or-replicate zero k b = refl
get_or-replicate (suc n) zero b = refl
get_or-replicate (suc n) (suc k) b = get_or-replicate n k b

abbrev blocks : List CellDirBlock
blocks = replicate 256 cell_dir_block_init

empty_block : (c : Checksum) → lookup c cell_dir_block_init.entries ≡ none
unfolding cell_dir_block_init cell_dir_entry_init lookup
empty_block c = refl

no_overflow : cell_dir_block_init.overflow_count ≡ 0
unfolding cell_dir_block_init
no_overflow = refl

module _ (m : Memory) (bt : ℕ) where
  no_rows : spilt cell_dir_init m bt ≡ []
  unfolding cell_dir_init cell_dir_overflow_init rows
  no_rows = refl

  at : (k : ℕ) → block_at cell_dir_init k ≡ cell_dir_block_init
  unfolding cell_dir_init
  at k = get_or-replicate 256 k cell_dir_block_init

  pub cell_dir_init-empty : (c : Checksum) → entry_of cell_dir_init m bt c ≡ none
  unfolding lookup
  cell_dir_init-empty c = rw (at (block_no c), no_rows, empty_block c)

  size : length cell_dir_init.blocks ≡ 256
  unfolding cell_dir_init
  size = length-replicate 256 cell_dir_block_init

  pub zero' : cell_dir_init.overflow.overflow_count ≡ 0
  unfolding cell_dir_init cell_dir_overflow_init
  zero' = refl

  pub cell_dir_init-IsDir : IsDir cell_dir_init m bt
  unfolding count used spilled
  cell_dir_init-IsDir = record {
    size = size;
    blocks_valid = λ n h. rw (at n) cell_dir_block_init-IsBlock;
    overflow_valid = record {
      fits = rw zero' (omega arith);
      small = rw zero' (omega arith);
      all_used = rw (no_rows, zero');
    };
    routed = λ n h. rw (at n, no_rows) no_overflow;
    unique = λ c.
        rw (at (block_no c), no_rows)
          (omega (arith, count-zero c cell_dir_block_init.entries (empty_block c)));
  }

blocks_used-replicate : (n : ℕ) → blocks_used (replicate n cell_dir_block_init) ≡ 0
unfolding cell_dir_block_init used cell_dir_entry_init
blocks_used-replicate zero = refl
blocks_used-replicate (suc n) = omega (arith, blocks_used-replicate n)

pub cell_dir_init-total : dir_total cell_dir_init ≡ 0
unfolding cell_dir_init cell_dir_overflow_init
cell_dir_init-total = omega (arith, blocks_used-replicate 256)
