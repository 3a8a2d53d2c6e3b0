-- ===== src/CellDir/Remove.antt =====
-- `cell_dir_remove` of src/theo/cell_dir.c, where the entry is in its block and where it overflowed.
use theo.Base.{
  ℕ, ◌+◌, ◌-◌, ◌%◌, ◌^◌, ◌≤◌, ◌<◌, ◌≡◌, ◌≢◌, refl, ◌∙◌, inl, inr, Bool, true, false, Option, some,
  length-set, Bool-cases, arith, ltb, lt→ltb, ==_refl,
}
use theo.Checksum.{Checksum}
use theo.Memory.{Memory}
use theo.CellDirEntry.Lookup.{count, count-zero}
use theo.CellDirEntry.Change.{Removed, Removed-count_le}
use theo.CellDirBlock.{CellDirBlock, cell_dir_block_overflowed, cell_dir_block_decrement_overflow}
use theo.CellDirBlock.Laws.{IsBlock, RemoveResult, cell_dir_block_remove_lem}
use theo.CellDirOverflow.{CellDirOverflow, overflow_bottom}
use theo.CellDirOverflow.Swap.{spilled, Unique}
use theo.CellDirOverflow.Laws.{OverflowRemoved, cell_dir_overflow_remove_lem}
use theo.CellDir.{
  CellDir, block_no, block_at, put_block, remove_or_overflow, remove_overflowed, cell_dir_remove,
}
use theo.CellDir.View.{
  dir_total, blocks_used-set, lands, spilt, held, IsDir, entry_of, block_at-put, put-IsBlock,
  not_overflowed,
}

module _ (d : CellDir) (m : Memory) (bt : ℕ) (c : Checksum) where
  -- The directory has nothing for the checksum and is as before for all others. The slab is written
  -- only where the overflow is.
  pub record DirRemoved (d' : CellDir) (m' : Memory) : Type 0 where
    pub valid : IsDir d' m' bt
    pub gone : held d' m' bt c ≡ 0
    pub same : (k : Checksum) → c ≢ k → entry_of d' m' bt k ≡ entry_of d m bt k
    pub frame : (x : ℕ) → x < overflow_bottom d.overflow bt → m' x ≡ m x
    pub total : dir_total d' + 1 ≡ dir_total d
    pub shrinks : d'.overflow.overflow_count ≤ d.overflow.overflow_count

  -- A removal does not abort. It reports false, and changes nothing, exactly where the checksum has
  -- no entry.
  pub data RemoveOutcome : Option (Bool × CellDir × Memory) → Type 0 where
    removed :
        {d' : CellDir} {m' : Memory}
        → held d m bt c ≡ 1
        → DirRemoved d' m'
        → RemoveOutcome (some (true, d', m'))
    absent : held d m bt c ≡ 0 → RemoveOutcome (some (false, d, m))

module _ (d : CellDir) (m : Memory) (bt : ℕ) (c : Checksum) (v : IsDir d m bt)
    (low : block_no c < 256) where
  abbrev n : ℕ
  n = block_no c

  remove_from_block :
      (b : CellDirBlock)
      → Removed c (block_at d n).entries b.entries
      → IsBlock b
      → b.overflow_count ≡ (block_at d n).overflow_count
      → RemoveOutcome d m bt c (some (true, put_block d n b, m))
  remove_from_block b out valid routed =
      let at = λ (k : ℕ). block_at-put d n b k (omega (arith, v.size, low)) in
      let one : held d m bt c ≤ 1 = v.unique c in
      removed (omega (arith, out.once)) (record {
        valid = record {
          size = length-set d.blocks n b ∙ v.size;
          blocks_valid = put-IsBlock d n b v.size low v.blocks_valid valid;
          overflow_valid = v.overflow_valid;
          routed = λ k h. ground (arith, at k, v.routed k h);
          unique = λ k. ground (arith, at (block_no k), v.unique k, Removed-count_le c _ _ out k);
        };
        gone = ground (arith, at n, out.once, one);
        same = λ k ne. ground (arith, at (block_no k), out.same k ne);
        frame = λ x h. refl;
        total = omega (arith, out.less, blocks_used-set d.blocks n b (omega (arith, v.size)));
        shrinks = omega arith;
      })

  remove_from_overflow :
      (o : CellDirOverflow) (m' : Memory)
      → count c (block_at d n).entries ≡ 0
      → OverflowRemoved d.overflow m bt c (true, o, m')
      → RemoveOutcome d m bt c (remove_overflowed d m c (block_at d n) (true, o, m'))
  unfolding cell_dir_block_decrement_overflow
  remove_from_overflow o m' missing (fewer, (out, drops), frame, above, swapped) =
      let b : CellDirBlock = block_at d n in
      let b' : CellDirBlock = record b {
        overflow_count = (b.overflow_count + 2 ^ 12 - 1) % 2 ^ 12;
      } in
      let d' : CellDir = record (put_block d n b') { overflow = o } in
      let at = λ (k : ℕ). block_at-put d n b' k (omega (arith, v.size, low)) in
      let old : IsBlock b = v.blocks_valid n low in
      let self : (lands n c) ≡ true = ==_refl n in
      let here : spilled (lands n) (spilt d' m' bt) + 1 ≡ b.overflow_count =
        ground (arith, self, drops (lands n), v.routed n low) in
      let positive : ltb 0 b.overflow_count ≡ true = lt→ltb _ _ (omega arith) in
      rw positive (
        removed (omega (arith, missing, v.unique c, out.once)) (record {
          valid = record {
            size = length-set d.blocks n b' ∙ v.size;
            blocks_valid =
                put-IsBlock d n b' v.size low v.blocks_valid
                  (record { three = old.three; counted = old.counted; overflow_lt = omega arith });
            overflow_valid = record {
              fits = omega (arith, v.overflow_valid.fits);
              small = omega (arith, v.overflow_valid.small);
              all_used = omega (arith, out.less, v.overflow_valid.all_used);
            };
            routed =
                λ k h. ground (arith, at k, v.routed k h, drops (lands k), here, old.overflow_lt);
            unique = λ k. ground (arith, at (block_no k), v.unique k, Removed-count_le c _ _ out k);
          };
          gone = ground (arith, at n, missing, v.unique c, out.once);
          same = λ k ne. ground (arith, at (block_no k), out.same k ne);
          frame = frame;
          total = omega (arith, blocks_used-set d.blocks n b' (omega (arith, v.size)));
          shrinks = omega arith;
        }))

  spilt-Unique : Unique (spilt d m bt)
  spilt-Unique k = omega (arith, v.unique k)

  remove_overflowed_lem :
      (r : Bool × CellDirOverflow × Memory)
      → count c (block_at d n).entries ≡ 0
      → OverflowRemoved d.overflow m bt c r
      → RemoveOutcome d m bt c (remove_overflowed d m c (block_at d n) r)
  remove_overflowed_lem (true, o, m') missing h = remove_from_overflow o m' missing h
  remove_overflowed_lem (false, o, m') missing (same_o, same_m, zero') =
      rw (same_o, same_m) (absent (omega arith))

  remove_or_overflow_lem :
      (r : Bool × CellDirBlock)
      → RemoveResult (block_at d n) (v.blocks_valid n low) c r
      → RemoveOutcome d m bt c (remove_or_overflow d m bt c r)
  unfolding cell_dir_block_overflowed
  remove_or_overflow_lem (true, b) (out, valid, routed) = remove_from_block b out valid routed
  remove_or_overflow_lem (false, b) (same, missing) =
      rw same (elim (Bool-cases (ltb 0 (block_at d n).overflow_count)) [
        | inl spilt' ↦ rw spilt' (
            remove_overflowed_lem _ missing (
              cell_dir_overflow_remove_lem d.overflow.overflow_count m bt c v.overflow_valid
                spilt-Unique))
        | inr none' ↦ rw none' (
            absent (
              omega (
                arith,
                missing,
                count-zero c (spilt d m bt) (not_overflowed d m bt v c low (ground arith)),
              )))
      ])

  -- On a valid directory, removing a checksum does not abort. Where one entry is held for it the result is
  -- true and a valid directory that holds none for it and finds for every other checksum what it found, the
  -- slab written only where the overflow is; where none is held the result is false and nothing changes.
  pub cell_dir_remove_lem : RemoveOutcome d m bt c (cell_dir_remove d m bt c)
  unfolding cell_dir_remove
  cell_dir_remove_lem =
      remove_or_overflow_lem _ (cell_dir_block_remove_lem (block_at d n) (v.blocks_valid n low) c)
