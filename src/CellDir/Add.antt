-- ===== src/CellDir/Add.antt =====
-- `cell_dir_add` of src/theo/cell_dir.c, where the block has room and where it overflows.
use theo.Base.{
  ℕ, ◌+◌, ◌*◌, ◌-◌, ◌≤◌, ◌<◌, ◌≡◌, ◌≢◌, refl, ◌∙◌, Bool, true, false, some, List, ◌∷◌, length-set,
  arith,
}
use theo.Checksum.{Checksum}
use theo.Memory.{Memory}
use theo.CellDirEntry.{CellDirEntry}
use theo.CellDirEntry.Layout.{IsDirEntry}
use theo.CellDirEntry.Lookup.{is_hit, hit_checksum, lookup-none, uses}
use theo.CellDirEntry.Change.{Added}
use theo.CellDirBlock.{CellDirBlock, cell_dir_block_increment_overflow}
use theo.CellDirBlock.Laws.{IsBlock, AddResult, cell_dir_block_add_lem}
use theo.CellDirOverflow.Rows.{length-rows}
use theo.CellDirOverflow.{overflow_bottom}
use theo.CellDirOverflow.Swap.{cons-spilled, spilled-le-length, cons-Added}
use theo.CellDirOverflow.Laws.{cell_dir_overflow_add_lem}
use theo.CellDir.{CellDir, block_no, block_at, put_block, add_or_overflow, cell_dir_add}
use theo.CellDir.View.{
  dir_total, blocks_used-set, lands, spilt, held, IsDir, entry_of, block_at-put, put-IsBlock,
  hit_self, miss_other,
}

module _ (d : CellDir) (m : Memory) (bt : ℕ) (e : CellDirEntry) where
  -- The directory has `e` for its checksum and is as before for all others. Of the slab at most the
  -- room for one more overflow entry is written.
  pub record DirAdded (d' : CellDir) (m' : Memory) : Type 0 where
    pub valid : IsDir d' m' bt
    pub found : entry_of d' m' bt e.checksum ≡ some e
    pub same : (c : Checksum) → c ≢ e.checksum → entry_of d' m' bt c ≡ entry_of d m bt c
    pub frame : (x : ℕ) → x < bt - (d.overflow.overflow_count + 1) * 36 → m' x ≡ m x
    pub kept : (x : ℕ) → bt - d.overflow.overflow_count * 36 ≤ x → m' x ≡ m x
    pub total : dir_total d' ≡ dir_total d + 1
    pub growth : d'.overflow.overflow_count ≤ d.overflow.overflow_count + 1

module _ (d : CellDir) (m : Memory) (bt : ℕ) (e : CellDirEntry) (v : IsDir d m bt)
    (low : block_no e.checksum < 256) (one : e.set ≡ 1) (fresh : held d m bt e.checksum ≡ 0) where
  fresh_hit : (c : Checksum) → is_hit c e ≡ true → held d m bt c ≡ 0
  fresh_hit c hit = rw (hit_checksum c e hit) fresh

  uses_one : uses e ≡ 1
  uses_one = ground arith

  abbrev BlockAdded : Bool × CellDirBlock → Type 0
  BlockAdded =
      AddResult (block_at d (block_no e.checksum)) (v.blocks_valid (block_no e.checksum) low) e

  add_to_block :
      (b : CellDirBlock)
      → BlockAdded (true, b)
      → DirAdded d m bt e (put_block d (block_no e.checksum) b) m
  add_to_block b (added, valid, routed) =
      let n : ℕ = block_no e.checksum in
      let d' : CellDir = put_block d n b in
      let at = λ (k : ℕ). block_at-put d n b k (omega (arith, v.size, low)) in
      record {
        valid = record {
          size = length-set d.blocks n b ∙ v.size;
          blocks_valid = put-IsBlock d n b v.size low v.blocks_valid valid;
          overflow_valid = v.overflow_valid;
          routed = λ k h. ground (arith, at k, v.routed k h);
          unique = λ c. ground (arith, at (block_no c), v.unique c, added.counts c, fresh_hit c);
        };
        found = ground (arith, at n, added.found e.checksum (hit_self e one), fresh);
        same = λ c ne. ground (arith, at (block_no c), added.same c (miss_other c e ne));
        frame = λ x h. refl;
        kept = λ x h. refl;
        total =
            omega
              (arith, added.more, uses_one, blocks_used-set d.blocks n b (omega (arith, v.size)));
        growth = omega arith;
      }

  module _ (ve : IsDirEntry e) (few : d.overflow.overflow_count < 4095)
      (room : (d.overflow.overflow_count + 1) * 36 ≤ bt) where
    add_to_overflow :
        let (d', m') = add_or_overflow d m bt e (false, block_at d (block_no e.checksum)) in
        DirAdded d m bt e d' m'
    unfolding cell_dir_block_increment_overflow
    add_to_overflow =
        let n : ℕ = block_no e.checksum in
        let b : CellDirBlock = block_at d n in
        let b' : CellDirBlock = cell_dir_block_increment_overflow b in
        let d' : CellDir = put_block d n b' in
        let at = λ (k : ℕ). block_at-put d n b' k (omega (arith, v.size, low)) in
        let old : IsBlock b = v.blocks_valid n low in
        let es : List CellDirEntry = spilt d m bt in
        let grown =
          cell_dir_overflow_add_lem d.overflow m bt v.overflow_valid e ve (omega arith) room in
        let added : Added e es (e ∷ es) = cons-Added e es in
        let new : CellDir × Memory = add_or_overflow d m bt e (false, b) in
        let all : spilt new.0 new.1 bt ≡ e ∷ es = grown.1 in
        record {
          valid = record {
            size = length-set d.blocks n b' ∙ v.size;
            blocks_valid =
                put-IsBlock d n b' v.size low v.blocks_valid
                  (record { three = old.three; counted = old.counted; overflow_lt = omega arith });
            overflow_valid = record {
              fits = omega (arith, grown.0);
              small = omega (arith, grown.0);
              all_used =
                  rw all (omega (arith, added.more, grown.0, v.overflow_valid.all_used, uses_one));
            };
            routed = λ k h. ground (
              arith,
              at k,
              v.routed k h,
              all,
              cons-spilled (lands k) e es,
              spilled-le-length (lands k) es,
              length-rows m (overflow_bottom d.overflow bt) d.overflow.overflow_count,
            );
            unique =
                λ c. ground (arith, at (block_no c), all, v.unique c, added.counts c, fresh_hit c);
          };
          found = ground (
            arith,
            at n,
            all,
            added.found e.checksum (hit_self e one),
            lookup-none e.checksum b.entries (omega (arith, fresh)),
          );
          same = λ c ne. ground (arith, at (block_no c), all, added.same c (miss_other c e ne));
          frame = grown.2;
          kept = grown.3;
          total = omega (arith, grown.0, blocks_used-set d.blocks n b' (omega (arith, v.size)));
          growth = omega (arith, grown.0);
        }

    add_or_overflow_lem :
        (r : Bool × CellDirBlock)
        → BlockAdded r
        → let (d', m') = add_or_overflow d m bt e r in DirAdded d m bt e d' m'
    add_or_overflow_lem (true, b) h = add_to_block b h
    add_or_overflow_lem (false, b) h = rw h.0 add_to_overflow

    -- On a valid directory of fewer than 4095 overflowed entries with room for one more, adding an entry
    -- in use for a checksum that has none gives a valid directory that finds the entry, and finds for every
    -- other checksum what it found. Of the slab no bytes are written but the 36 below the overflowed entries, and
    -- the overflow grows by at most one.
    pub cell_dir_add_lem : let (d', m') = cell_dir_add d m bt e in DirAdded d m bt e d' m'
    unfolding cell_dir_add
    cell_dir_add_lem = add_or_overflow_lem _ (
        cell_dir_block_add_lem (block_at d (block_no e.checksum))
          (v.blocks_valid (block_no e.checksum) low) e one)
