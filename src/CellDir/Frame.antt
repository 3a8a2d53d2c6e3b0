-- ===== src/CellDir/Frame.antt =====
-- The directory sees of the slab only the bytes of its overflow.
use theo.Base.{ℕ, ◌*◌, ◌≤◌, ◌<◌, ◌≡◌, arith}
use theo.Checksum.{Checksum}
use theo.Memory.{Memory}
use theo.CellDirOverflow.{overflow_bottom}
use theo.CellDirOverflow.Rows.{rows-agree}
use theo.CellDir.{CellDir}
use theo.CellDir.View.{spilt, IsDir, entry_of}

module _ (d : CellDir) (m m' : Memory) (bt : ℕ) (fits : d.overflow.overflow_count * 36 ≤ bt)
    (same : (x : ℕ) → overflow_bottom d.overflow bt ≤ x → x < bt → m' x ≡ m x) where
  pub spilt-frame : spilt d m' bt ≡ spilt d m bt
  spilt-frame =
      rows-agree m m' (overflow_bottom d.overflow bt) d.overflow.overflow_count
        (λ x l u. same x l (omega arith))

  pub entry_of-frame : (c : Checksum) → entry_of d m' bt c ≡ entry_of d m bt c
  entry_of-frame c = rw spilt-frame

  pub IsDir-frame : IsDir d m bt → IsDir d m' bt
  IsDir-frame v = record {
    size = v.size;
    blocks_valid = v.blocks_valid;
    overflow_valid = record {
      fits = v.overflow_valid.fits;
      small = v.overflow_valid.small;
      all_used = rw spilt-frame v.overflow_valid.all_used;
    };
    routed = λ n h. rw spilt-frame (v.routed n h);
    unique = λ c. rw spilt-frame (v.unique c);
  }
