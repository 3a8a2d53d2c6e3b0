-- ===== src/Msys.antt =====
-- src/theo/msys.c and msys.h: the system calls, each handed on unchanged. The operating system is a
-- parameter.
use theo.Base.{ℕ, ◌≤◌, ◌≡◌, Bool, Option, none, some, List, if◌then◌else◌}
use theo.Memory.{Memory}

-- How `msys_mmap` ends: EOPNOTSUPP is told apart from all other failures.
pub data Mapped (P : Type 0) : Type 0 where
  mapped : P → Mapped P
  not_supported : Mapped P
  map_failed : Mapped P

-- The bytes of a file name.
abbrev pub FileName : Type 0
FileName = List ℕ

-- The operating system. `W` is its state, `P` the mapped memory. Where a call returns a number, `none`
-- is a negative one; where it returns a Boolean, `true` is 0. Flags and protections are their words.
pub record Os (W P : Type 0) : Type 0 where
  pub access : FileName → ℕ → W → Bool × W
  pub remove : FileName → W → Bool × W
  -- The flags and the mode.
  pub open_file : FileName → ℕ → ℕ → W → Option ℕ × W
  -- The size of the file.
  pub stat : FileName → W → Option ℕ × W
  -- The bytes from the address on, and how many of them.
  pub write : ℕ → Memory → ℕ → W → Option ℕ × W
  pub close : ℕ → W → Bool × W
  pub fsync : ℕ → W → Bool × W
  -- The address, the length, the protection, the flags, the descriptor and the offset.
  pub mmap : Option P → ℕ → ℕ → ℕ → ℕ → ℕ → W → Mapped P × W
  pub munmap : P → ℕ → W → Bool × W
  -- What pthread_mutex_destroy returns for the mutex of a cell, by the index of the cell.
  pub destroy : ℕ → Bool
  -- No more is written than was asked for.
  pub write_le :
      (fd : ℕ) (bytes : Memory) (count n : ℕ) (w : W)
      → (write fd bytes count w).0 ≡ some n
      → n ≤ count

-- The words of fcntl.h, sys/stat.h and sys/mman.h that the calls are given.
pub record Words : Type 0 where
  pub o_rdwr : ℕ
  pub o_rdwr_creat : ℕ
  pub s_irusr_iwusr : ℕ
  pub prot_read_write : ℕ
  pub map_shared_validate : ℕ
  pub map_shared_validate_sync : ℕ

module _ {W P : Type 0} (os : Os W P) (words : Words) where
  abbrev pub msys_access : FileName → ℕ → W → Bool × W
  msys_access path mode w = os.access path mode w

  abbrev pub msys_unlink : FileName → W → Bool × W
  msys_unlink path w = os.remove path w

  abbrev pub msys_open : FileName → ℕ → W → Option ℕ × W
  msys_open path flags w = os.open_file path flags words.s_irusr_iwusr w

  abbrev pub msys_stat : FileName → W → Option ℕ × W
  msys_stat path w = os.stat path w

  abbrev pub msys_write : ℕ → Memory → ℕ → W → Option ℕ × W
  msys_write fd bytes count w = os.write fd bytes count w

  abbrev pub msys_close : ℕ → W → Bool × W
  msys_close fd w = os.close fd w

  abbrev pub msys_fsync : ℕ → W → Bool × W
  msys_fsync fd w = os.fsync fd w

  abbrev pub msys_mmap : Option P → ℕ → ℕ → ℕ → ℕ → ℕ → W → Mapped P × W
  msys_mmap addr length prot flags fd offset w = os.mmap addr length prot flags fd offset w

  abbrev pub msys_munmap : P → ℕ → W → Bool × W
  msys_munmap addr length w = os.munmap addr length w

-- The calls as the cache manager makes them on its one file: whether O_CREAT is among the flags of open,
-- and MAP_SYNC among those of mmap.
pub record Msys (W P : Type 0) : Type 0 where
  pub open_file : Bool → W → Option ℕ × W
  pub write : ℕ → Memory → ℕ → W → Option ℕ × W
  pub fsync : ℕ → W → Bool × W
  pub close : ℕ → W → Bool × W
  pub stat : W → Option ℕ × W
  pub unlink : W → Bool × W
  pub mmap : Bool → ℕ → ℕ → W → Mapped P × W
  pub munmap : P → ℕ → W → Bool × W
  pub destroy : ℕ → Bool
  -- No more is written than was asked for.
  pub write_le :
      (fd : ℕ) (bytes : Memory) (count n : ℕ) (w : W)
      → (write fd bytes count w).0 ≡ some n
      → n ≤ count

module _ {W P : Type 0} (os : Os W P) (words : Words) (filename : FileName) where
  abbrev pub msys : Msys W P
  msys = record {
    open_file = λ create w.
        msys_open os words filename (if create then words.o_rdwr_creat else words.o_rdwr) w;
    write = msys_write os words;
    fsync = msys_fsync os words;
    close = msys_close os words;
    stat = msys_stat os words filename;
    unlink = msys_unlink os words filename;
    mmap = λ sync fd length w.
        msys_mmap os words none length words.prot_read_write
          (if sync then words.map_shared_validate_sync else words.map_shared_validate) fd 0 w;
    munmap = msys_munmap os words;
    destroy = os.destroy;
    write_le = os.write_le;
  }
