-- ===== src/CellDirEntry/Layout.antt =====
-- Entries of the directory as bytes of the slab.
use theo.Base.{ℕ, ◌+◌, ◌*◌, ◌^◌, ◌≤◌, ◌<◌, ◌≡◌, ◌∙◌, ◌⊎◌, inr, length, arith}
use theo.Memory.{Memory, write, store_word}
use theo.Memory.Laws.{
  Apart, length-read, read-agree, load_word-agree, read-write_self, read-write-Apart,
  load_word-store_word, load_word-write-Apart, load_word-store_word-Apart, read-store_word-Apart,
  write-outside,
}
use theo.CellDirEntry.{CellDirEntry, cell_dir_entry_init, load_dir_entry, store_dir_entry}

-- The fields are in the range of their C types.
pub record IsDirEntry (e : CellDirEntry) : Type 0 where
  pub bytes : length e.checksum ≡ 32
  pub offset_lt : e.offset < 2 ^ 31
  pub set_lt : e.set < 2

pub cell_dir_entry_init-IsDirEntry : IsDirEntry cell_dir_entry_init
unfolding cell_dir_entry_init
cell_dir_entry_init-IsDirEntry = omega arith

-- A directory entry whose fields are in range is read back as it was stored.
pub load-store_dir_entry :
    (m : Memory) (a : ℕ) (e : CellDirEntry)
    → IsDirEntry e
    → load_dir_entry (store_dir_entry m a e) a ≡ e
unfolding load_dir_entry store_dir_entry
load-store_dir_entry m a e v =
    let w : ℕ = e.offset + 2 ^ 31 * e.set in
    ground (
      arith,
      v.bytes,
      v.offset_lt,
      v.set_lt,
      read-store_word-Apart (write m a e.checksum) (a + 32) w a 32 (inr (omega arith)),
      read-write_self m a e.checksum,
      load_word-store_word (write m a e.checksum) (a + 32) w (omega (arith, v.offset_lt, v.set_lt)),
    )

pub load-store_dir_entry-Apart :
    (m : Memory) (a : ℕ) (e : CellDirEntry) (b : ℕ)
    → IsDirEntry e
    → Apart a 36 b 36
    → load_dir_entry (store_dir_entry m a e) b ≡ load_dir_entry m b
unfolding load_dir_entry store_dir_entry
load-store_dir_entry-Apart m a e b v h =
    let w : ℕ = e.offset + 2 ^ 31 * e.set in
    let m' : Memory = write m a e.checksum in
    ground (
      arith,
      read-store_word-Apart m' (a + 32) w b 32 (omega (arith, v.bytes)),
      read-write-Apart m a e.checksum b 32 (omega (arith, v.bytes)),
      load_word-store_word-Apart m' (a + 32) w (b + 32) (omega arith),
      load_word-write-Apart m a e.checksum (b + 32) (omega (arith, v.bytes)),
    )

pub store_dir_entry-outside :
    (m : Memory) (a : ℕ) (e : CellDirEntry) (x : ℕ)
    → length e.checksum ≡ 32
    → (x < a) ⊎ (a + 36 ≤ x)
    → store_dir_entry m a e x ≡ m x
unfolding store_dir_entry store_word
store_dir_entry-outside m a e x bytes h =
    write-outside (write m a e.checksum) (a + 32) _ x (omega arith)
    ∙ write-outside m a e.checksum x (omega arith)

-- What is read from the slab has fields in range, whatever the bytes are.
pub load_dir_entry-IsDirEntry : (m : Memory) (a : ℕ) → IsDirEntry (load_dir_entry m a)
unfolding load_dir_entry
load_dir_entry-IsDirEntry m a = record {
  bytes = length-read m a 32;
  offset_lt = omega arith;
  set_lt = omega arith;
}

-- An entry is its 36 bytes.
pub load_dir_entry-agree :
    (m m' : Memory) (a : ℕ)
    → ((x : ℕ) → a ≤ x → x < a + 36 → m' x ≡ m x)
    → load_dir_entry m' a ≡ load_dir_entry m a
unfolding load_dir_entry
load_dir_entry-agree m m' a h = ground (
  arith,
  read-agree m' m a 32 (λ x l u. h x l (omega arith)),
  load_word-agree m' m (a + 32) (λ x l u. h x (omega arith) (omega arith)),
)
