-- ===== src/CellBodyEntry/Layout.antt =====
-- Entries of the ring buffer as bytes of the slab.
use theo.Base.{ℕ, ◌+◌, ◌*◌, ◌^◌, ◌≤◌, ◌<◌, ◌≡◌, ◌∙◌, ◌⊎◌, inr, length, arith}
use theo.Memory.{Memory, write, store_word}
use theo.Memory.Laws.{
  length-read, read-agree, load_word-agree, read-write_self, load_word-store_word,
  read-store_word-Apart, write-outside,
}
use theo.CellBodyEntry.{CellBodyEntry, load_body_entry, store_body_entry}

-- The fields are in the range of their C types.
pub record IsBodyEntry (e : CellBodyEntry) : Type 0 where
  pub bytes : length e.checksum ≡ 32
  pub free_lt : e.free_space < 2
  pub top_lt : e.top_entry < 2
  pub size_lt : e.size < 2 ^ 15
  pub previous_lt : e.previous_size < 2 ^ 15

-- What is read from the slab has fields in range, whatever the bytes are.
pub load_body_entry-IsBodyEntry : (m : Memory) (a : ℕ) → IsBodyEntry (load_body_entry m a)
unfolding load_body_entry
load_body_entry-IsBodyEntry m a = record {
  bytes = length-read m a 32;
  free_lt = omega arith;
  top_lt = omega arith;
  size_lt = omega arith;
  previous_lt = omega arith;
}

-- A body entry whose fields are in range is read back as it was stored.
pub load-store_body_entry :
    (m : Memory) (a : ℕ) (e : CellBodyEntry)
    → IsBodyEntry e
    → load_body_entry (store_body_entry m a e) a ≡ e
unfolding load_body_entry store_body_entry
load-store_body_entry m a e v =
    let w : ℕ = e.free_space + 2 * e.top_entry + 4 * e.size + 2 ^ 17 * e.previous_size in
    ground (
      arith,
      v.bytes,
      v.free_lt,
      v.top_lt,
      v.size_lt,
      v.previous_lt,
      read-store_word-Apart (write m a e.checksum) (a + 32) w a 32 (inr (omega arith)),
      read-write_self m a e.checksum,
      load_word-store_word (write m a e.checksum) (a + 32) w (omega arith),
    )

-- An entry is its 36 bytes.
pub load_body_entry-agree :
    (m m' : Memory) (a : ℕ)
    → ((x : ℕ) → a ≤ x → x < a + 36 → m' x ≡ m x)
    → load_body_entry m' a ≡ load_body_entry m a
unfolding load_body_entry
load_body_entry-agree m m' a h = ground (
  arith,
  read-agree m' m a 32 (λ x l u. h x l (omega arith)),
  load_word-agree m' m (a + 32) (λ x l u. h x (omega arith) (omega arith)),
)

pub store_body_entry-outside :
    (m : Memory) (a : ℕ) (e : CellBodyEntry) (x : ℕ)
    → length e.checksum ≡ 32
    → (x < a) ⊎ (a + 36 ≤ x)
    → store_body_entry m a e x ≡ m x
unfolding store_body_entry store_word
store_body_entry-outside m a e x bytes h =
    write-outside (write m a e.checksum) (a + 32) _ x (omega arith)
    ∙ write-outside m a e.checksum x (omega arith)
