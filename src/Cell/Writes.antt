-- ===== src/Cell/Writes.antt =====
-- What the stores of `cell_body_add_top` leave in the slab.
use theo.Base.{ℕ, ◌+◌, ◌%◌, ◌^◌, ◌≤◌, ◌<◌, ◌≡◌, ◌⊎◌, ap, ◌∙◌, List, length, arith}
use theo.Checksum.{Checksum}
use theo.Memory.{Memory}
use theo.CellBodyEntry.{CellBodyEntry, load_body_entry}
use theo.CellBodyEntry.Layout.{
  IsBodyEntry, load_body_entry-IsBodyEntry, load-store_body_entry, store_body_entry-outside,
}
use theo.CellHeader.{cell_body_set_top}
use theo.CellBody.{write_new_top}

module _ (m : Memory) (a : ℕ) where
  -- The entry that `write_top` stores.
  abbrev pub top_entry : Checksum → List ℕ → CellBodyEntry
  top_entry c buffer = record (load_body_entry m a) {
    free_space = 0;
    top_entry = 0;
    size = length buffer % 2 ^ 15;
    checksum = c;
  }

  pub top_entry-IsBodyEntry :
      (c : Checksum) (buffer : List ℕ) → length c ≡ 32 → IsBodyEntry (top_entry c buffer)
  top_entry-IsBodyEntry c buffer bytes = record {
    bytes = bytes;
    free_lt = omega arith;
    top_lt = omega arith;
    size_lt = omega arith;
    previous_lt = (load_body_entry-IsBodyEntry m a).previous_lt;
  }

  -- The entry that `cell_body_set_top` stores.
  abbrev set_top_entry : CellBodyEntry
  set_top_entry = record (load_body_entry m a) { free_space = 1; top_entry = 1; size = 0 }

  set_top_entry-IsBodyEntry : IsBodyEntry set_top_entry
  set_top_entry-IsBodyEntry = record {
    bytes = (load_body_entry-IsBodyEntry m a).bytes;
    free_lt = omega arith;
    top_lt = omega arith;
    size_lt = omega arith;
    previous_lt = (load_body_entry-IsBodyEntry m a).previous_lt;
  }

  pub cell_body_set_top_lem : load_body_entry (cell_body_set_top m a) a ≡ set_top_entry
  unfolding cell_body_set_top
  cell_body_set_top_lem = load-store_body_entry m a set_top_entry set_top_entry-IsBodyEntry

  pub cell_body_set_top-outside : (x : ℕ) → (x < a) ⊎ (a + 36 ≤ x) → cell_body_set_top m a x ≡ m x
  unfolding cell_body_set_top
  cell_body_set_top-outside x h =
      store_body_entry-outside m a set_top_entry x set_top_entry-IsBodyEntry.bytes h

module _ (m : Memory) (a previous : ℕ) where
  abbrev new_top_entry : CellBodyEntry
  new_top_entry = record (load_body_entry (cell_body_set_top m a) a) {
    previous_size = previous % 2 ^ 15;
  }

  new_top_entry-IsBodyEntry : IsBodyEntry new_top_entry
  new_top_entry-IsBodyEntry =
      let old = load_body_entry-IsBodyEntry (cell_body_set_top m a) a in
      record {
        bytes = old.bytes;
        free_lt = old.free_lt;
        top_lt = old.top_lt;
        size_lt = old.size_lt;
        previous_lt = omega arith;
      }

  pub write_new_top-outside : (x : ℕ) → (x < a) ⊎ (a + 36 ≤ x) → write_new_top m a previous x ≡ m x
  write_new_top-outside x h =
      store_body_entry-outside _ a new_top_entry x new_top_entry-IsBodyEntry.bytes h
      ∙ cell_body_set_top-outside m a x h

  pub write_new_top-is_top : (load_body_entry (write_new_top m a previous) a).top_entry ≡ 1
  write_new_top-is_top =
      ap (λ (e : CellBodyEntry). e.top_entry)
        (load-store_body_entry _ a new_top_entry new_top_entry-IsBodyEntry)
      ∙ ap (λ (e : CellBodyEntry). e.top_entry) (cell_body_set_top_lem m a)

  pub write_new_top-previous :
      (load_body_entry (write_new_top m a previous) a).previous_size ≡ previous % 2 ^ 15
  write_new_top-previous =
      ap (λ (e : CellBodyEntry). e.previous_size)
        (load-store_body_entry _ a new_top_entry new_top_entry-IsBodyEntry)
