-- ===== src/CellBodyEntry/Store.antt =====
-- An entry of the ring written with its bytes.
use theo.Base.{ℕ, ◌+◌, ◌≤◌, ◌<◌, ◌≡◌, ◌∙◌, ◌⊎◌, inl, List, length, arith}
use theo.Memory.{Memory, read, write}
use theo.Memory.Laws.{read-write_self, write-outside}
use theo.CellBodyEntry.{CellBodyEntry, load_body_entry, store_body_entry}
use theo.CellBodyEntry.Layout.{
  IsBodyEntry, load-store_body_entry, load_body_entry-agree, store_body_entry-outside,
}

module _ (m : Memory) (a : ℕ) (e : CellBodyEntry) (buffer : List ℕ) (v : IsBodyEntry e) where
  abbrev after : Memory
  after = write (store_body_entry m a e) (a + 36) buffer

  pub write_entry-outside : (x : ℕ) → (x < a) ⊎ (a + 36 + length buffer ≤ x) → after x ≡ m x
  write_entry-outside x h =
      write-outside (store_body_entry m a e) (a + 36) buffer x (omega arith)
      ∙ store_body_entry-outside m a e x v.bytes (omega arith)

  pub write_entry-header : load_body_entry after a ≡ e
  write_entry-header =
      load_body_entry-agree (store_body_entry m a e) after a
        (λ x l u. write-outside (store_body_entry m a e) (a + 36) buffer x (inl u))
      ∙ load-store_body_entry m a e v

  pub write_entry-bytes : read after (a + 36) (length buffer) ≡ buffer
  write_entry-bytes = read-write_self (store_body_entry m a e) (a + 36) buffer
