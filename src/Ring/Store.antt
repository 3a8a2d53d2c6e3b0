-- ===== src/Ring/Store.antt =====
-- A chunk is written in the gap and listed.
use theo.Base.{
  ℕ, ◌+◌, ◌*◌, ◌%◌, ◌^◌, ◌≤◌, ◌<◌, ◌≡◌, ◌⊎◌, refl, sym, ap, ◌∙◌, inl, inr, some, List, [], ◌∷◌,
  ◌++◌, length, arith,
}
use theo.Memory.{Memory, read}
use theo.Memory.Laws.{read-agree}
use theo.CellDirEntry.{cell_dir_entry_set}
use theo.CellBodyEntry.{CellBodyEntry, load_body_entry}
use theo.CellBodyEntry.Layout.{IsBodyEntry, load_body_entry-agree, load_body_entry-IsBodyEntry}
use theo.CellBodyEntry.Store.{write_entry-outside, write_entry-header, write_entry-bytes}
use theo.CellState.{Cell, buffer_top}
use theo.CellHeader.{cell_header_add}
use theo.CellBody.{
  top_offset, next_offset, entry_at, set_slab, cell_body_write_chunk, cell_body_add_dir_entry,
}
use theo.Cell.Valid.{overflowed}
use theo.Ring.Chain.{Item, IsItem, size, stored}
use theo.Ring.Place.{copies, copies-append}
use theo.Ring.Gap.{Gap}
use theo.Ring.Listed.{one_more}
use theo.Ring.Lower.{Lowered, gap-write}
use theo.Ring.Room.{Shorter, IsSafe, RoomMade, make_room, Written, past, listed-eq, listed-Gap}

-- What is at the next entry before it is written.
pub record Head (cell : Cell) (q : ℕ) : Type 0 where
  pub previous : (entry_at cell (next_offset cell)).previous_size ≡ q
  pub not_top : (entry_at cell (next_offset cell)).top_entry ≡ 0

-- With one chunk less behind the gap at most, a checksum is no more often there.
Shorter-fresh :
    (i : Item) (before post left : List Item)
    → Shorter post left
    → copies i.checksum before + copies i.checksum post ≡ 0
    → copies i.checksum before + copies i.checksum left ≡ 0
Shorter-fresh i before post left (inl e) h = rw e h
Shorter-fresh i before post left (inr (j, e)) h =
    let same : copies i.checksum post ≡ copies i.checksum left + copies i.checksum (j ∷ []) =
      ap (λ is. copies i.checksum is) e ∙ copies-append i.checksum left (j ∷ []) in
    omega (arith, h, same)

module _ (cell : Cell) (before : List Item) (q g r : ℕ) (post : List Item) (i : Item)
    (v : Gap cell before q g r post) (head : Head cell q) (item : IsItem i)
    (fits : next_offset cell + 36 + size i ≤ g) where
  abbrev n : ℕ
  n = next_offset cell

  abbrev pub written_slab : Memory
  written_slab = cell_body_write_chunk cell.slab n i.checksum i.bytes

  abbrev new : CellBodyEntry
  new = record (load_body_entry cell.slab n) {
    checksum = i.checksum;
    size = size i % 2 ^ 15;
    free_space = 0;
  }

  new-IsBodyEntry : IsBodyEntry new
  new-IsBodyEntry =
      let was = load_body_entry-IsBodyEntry cell.slab n in
      record {
        bytes = item.key;
        free_lt = omega arith;
        top_lt = was.top_lt;
        size_lt = omega arith;
        previous_lt = was.previous_lt;
      }

  new-stored : new ≡ stored q i
  new-stored =
      let len : size i % 2 ^ 15 ≡ size i = omega (arith, item.most) in
      rw (head.previous, head.not_top, len) refl

  outside : (x : ℕ) → (x < n) ⊎ (n + 36 + size i ≤ x) → written_slab x ≡ cell.slab x
  unfolding cell_body_write_chunk
  outside x h = write_entry-outside cell.slab n new i.bytes new-IsBodyEntry x h

  pub written : Written (set_slab cell written_slab) q i
  unfolding cell_body_write_chunk
  written = record {
    item = item;
    header = write_entry-header cell.slab n new i.bytes new-IsBodyEntry ∙ new-stored;
    content = write_entry-bytes cell.slab n new i.bytes new-IsBodyEntry;
  }

  pub written-Gap : Gap (set_slab cell written_slab) before q g r post
  written-Gap =
      gap-write cell before q g r post written_slab v (λ x h. outside x (omega (arith, fits)))

  -- The cell when the chunk is listed, and the chunks that are left behind it.
  pub record ChunkListed : Type 0 where
    pub left : List Item
    pub shorter : Shorter post left
    pub cell' : Cell
    pub adds :
        cell_body_add_dir_entry
          (set_slab cell written_slab)
          (cell_dir_entry_set i.checksum n)
          (size i)
        ≡ some cell'
    pub same_next : next_offset cell' ≡ n
    pub gap : Gap (past cell' i) (before ++ i ∷ []) (size i) g r left

  room-ChunkListed :
      copies i.checksum before + copies i.checksum post ≡ 0
      → RoomMade (set_slab cell written_slab) before q g r post
      → ChunkListed
  room-ChunkListed fresh made =
      let c = made.cell' in
      let low = made.lowered in
      let l : Lowered c before q g r made.left c = record {
        gap = low.gap;
        frame = λ x u. refl;
        same_next = refl;
        room = low.room;
      } in
      let w : Written c q i = record {
        item = item;
        header =
            load_body_entry-agree written_slab c.slab (next_offset c)
              (λ x a b. low.frame x (omega (arith, fits, low.same_next)))
            ∙ ap (λ a. load_body_entry written_slab a) low.same_next
            ∙ written.header;
        content =
            read-agree c.slab written_slab (next_offset c + 36) (size i)
              (λ x a b. low.frame x (omega (arith, fits, low.same_next)))
            ∙ ap (λ a. read written_slab (a + 36) (size i)) low.same_next
            ∙ written.content;
      } in
      let fresh' = Shorter-fresh i before post made.left made.shorter fresh in
      let fits' : next_offset c + 36 + size i ≤ g = omega (arith, fits, low.same_next) in
      record {
        left = made.left;
        shorter = made.shorter;
        cell' = one_more c i (next_offset c);
        adds =
            made.adds (cell_dir_entry_set i.checksum n) (size i)
            ∙ ap (λ a. some (cell_header_add c (cell_dir_entry_set i.checksum a) (size i)))
                (sym low.same_next)
            ∙ ap some (listed-eq c before q g r made.left i l w fresh' fits');
        same_next = low.same_next;
        gap = listed-Gap c before q g r made.left i l w fresh' fits';
      }

  pub chunk_listed :
      copies i.checksum before + copies i.checksum post ≡ 0
      → (top_offset cell + 72 + overflowed cell * 36 ≤ buffer_top cell) ⊎ (0 < length post)
      → IsSafe cell before
      → g ≤ n + 66000
      → ChunkListed
  chunk_listed fresh spare safe near =
      room-ChunkListed fresh
        (make_room (set_slab cell written_slab) before q g r post written-Gap spare safe near)
