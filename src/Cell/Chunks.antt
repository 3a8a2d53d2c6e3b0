-- ===== src/Cell/Chunks.antt =====
-- Adding a chunk to a cell and getting it back.
use theo.Base.{
  ℕ, ◌+◌, ◌%◌, ◌^◌, ◌≤◌, ◌<◌, ◌≡◌, ◌≢◌, refl, sym, ap, ◌∙◌, inl, inr, some, none, List, ◌++◌, true,
  false, length, take, drop, leb, take-length_append, Option-cases, arith,
}
use theo.Checksum.{Checksum}
use theo.Memory.{read}
use theo.Memory.Laws.{read-agree}
use theo.CellDirEntry.{CellDirEntry}
use theo.CellBodyEntry.{cell_body_entry_top, load_body_entry}
use theo.CellBodyEntry.Layout.{load_body_entry-agree}
use theo.CellDir.{block_no}
use theo.CellDir.View.{cell_dir_get_chunk_lem}
use theo.CellIc.{cell_ic_on_entry}
use theo.CellIc.Laws.{cell_ic_on_exit-sane, on_entry-on_exit-IsIc}
use theo.CellState.{Cell, buffer_top}
use theo.CellHeader.{cell_header_bytes_used}
use theo.CellBody.{top_offset, next_offset, cell_body_free_space, entry_at, cell_body_add}
use theo.Chunk.{Chunk, chunk_set}
use theo.Cell.{
  on_entry, on_exit, dir_entry, copy_chunk, cell_add_chunk, cell_get_chunk, cell_has_chunk,
}
use theo.Cell.Valid.{IsCell, IsQuiet, overflowed, listed}
use theo.Cell.Top.{TopAdded, final, cell_body_add_top-eq, cell_body_add_top-TopAdded}

-- What the directory function finds is what is listed.
dir_entry-listed :
    (cell : Cell) (c : Checksum) → IsCell cell → block_no c < 256 → dir_entry cell c ≡ listed cell c
dir_entry-listed cell c v low =
    cell_dir_get_chunk_lem cell.cell_header.cell_dir cell.slab (buffer_top cell) v.dir c low

-- A chunk that is there already is not added again, and the cell stays as it is.
pub cell_add_chunk-listed :
    (cell : Cell) (c : Checksum) (buffer : List ℕ)
    → cell_has_chunk cell c ≡ true
    → cell_add_chunk cell c buffer ≡ some (false, cell)
unfolding cell_has_chunk cell_add_chunk
cell_add_chunk-listed cell c buffer h = ground arith

-- The bytes of a chunk that was copied out.
pub record Holds (chunk : Chunk) (c : Checksum) (buffer : List ℕ) : Type 0 where
  pub checksum : chunk.checksum ≡ c
  pub size : chunk.buffer_size ≡ length buffer
  pub content : take (length buffer) chunk.buffer ≡ buffer

-- What a chunk becomes when the bytes are copied to it.
abbrev pub filled : Chunk → Checksum → List ℕ → Chunk
filled chunk c buffer = record {
  checksum = c;
  buffer = buffer ++ drop (length buffer) chunk.buffer;
  buffer_size = length buffer % 2 ^ 16;
}

chunk_set-filled :
    (chunk : Chunk) (c : Checksum) (buffer : List ℕ)
    → length buffer < 2 ^ 15
    → chunk_set chunk c buffer ≡ some (filled chunk c buffer)
unfolding chunk_set
chunk_set-filled chunk c buffer short =
    let fits : leb (length buffer) 32768 ≡ true = ground arith in rw fits

filled-Holds :
    (chunk : Chunk) (c : Checksum) (buffer : List ℕ)
    → length buffer < 2 ^ 15
    → Holds (filled chunk c buffer) c buffer
filled-Holds chunk c buffer short = record {
  checksum = refl;
  size = omega arith;
  content = take-length_append buffer (drop (length buffer) chunk.buffer);
}

pub get-found :
    (cell : Cell) (c : Checksum) (chunk : Chunk) (e : CellDirEntry)
    → dir_entry cell c ≡ some e
    → cell_get_chunk cell c chunk ≡ copy_chunk cell chunk e
unfolding cell_get_chunk
get-found cell c chunk e at = rw (at, cell_get_chunk)

pub get-none :
    (cell : Cell) (c : Checksum) (chunk : Chunk)
    → dir_entry cell c ≡ none
    → cell_get_chunk cell c chunk ≡ some (false, chunk)
unfolding cell_get_chunk
get-none cell c chunk at = rw (at, cell_get_chunk)

pub copy-Holds :
    (cell : Cell) (buffer : List ℕ) (e : CellDirEntry) (chunk : Chunk)
    → (entry_at cell e.offset).size ≡ length buffer
    → read cell.slab (e.offset + 36) (length buffer) ≡ buffer
    → length buffer < 2 ^ 15
    → copy_chunk cell chunk e ≡ some (true, filled chunk e.checksum buffer)
copy-Holds cell buffer e chunk size content short =
    rw (size, content, chunk_set-filled chunk e.checksum buffer short)

-- The cell has gained the chunk: a call that gets it copies its bytes, and the calls that get another
-- chunk give what they gave.
pub record ChunkAdded (cell : Cell) (c : Checksum) (buffer : List ℕ) (cell' : Cell) : Type 0 where
  pub valid : IsCell cell'
  pub quiet : IsQuiet cell'
  pub got :
      (chunk : Chunk)
      → (chunk' : Chunk) × (cell_get_chunk cell' c chunk ≡ some (true, chunk'))
        × Holds chunk' c buffer
  pub same :
      (k : Checksum)
      → k ≢ c
      → block_no k < 256
      → (chunk : Chunk) → cell_get_chunk cell' k chunk ≡ cell_get_chunk cell k chunk
  pub next_is_top : next_offset cell' ≡ top_offset cell'

on_entry-IsCell : (cell : Cell) → IsCell cell → IsCell (on_entry cell)
on_entry-IsCell cell v = record {
  header_fits = v.header_fits;
  small = v.small;
  dir = v.dir;
  apart = v.apart;
  placed = v.placed;
  top_is_top = v.top_is_top;
}

on_exit-IsCell : (cell : Cell) → IsCell cell → IsCell (on_exit cell)
on_exit-IsCell cell v = record {
  header_fits = v.header_fits;
  small = v.small;
  dir = v.dir;
  apart = v.apart;
  placed = v.placed;
  top_is_top = v.top_is_top;
}

-- Two cells that agree on what is listed, and on the bytes below the top of the one, give the same.
get-agree :
    (cell cell' : Cell) (k : Checksum) (chunk : Chunk)
    → IsCell cell
    → IsCell cell'
    → block_no k < 256
    → listed cell' k ≡ listed cell k
    → ((x : ℕ) → x < top_offset cell → cell'.slab x ≡ cell.slab x)
    → cell_get_chunk cell' k chunk ≡ cell_get_chunk cell k chunk
get-agree cell cell' k chunk v v' low same below = elim (Option-cases (listed cell k)) [
  | inl none' ↦
      get-none cell' k chunk (dir_entry-listed cell' k v' low ∙ same ∙ none')
      ∙ sym (get-none cell k chunk (dir_entry-listed cell k v low ∙ none'))
  | inr (f, at) ↦
      let head : load_body_entry cell'.slab f.offset ≡ load_body_entry cell.slab f.offset =
        load_body_entry-agree cell.slab cell'.slab f.offset
          (λ x l u. below x (omega (arith, v.placed k f at))) in
      let bytes : read cell'.slab (f.offset + 36) (load_body_entry cell.slab f.offset).size
          ≡ read cell.slab (f.offset + 36) (load_body_entry cell.slab f.offset).size =
        read-agree cell'.slab cell.slab (f.offset + 36) (load_body_entry cell.slab f.offset).size
          (λ x l u. below x (omega (arith, v.placed k f at))) in
      let copies : copy_chunk cell' chunk f ≡ copy_chunk cell chunk f = rw (head, bytes) refl in
      get-found cell' k chunk f (dir_entry-listed cell' k v' low ∙ same ∙ at)
      ∙ copies
      ∙ sym (get-found cell k chunk f (dir_entry-listed cell k v low ∙ at))
]

module _ (cell : Cell) (c : Checksum) (buffer : List ℕ) (v : IsCell cell) (quiet : IsQuiet cell)
    (bytes : length c ≡ 32) (low : block_no c < 256) (fresh : listed cell c ≡ none)
    (few : overflowed cell < 4095) (short : length buffer < 2 ^ 15)
    (room : length buffer + 72 ≤ cell_body_free_space cell)
    (at_top : next_offset cell ≡ top_offset cell) where
  abbrev entered : Cell
  entered = on_entry cell

  entered_room : length buffer + 72 ≤ cell_body_free_space entered
  unfolding cell_body_free_space cell_header_bytes_used
  entered_room = room

  abbrev after : Cell
  after = final entered c buffer (on_entry-IsCell cell v) bytes low fresh few short entered_room

  added : TopAdded entered c buffer after
  added =
      cell_body_add_top-TopAdded entered c buffer (on_entry-IsCell cell v) bytes low fresh few short
        entered_room

  through_top : cell_body_add entered c buffer ≡ some after
  unfolding cell_body_add cell_body_entry_top
  through_top =
      let tops : cell_body_entry_top (entry_at entered (next_offset entered)) ≡ true =
        rw at_top (ground (arith, v.top_is_top)) in
      rw (
        tops,
        cell_body_add_top-eq entered c buffer (on_entry-IsCell cell v) bytes low fresh few short
            entered_room,
      )

  returned : cell_add_chunk cell c buffer ≡ some (true, on_exit after)
  unfolding cell_add_chunk
  returned = rw (dir_entry-listed cell c v low ∙ fresh, through_top, cell_add_chunk)

  -- On a valid and sane cell whose next entry is the top, with fewer than 4095 overflowed entries and room
  -- for a chunk of less than 32 KiB that is not listed: the call that adds it returns true, the cell is
  -- valid and sane again with its next entry at the top, the chunk can be got with its bytes, and getting
  -- any other chunk gives what it gave.
  pub cell_add_chunk_lem :
      (cell' : Cell) × (cell_add_chunk cell c buffer ≡ some (true, cell'))
      × ChunkAdded cell c buffer cell'
  cell_add_chunk_lem = (
    on_exit after,
    returned,
    record {
      valid = on_exit-IsCell after added.valid;
      quiet = record {
        codes = on_entry-on_exit-IsIc cell.cell_header.cell_ic quiet.codes;
        sane = cell_ic_on_exit-sane (cell_ic_on_entry cell.cell_header.cell_ic);
      };
      got = λ chunk. (
        filled chunk c buffer,
        get-found (on_exit after) c chunk added.entry (
              dir_entry-listed (on_exit after) c (on_exit-IsCell after added.valid) low
              ∙ added.is_listed)
            ∙ copy-Holds (on_exit after) buffer added.entry chunk added.size added.content short
            ∙ ap (λ k. some (true, filled chunk k buffer)) added.key,
        filled-Holds chunk c buffer short,
      );
      same = λ k ne lo chunk.
          get-agree cell (on_exit after) k chunk v (on_exit-IsCell after added.valid) lo
            (added.same k ne) added.below;
      next_is_top = added.next_is_top;
    },
  )
