-- ===== src/Cell/Threads/Inside.antt =====
-- The steps of a thread between lock and unlock in src/theo/cell.c as parts of one whole call.
use theo.Base.{
  ℕ, ◌≡◌, refl, inl, inr, Bool, true, false, Option, none, some, List, Option-cases, arith,
}
use theo.Checksum.{Checksum}
use theo.CellDirEntry.{CellDirEntry}
use theo.CellState.{Cell}
use theo.CellBody.{cell_body_add}
use theo.Chunk.{Chunk}
use theo.Cell.{on_entry, dir_entry, copy_chunk, cell_add_chunk, cell_get_chunk}
use theo.Cell.Threads.{
  Request, add_chunk, get_chunk, has_chunk, entry_count, byte_count, get_metrics, Answer, At, idle,
  waiting, looking, entering, adding, exiting, copying, leaving, look, advance, apply, Fits,
}

abbrev pub is_inside : At → Bool
is_inside idle = false
is_inside (waiting r) = false
is_inside _ = true

-- How far a call on the cell `base` has come, and what it has made of the cell.
pub data During (base : Cell) : Cell → At → Type 0 where
  looks : (r : Request) → Fits r → During base base (looking r)
  enters :
      (c : Checksum) (buffer : List ℕ)
      → Fits (add_chunk c buffer)
      → dir_entry base c ≡ none
      → During base base (entering c buffer)
  adds :
      (c : Checksum) (buffer : List ℕ)
      → Fits (add_chunk c buffer)
      → dir_entry base c ≡ none
      → During base (on_entry base) (adding c buffer)
  exits :
      {cell : Cell} (c : Checksum) (buffer : List ℕ)
      → Fits (add_chunk c buffer)
      → dir_entry base c ≡ none
      → cell_body_add (on_entry base) c buffer ≡ some cell
      → During base cell (exiting c buffer)
  copies :
      (c : Checksum) (k : Chunk) (e : CellDirEntry)
      → Fits (get_chunk c k)
      → dir_entry base c ≡ some e
      → During base base (copying c k e)
  leaves : (r : Request) (a : Answer) → During base base (leaving r a)

-- After a step the call has come further, or it is through, and the cell is that of the whole call.
pub data Moved (base cell : Cell) : At → Type 0 where
  looked_up :
      {c : Checksum} {buffer : List ℕ}
      → During base cell (entering c buffer)
      → Moved base cell (entering c buffer)
  entered :
      {c : Checksum} {buffer : List ℕ}
      → During base cell (adding c buffer)
      → Moved base cell (adding c buffer)
  added :
      {c : Checksum} {buffer : List ℕ}
      → During base cell (exiting c buffer)
      → Moved base cell (exiting c buffer)
  found :
      {c : Checksum} {k : Chunk} {e : CellDirEntry}
      → During base cell (copying c k e)
      → Moved base cell (copying c k e)
  through :
      {r : Request} {a : Answer}
      → Fits r
      → apply base r ≡ some (a, cell)
      → Moved base cell (leaving r a)

pub data Moves (base : Cell) : Option (Cell × At) → Type 0 where
  stays : Moves base none
  moves : {cell : Cell} {p : At} → Moved base cell p → Moves base (some (cell, p))

look-Moved : (base : Cell) (r : Request) → Fits r → Moved base base (look base r)
unfolding look apply cell_add_chunk cell_get_chunk
look-Moved base (add_chunk c buffer) fits = elim (Option-cases (dir_entry base c)) [
  | inl none' ↦ rw (none', look) (looked_up (enters c buffer fits none'))
  | inr (e, at) ↦ rw (at, look) (through fits (rw (at, apply, cell_add_chunk) refl))
]
look-Moved base (get_chunk c k) fits = elim (Option-cases (dir_entry base c)) [
  | inl none' ↦ rw (none', look) (through fits (rw (none', apply, cell_get_chunk) refl))
  | inr (e, at) ↦ rw (at, look) (found (copies c k e fits at))
]
look-Moved base (has_chunk c) fits = through fits refl
look-Moved base entry_count fits = through fits refl
look-Moved base byte_count fits = through fits refl
look-Moved base (get_metrics metrics) fits = through fits refl

pub advance-Moves : (base cell : Cell) (p : At) → During base cell p → Moves base (advance cell p)
unfolding advance apply cell_add_chunk cell_get_chunk
advance-Moves base _ _ (looks r fits) = moves (look-Moved base r fits)
advance-Moves base _ _ (enters c buffer fits none') = moves (entered (adds c buffer fits none'))
advance-Moves base _ _ (adds c buffer fits none') =
    elim (Option-cases (cell_body_add (on_entry base) c buffer)) [
      | inl stuck ↦ rw stuck stays
      | inr (cell', eq) ↦ rw eq (moves (added (exits c buffer fits none' eq)))
    ]
advance-Moves base _ _ (exits c buffer fits none' eq) =
    moves (through fits (rw (none', apply, cell_add_chunk) (rw eq refl)))
advance-Moves base _ _ (copies c k e fits at) = elim (Option-cases (copy_chunk base k e)) [
  | inl long ↦ rw long stays
  | inr ((b, k'), eq) ↦ rw eq (moves (through fits (rw (at, apply, cell_get_chunk) (rw eq refl))))
]
advance-Moves base _ _ (leaves r a) = stays

pub outside-advance : (cell : Cell) (p : At) → is_inside p ≡ false → advance cell p ≡ none
unfolding advance
outside-advance cell idle h = refl
outside-advance cell (waiting r) h = refl
outside-advance cell (looking r) h = absurd (ground arith)
outside-advance cell (entering c buffer) h = absurd (ground arith)
outside-advance cell (adding c buffer) h = absurd (ground arith)
outside-advance cell (exiting c buffer) h = absurd (ground arith)
outside-advance cell (copying c k e) h = absurd (ground arith)
outside-advance cell (leaving r a) h = absurd (ground arith)

pub During-inside : (base cell : Cell) (p : At) → During base cell p → is_inside p ≡ true
During-inside base _ _ (looks r fits) = refl
During-inside base _ _ (enters c buffer fits none') = refl
During-inside base _ _ (adds c buffer fits none') = refl
During-inside base _ _ (exits c buffer fits none' eq) = refl
During-inside base _ _ (copies c k e fits at) = refl
During-inside base _ _ (leaves r a) = refl
