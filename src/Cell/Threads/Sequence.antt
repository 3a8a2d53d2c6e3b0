-- ===== src/Cell/Threads/Sequence.antt =====
-- The calls of src/theo/cell.c each at once, and the crash of one of them.
use theo.Base.{
  ℕ, ◌≡◌, refl, sym, ap, ◌∙◌, inl, inr, Bool, true, false, Option, none, some, List, [], ◌∷◌,
  Bool-cases, Option-cases, arith,
}
use mathlib.Core.Path.{subst}
use theo.Checksum.{Checksum}
use theo.Memory.{Memory}
use theo.CellIc.{cell_ic_on_entry, cell_ic_on_exit, cell_ic_sane}
use theo.CellIc.Laws.{cell_ic_on_exit-sane, on_entry-on_exit-IsIc, IsIc}
use theo.CellState.{Cell, CellHeader}
use theo.CellHeader.{cell_header_sane}
use theo.CellBody.{cell_body_add}
use theo.CellBody.Codes.{codes, Keeps, aborts, keeps, cell_body_add-codes}
use theo.Cell.{on_entry, on_exit, dir_entry, cell_init, cell_add_chunk, cell_get_chunk}
use theo.Cell.Recover.{IsFresh, cell_init-insane, cell_init-crashed}
use theo.Cell.Valid.{IsQuiet}
use theo.Ring.Chain.{Item}
use theo.Ring.Past.{RingOfPast}
use theo.Ring.History.{fresh-RingOfPast, reopened-RingOfPast, sane-eq, next_of}
use theo.Cell.Threads.{
  Request, add_chunk, get_chunk, has_chunk, entry_count, byte_count, get_metrics, Answer, apply,
  Fits, Event, did, restarted, Sequential, fresh, next, reopened, emptied,
}

-- The chunks given to the calls.
abbrev pub given : List Event → List Item
given [] = []
given (did t (add_chunk c buffer) a ∷ log) = record { checksum = c; bytes = buffer } ∷ given log
given (_ ∷ log) = given log

body_quiet :
    (base : Cell) (o : Option Cell) (cell : Cell)
    → Keeps (cell_ic_on_entry (codes base)) o
    → IsQuiet base
    → o ≡ some cell
    → codes cell ≡ cell_ic_on_entry (codes base)
body_quiet base _ cell aborts quiet e = absurd (ground (arith, e))
body_quiet base _ cell (keeps {cell = cell'} k) quiet e =
    let same : cell' ≡ cell = ground (arith, e) in ap codes (sym same) ∙ k

-- `cell_body_add` leaves the counters as they are on entry.
pub body-codes :
    (base cell : Cell) (c : Checksum) (buffer : List ℕ)
    → IsQuiet base
    → cell_body_add (on_entry base) c buffer ≡ some cell
    → codes cell ≡ cell_ic_on_entry (codes base)
body-codes base cell c buffer quiet e =
    body_quiet base (cell_body_add (on_entry base) c buffer) cell
      (cell_body_add-codes (cell_ic_on_entry (codes base)) (on_entry base) c buffer refl) quiet e

exit-IsQuiet :
    (base cell : Cell)
    → IsQuiet base
    → codes cell ≡ cell_ic_on_entry (codes base)
    → IsQuiet (on_exit cell)
exit-IsQuiet base cell quiet k =
    let same : codes (on_exit cell) ≡ cell_ic_on_exit (cell_ic_on_entry (codes base)) =
      ap cell_ic_on_exit k in
    record {
      codes = subst IsIc (sym same) (on_entry-on_exit-IsIc (codes base) quiet.codes);
      sane = ap cell_ic_sane same ∙ cell_ic_on_exit-sane (cell_ic_on_entry (codes base));
    }

add-IsQuiet :
    (cell cell' : Cell) (c : Checksum) (buffer : List ℕ) (b : Bool)
    → IsQuiet cell
    → cell_add_chunk cell c buffer ≡ some (b, cell')
    → IsQuiet cell'
unfolding cell_add_chunk
add-IsQuiet cell cell' c buffer b quiet e = elim (Option-cases (dir_entry cell c)) [
  | inr (f, at) ↦
      let was : cell_add_chunk cell c buffer ≡ some (false, cell) = rw (at, cell_add_chunk) refl in
      let same : cell ≡ cell' = ground (arith, was, e) in subst IsQuiet same quiet
  | inl none' ↦ elim (Option-cases (cell_body_add (on_entry cell) c buffer)) [
    | inl stuck ↦
        let was : cell_add_chunk cell c buffer ≡ none =
          rw (none', cell_add_chunk) (rw stuck refl) in
        absurd (ground (arith, was, e))
    | inr (done, eq) ↦
        let was : cell_add_chunk cell c buffer ≡ some (true, on_exit done) =
          rw (none', cell_add_chunk) (rw eq refl) in
        let same : on_exit done ≡ cell' = ground (arith, was, e) in
        subst IsQuiet same (exit-IsQuiet cell done quiet (body-codes cell done c buffer quiet eq))
  ]
]

-- A cell that is a ring of chunks that were given, with no call under way.
pub record Settled (past : List Item) (cell : Cell) : Type 0 where
  pub ring : RingOfPast past cell
  pub quiet : IsQuiet cell

reopened-IsQuiet :
    (past : List Item) (cell cell' : Cell)
    → Settled past cell
    → cell_init true cell.cell_header cell.slab 1048576 ≡ some cell'
    → IsQuiet cell'
reopened-IsQuiet past cell cell' v inits = elim (Bool-cases (cell_header_sane cell.cell_header)) [
  | inl sane ↦ subst IsQuiet (sane-eq cell cell' v.ring.ring.ring.gap.whole sane inits) v.quiet
  | inr insane ↦
      let (made, eq, new) =
        cell_init-insane cell.cell_header cell.slab 1048576 (omega arith) (omega arith) insane in
      let same : made ≡ cell' = ground (arith, eq, inits) in subst IsQuiet same new.quiet
]

apply-Settled :
    (past : List Event) (t : ℕ) (cell cell' : Cell) (r : Request) (a : Answer)
    → Settled (given past) cell
    → Fits r
    → apply cell r ≡ some (a, cell')
    → Settled (given (did t r a ∷ past)) cell'
unfolding apply
apply-Settled past t cell cell' (add_chunk c buffer) a v fits e =
    elim (Option-cases (cell_add_chunk cell c buffer)) [
      | inl none' ↦ absurd (ground (arith, none', e))
      | inr ((b, new), eq) ↦
          let same : new ≡ cell' = ground (arith, eq, e) in
          let eq' : cell_add_chunk cell c buffer ≡ some (b, cell') =
            eq ∙ ap (λ x. some (b, x)) same in
          record {
            ring =
                next_of (given past) cell cell' (record { checksum = c; bytes = buffer }) b v.ring
                  fits eq';
            quiet = add-IsQuiet cell cell' c buffer b v.quiet eq';
          }
    ]
apply-Settled past t cell cell' (get_chunk c k) a v fits e =
    elim (Option-cases (cell_get_chunk cell c k)) [
      | inl none' ↦ absurd (ground (arith, none', e))
      | inr ((b, k'), eq) ↦
          let same : cell ≡ cell' = ground (arith, eq, e) in subst (Settled (given past)) same v
    ]
apply-Settled past t cell cell' (has_chunk c) a v fits e =
    let same : cell ≡ cell' = ground (arith, e) in subst (Settled (given past)) same v
apply-Settled past t cell cell' entry_count a v fits e =
    let same : cell ≡ cell' = ground (arith, e) in subst (Settled (given past)) same v
apply-Settled past t cell cell' byte_count a v fits e =
    let same : cell ≡ cell' = ground (arith, e) in subst (Settled (given past)) same v
apply-Settled past t cell cell' (get_metrics metrics) a v fits e =
    let same : cell ≡ cell' = ground (arith, e) in subst (Settled (given past)) same v

pub Sequential-Settled :
    (log : List Event) (cell : Cell) → Sequential log cell → Settled (given log) cell
Sequential-Settled _ _ (fresh {cell} f) = record {
  ring = fresh-RingOfPast [] cell f;
  quiet = f.quiet;
}
Sequential-Settled _ _ (next {log} {cell} {cell'} t r a was fits e) =
    apply-Settled log t cell cell' r a (Sequential-Settled log cell was) fits e
Sequential-Settled _ _ (reopened {log} {cell} {cell'} was inits) =
    let v = Sequential-Settled log cell was in
    record {
      ring = reopened-RingOfPast (given log) cell cell' v.ring inits;
      quiet = reopened-IsQuiet (given log) cell cell' v inits;
    }
Sequential-Settled _ _ (emptied {log} {cell} {cell'} was f) = record {
  ring = fresh-RingOfPast (given log) cell' f;
  quiet = f.quiet;
}

-- A crash under counters that are those on entry leaves a file that is made anew.
pub crashed-Sequential :
    (log : List Event) (base cell : Cell) (h : CellHeader) (bytes : Memory)
    → Sequential log base
    → h.cell_ic ≡ cell_ic_on_entry (codes base)
    → cell_init true h bytes 1048576 ≡ some cell
    → Sequential (restarted ∷ log) cell
crashed-Sequential log base cell h bytes was k inits =
    let v = Sequential-Settled log base was in
    let (made, eq, new) =
      cell_init-crashed base h bytes 1048576 v.quiet k (omega arith) (omega arith) in
    let same : made ≡ cell = ground (arith, eq, inits) in
    emptied was (subst (λ x. IsFresh x 1048576) same new)
