-- ===== src/Cell/Threads/Leave.antt =====
-- What a thread that holds the mutex of src/theo/cell.c does on its own.
use theo.Base.{ℕ, ◌≡◌, refl, sym, ap, ◌∙◌, inl, inr, false, none, some, List, Option-cases, arith}
use theo.Checksum.{Checksum}
use theo.CellDirEntry.{CellDirEntry}
use theo.CellState.{Cell}
use theo.CellBody.{cell_body_add}
use theo.Chunk.{Chunk}
use theo.Cell.{on_entry, on_exit, dir_entry, copy_chunk, cell_add_chunk, cell_get_chunk}
use theo.Ring.Chain.{Item}
use theo.Ring.Offset.{IsStuck}
use theo.Ring.Past.{called, past-get}
use theo.Cell.Threads.{
  Mutex, Request, add_chunk, get_chunk, has_chunk, entry_count, byte_count, get_metrics, Answer,
  said, copied, At, looking, entering, adding, exiting, copying, leaving, look, advance, Fits,
  Event, put, Machine, Reachable,
}
use theo.Cell.Threads.Inside.{During, looks, enters, adds, exits, copies, leaves}
use theo.Cell.Threads.Sequence.{given, Settled, Sequential-Settled}
use theo.Cell.Threads.Locking.{put-own, Locking, free, held}
use theo.Cell.Threads.Reached.{Reachable-Serial}

module _ {Mu : Type 0} (mu : Mutex Mu) where
  -- Some steps of the thread alone lead to its unlock, after which the mutex is free, or to an abort of
  -- `cell_body_add` on a cell that is stuck.
  pub data Leaves (t : ℕ) : Machine Mu → Type 0 where
    unlocks :
        {m : Machine Mu} (r : Request) (a : Answer) (mutex : Mu)
        → m.threads t ≡ leaving r a
        → mu.unlock t m.mutex ≡ some mutex
        → mu.holder mutex ≡ none
        → Leaves t m
    steps :
        {m : Machine Mu} (cell : Cell) (p : At)
        → advance m.cell (m.threads t) ≡ some (cell, p)
        → Leaves t (record m { cell = cell; threads = put m.threads t p })
        → Leaves t m
    stuck :
        {m : Machine Mu} (base : Cell) (i : Item) (post : List Item)
        → m.threads t ≡ adding i.checksum i.bytes
        → m.cell ≡ on_entry base
        → cell_body_add m.cell i.checksum i.bytes ≡ none
        → IsStuck base i post
        → Leaves t m

  module _ (t : ℕ) where
    leave_from :
        (m : Machine Mu) (r : Request) (a : Answer)
        → mu.holder m.mutex ≡ some t
        → m.threads t ≡ leaving r a
        → Leaves t m
    leave_from m r a holds at =
        let (mutex, e, open') = mu.unlock_own t m.mutex holds in unlocks r a mutex at e open'

    step_to :
        (m : Machine Mu) (cell : Cell) (p q : At)
        → m.threads t ≡ p
        → advance m.cell p ≡ some (cell, q)
        → ((m' : Machine Mu) → m'.mutex ≡ m.mutex → m'.cell ≡ cell → m'.threads t ≡ q → Leaves t m')
        → Leaves t m
    step_to m cell p q at e after = steps cell q (ap (advance m.cell) at ∙ e) (
        after (record m { cell = cell; threads = put m.threads t q }) refl refl
          (put-own m.threads t q))

    exits_from :
        (m : Machine Mu) (c : Checksum) (buffer : List ℕ)
        → mu.holder m.mutex ≡ some t
        → m.threads t ≡ exiting c buffer
        → Leaves t m
    unfolding advance
    exits_from m c buffer holds at =
        step_to m (on_exit m.cell) (exiting c buffer) _ at refl
          (λ m' mutex cell at'. leave_from m' _ _ (ap mu.holder mutex ∙ holds) at')

    -- `cell_body_add` aborts on a stuck cell only.
    adds_from :
        (past : List Item) (base : Cell) (m : Machine Mu) (c : Checksum) (buffer : List ℕ)
        → Settled past base
        → Fits (add_chunk c buffer)
        → dir_entry base c ≡ none
        → m.cell ≡ on_entry base
        → mu.holder m.mutex ≡ some t
        → m.threads t ≡ adding c buffer
        → Leaves t m
    unfolding advance cell_add_chunk
    adds_from past base m c buffer v fits none' cell holds at =
        let i : Item = record { checksum = c; bytes = buffer } in
        elim (Option-cases (cell_body_add m.cell c buffer)) [
          | inr (cell', eq) ↦
              step_to m cell' (adding c buffer) (exiting c buffer) at (rw eq refl)
                (λ m' mutex same at'. exits_from m' c buffer (ap mu.holder mutex ∙ holds) at')
          | inl aborts ↦
              let here : cell_body_add (on_entry base) c buffer ≡ none =
                ap (λ x. cell_body_add x c buffer) (sym cell) ∙ aborts in
              let whole : cell_add_chunk base c buffer ≡ none =
                rw (none', cell_add_chunk) (rw here refl) in
              elim (called past base i v.ring fits) [
                | inl done ↦ absurd (ground (arith, done.returns, whole))
                | inr (eq, is_stuck) ↦ stuck base i _ at cell aborts is_stuck
              ]
        ]

    enters_from :
        (past : List Item) (base : Cell) (m : Machine Mu) (c : Checksum) (buffer : List ℕ)
        → Settled past base
        → Fits (add_chunk c buffer)
        → dir_entry base c ≡ none
        → m.cell ≡ base
        → mu.holder m.mutex ≡ some t
        → m.threads t ≡ entering c buffer
        → Leaves t m
    unfolding advance
    enters_from past base m c buffer v fits none' cell holds at =
        step_to m (on_entry m.cell) (entering c buffer) (adding c buffer) at refl
          (λ m' mutex same at'.
            adds_from past base m' c buffer v fits none' (same ∙ ap on_entry cell)
              (ap mu.holder mutex ∙ holds) at')

    -- What is listed is never too long to be copied.
    copies_from :
        (past : List Item) (base : Cell) (m : Machine Mu) (c : Checksum) (k : Chunk)
        (e : CellDirEntry)
        → Settled past base
        → Fits (get_chunk c k)
        → dir_entry base c ≡ some e
        → m.cell ≡ base
        → mu.holder m.mutex ≡ some t
        → m.threads t ≡ copying c k e
        → Leaves t m
    unfolding advance cell_get_chunk
    copies_from past base m c k e v fits listed cell holds at =
        elim (Option-cases (copy_chunk m.cell k e)) [
          | inr ((b, k'), eq) ↦
              step_to m m.cell (copying c k e) (leaving (get_chunk c k) (copied b k')) at
                (rw eq refl)
                (λ m' mutex same at'. leave_from m' _ _ (ap mu.holder mutex ∙ holds) at')
          | inl aborts ↦
              let here : copy_chunk base k e ≡ none =
                ap (λ x. copy_chunk x k e) (sym cell) ∙ aborts in
              let whole : cell_get_chunk base c k ≡ none = rw (listed, cell_get_chunk) here in
              elim (past-get past base c k v.ring fits) [
                | inl gets ↦ absurd (ground (arith, gets, whole))
                | inr (i, member, same, gets) ↦ absurd (ground (arith, gets, whole))
              ]
        ]

    looks_from :
        (past : List Item) (base : Cell) (m : Machine Mu) (r : Request)
        → Settled past base
        → Fits r
        → m.cell ≡ base
        → mu.holder m.mutex ≡ some t
        → m.threads t ≡ looking r
        → Leaves t m
    unfolding advance look
    looks_from past base m (add_chunk c buffer) v fits cell holds at =
        elim (Option-cases (dir_entry base c)) [
          | inl none' ↦
              step_to m m.cell _ (entering c buffer) at
                (ap (λ x. some (m.cell, x)) (rw (ap (λ x. dir_entry x c) cell ∙ none', look) refl))
                (λ m' mutex same at'.
                  enters_from past base m' c buffer v fits none' (same ∙ cell)
                    (ap mu.holder mutex ∙ holds) at')
          | inr (e, listed) ↦
              step_to m m.cell _ (leaving (add_chunk c buffer) (said false)) at
                (ap (λ x. some (m.cell, x)) (rw (ap (λ x. dir_entry x c) cell ∙ listed, look) refl))
                (λ m' mutex same at'. leave_from m' _ _ (ap mu.holder mutex ∙ holds) at')
        ]
    looks_from past base m (get_chunk c k) v fits cell holds at =
        elim (Option-cases (dir_entry base c)) [
          | inl none' ↦
              step_to m m.cell _ (leaving (get_chunk c k) (copied false k)) at
                (ap (λ x. some (m.cell, x)) (rw (ap (λ x. dir_entry x c) cell ∙ none', look) refl))
                (λ m' mutex same at'. leave_from m' _ _ (ap mu.holder mutex ∙ holds) at')
          | inr (e, listed) ↦
              step_to m m.cell _ (copying c k e) at
                (ap (λ x. some (m.cell, x)) (rw (ap (λ x. dir_entry x c) cell ∙ listed, look) refl))
                (λ m' mutex same at'.
                  copies_from past base m' c k e v fits listed (same ∙ cell)
                    (ap mu.holder mutex ∙ holds) at')
        ]
    looks_from past base m (has_chunk c) v fits cell holds at =
        step_to m m.cell _ _ at refl
          (λ m' mutex same at'. leave_from m' _ _ (ap mu.holder mutex ∙ holds) at')
    looks_from past base m entry_count v fits cell holds at =
        step_to m m.cell _ _ at refl
          (λ m' mutex same at'. leave_from m' _ _ (ap mu.holder mutex ∙ holds) at')
    looks_from past base m byte_count v fits cell holds at =
        step_to m m.cell _ _ at refl
          (λ m' mutex same at'. leave_from m' _ _ (ap mu.holder mutex ∙ holds) at')
    looks_from past base m (get_metrics metrics) v fits cell holds at =
        step_to m m.cell _ _ at refl
          (λ m' mutex same at'. leave_from m' _ _ (ap mu.holder mutex ∙ holds) at')

    During-Leaves :
        (past : List Item) (base cell : Cell) (m : Machine Mu) (p : At)
        → Settled past base
        → During base cell p
        → m.cell ≡ cell
        → m.threads t ≡ p
        → mu.holder m.mutex ≡ some t
        → Leaves t m
    During-Leaves past base _ m _ v (looks r fits) same at holds =
        looks_from past base m r v fits same holds at
    During-Leaves past base _ m _ v (enters c buffer fits none') same at holds =
        enters_from past base m c buffer v fits none' same holds at
    During-Leaves past base _ m _ v (adds c buffer fits none') same at holds =
        adds_from past base m c buffer v fits none' same holds at
    During-Leaves past base _ m _ v (exits c buffer fits none' eq) same at holds =
        exits_from m c buffer holds at
    During-Leaves past base _ m _ v (copies c k e fits listed) same at holds =
        copies_from past base m c k e v fits listed same holds at
    During-Leaves past base _ m _ v (leaves r a) same at holds = leave_from m r a holds at

  -- On a new cell of 1 MiB, where the chunks added are of 2 to 24 KiB, after any steps of the threads
  -- and any crashes the one that holds the mutex needs no other to go on: its own steps lead to its
  -- unlock, or to an abort of `cell_body_add` on a cell that is stuck.
  pub Reachable-Leaves :
      (log : List Event) (m : Machine Mu) (t : ℕ)
      → Reachable mu log m
      → mu.holder m.mutex ≡ some t
      → Leaves t m
  Reachable-Leaves log m t was holds =
      let v = Reachable-Serial mu log m was in
      go v.base (Sequential-Settled log v.base v.calls) v.locking
    where
      go : (base : Cell) → Settled (given log) base → Locking mu base m → Leaves t m
      go base settled (free open' same none') = absurd (ground (arith, open', holds))
      go base settled (held h holds' during others) =
          let one : h ≡ t = ground (arith, holds, holds') in
          During-Leaves t (given log) base m.cell m (m.threads h) settled during refl
            (ap m.threads (sym one)) holds
