-- ===== src/Cell/Threads/Reached.antt =====
-- What threads in src/theo/cell.c can reach, crashes included.
use theo.Base.{
  ℕ, ◌≡◌, ◌⊎◌, refl, sym, ap, ◌∙◌, inl, inr, true, false, none, some, List, [], ◌∷◌, ◌++◌, arith,
}
use mathlib.Core.List.{Mem}
use mathlib.Core.Path.{subst}
use theo.Checksum.{Checksum}
use theo.Memory.{Memory}
use theo.CellState.{Cell, CellHeader}
use theo.CellBody.Codes.{codes}
use theo.Chunk.{Chunk}
use theo.Cell.{cell_init}
use theo.Cell.Chunks.{filled}
use theo.Ring.Chain.{Item}
use theo.Ring.Past.{past-get}
use theo.Cell.Threads.{
  Mutex, Request, get_chunk, Answer, copied, At, idle, leaving, apply, Fits, is_adding, Event, did,
  restarted, put, Machine, Lost, intact, torn, Reachable, mapped, called, locked, stepped, unlocked,
  crashed, Sequential, fresh, next, reopened, emptied,
}
use theo.Cell.Threads.Inside.{
  is_inside, During, looks, enters, adds, exits, copies, leaves, During-inside,
}
use theo.Cell.Threads.Sequence.{given, Sequential-Settled, body-codes, crashed-Sequential}
use theo.Cell.Threads.Locking.{
  Asks, put_all, put-Asks, Locking, free, held, Serial, started-Serial, is_holder, called-Locking,
  locked-Locking, stepped-Serial,
}

module _ {Mu : Type 0} (mu : Mutex Mu) where
  -- The thread that unlocks is the holder, and the cell is that of whole calls.
  unlocked-Locking :
      (base : Cell) (m : Machine Mu) (mutex : Mu) (t : ℕ) (r : Request) (a : Answer)
      → Locking mu base m
      → m.threads t ≡ leaving r a
      → mu.unlock t m.mutex ≡ some mutex
      → Locking mu base (record m { mutex = mutex; threads = put m.threads t idle })
  unlocked-Locking base m mutex t r a (free open' same none') at unlocks =
      absurd (ground (arith, none' t, ap is_inside at))
  unlocked-Locking base m mutex t r a (held h holds during others) at unlocks =
      let same : t ≡ h =
        is_holder mu m.threads h t (During-inside base m.cell (m.threads h) during) others
          (ap is_inside at) in
      let (mutex', unlocks', open') = mu.unlock_own t m.mutex (holds ∙ ap some (sym same)) in
      let one : mutex' ≡ mutex = ground (arith, unlocks, unlocks') in
      let all : (u : ℕ) → is_inside (put m.threads t idle u) ≡ false =
        put_all (λ u p. is_inside p ≡ false) m.threads t idle refl
          (λ u other. others u (λ x. other (x ∙ sym same))) in
      free (ap mu.holder (sym one) ∙ open')
        (through (subst (During base m.cell) (ap m.threads (sym same) ∙ at) during)) all
    where
      through : {cell : Cell} → During base cell (leaving r a) → base ≡ cell
      through (leaves r a) = refl

  -- A crash in the midst of a call.
  torn-Sequential :
      (log : List Event) (base cell cell' : Cell) (h : CellHeader) (bytes : Memory) (p : At)
      → Sequential log base
      → During base cell p
      → is_adding p ≡ true
      → h.cell_ic ≡ codes cell
      → cell_init true h bytes 1048576 ≡ some cell'
      → Sequential (restarted ∷ log) cell'
  torn-Sequential log base _ cell' h bytes _ calls (adds c buffer fits none') at k inits =
      crashed-Sequential log base cell' h bytes calls k inits
  torn-Sequential log base _ cell' h bytes _ calls (looks r fits) at k inits = absurd (ground arith)
  torn-Sequential log base _ cell' h bytes _ calls (enters c buffer fits n) at k inits =
      absurd (ground arith)
  torn-Sequential log base _ cell' h bytes _ calls (exits c buffer fits n e) at k inits =
      absurd (ground arith)
  torn-Sequential log base _ cell' h bytes _ calls (copies c x e fits n) at k inits =
      absurd (ground arith)
  torn-Sequential log base _ cell' h bytes _ calls (leaves r a) at k inits = absurd (ground arith)

  intact-Sequential :
      (log : List Event) (base cell cell' : Cell) (p : At)
      → Sequential log base
      → During base cell p
      → is_adding p ≡ false
      → cell_init true cell.cell_header cell.slab 1048576 ≡ some cell'
      → Sequential (restarted ∷ log) cell'
  intact-Sequential log base _ cell' _ calls (adds c buffer fits none') at inits =
      absurd (ground arith)
  intact-Sequential log base _ cell' _ calls (exits {cell} c buffer fits none' e) at inits =
      crashed-Sequential log base cell' cell.cell_header cell.slab calls
        (body-codes base cell c buffer (Sequential-Settled log base calls).quiet e) inits
  intact-Sequential log base _ cell' _ calls (looks r fits) at inits = reopened calls inits
  intact-Sequential log base _ cell' _ calls (enters c buffer fits n) at inits =
      reopened calls inits
  intact-Sequential log base _ cell' _ calls (copies c k e fits n) at inits = reopened calls inits
  intact-Sequential log base _ cell' _ calls (leaves r a) at inits = reopened calls inits

  Lost-Sequential :
      (log : List Event) (base : Cell) (m : Machine Mu) (h : CellHeader) (bytes : Memory)
      (cell : Cell)
      → Sequential log base
      → Locking mu base m
      → Lost mu m h bytes
      → cell_init true h bytes 1048576 ≡ some cell
      → Sequential (restarted ∷ log) cell
  Lost-Sequential log base m _ _ cell calls (free open' same none') (intact quiet) inits =
      reopened calls
        (subst (λ c. cell_init true c.cell_header c.slab 1048576 ≡ some cell) (sym same) inits)
  Lost-Sequential log base m _ _ cell calls (free open' same none') (torn t c buffer at k) inits =
      absurd (ground (arith, none' t, ap is_inside at))
  Lost-Sequential log base m _ _ cell calls (held h holds during others) (intact quiet) inits =
      intact-Sequential log base m.cell cell (m.threads h) calls during (quiet h) inits
  Lost-Sequential log base m _ _ cell calls (held h holds during others)
        (torn {h = header} {bytes} t c buffer at k) inits =
      let same : t ≡ h =
        is_holder mu m.threads h t (During-inside base m.cell (m.threads h) during) others
          (ap is_inside at) in
      torn-Sequential log base m.cell cell header bytes (m.threads h) calls during
        (ap (λ u. is_adding (m.threads u)) (sym same) ∙ ap is_adding at) k inits

  pub Reachable-Serial : (log : List Event) (m : Machine Mu) → Reachable mu log m → Serial mu log m
  Reachable-Serial _ _ (mapped {cell} f) = started-Serial mu [] cell (fresh f)
  Reachable-Serial log _ (called {m = m} t r was at fits) =
      let v = Reachable-Serial log m was in
      record {
        base = v.base;
        calls = v.calls;
        locking = called-Locking mu v.base m t r v.locking at;
        asks = put-Asks m.threads t _ v.asks fits;
      }
  Reachable-Serial log _ (locked {m = m} {mutex} t r was at locks) =
      let v = Reachable-Serial log m was in
      record {
        base = v.base;
        calls = v.calls;
        locking = locked-Locking mu v.base m mutex t r v.locking (subst Asks at (v.asks t)) locks;
        asks = put-Asks m.threads t _ v.asks tt;
      }
  Reachable-Serial _ _ (stepped {log} {m} {cell} {p} t was e) =
      stepped-Serial mu log m cell p t (Reachable-Serial log m was) e
  Reachable-Serial log _ (unlocked {m = m} {mutex} t r a was at unlocks) =
      let v = Reachable-Serial log m was in
      record {
        base = v.base;
        calls = v.calls;
        locking = unlocked-Locking v.base m mutex t r a v.locking at unlocks;
        asks = put-Asks m.threads t _ v.asks tt;
      }
  Reachable-Serial _ _ (crashed {log} {m} {h} {bytes} {cell} was lost inits) =
      let v = Reachable-Serial log m was in
      started-Serial mu (restarted ∷ log) cell
        (Lost-Sequential log v.base m h bytes cell v.calls v.locking lost inits)

  -- Any threads on a new cell of 1 MiB that add chunks of 2 to 24 KiB, in any order of their steps,
  -- with crashes at any of them: where the mutex is free, the cell is the one that the same calls make
  -- each at once, in the order of the log and with the same answers.
  pub Reachable-Sequential :
      (log : List Event) (m : Machine Mu)
      → Reachable mu log m
      → mu.holder m.mutex ≡ none
      → Sequential log m.cell
  Reachable-Sequential log m was open' =
      go (Reachable-Serial log m was).calls (Reachable-Serial log m was).locking
    where
      go : {base : Cell} → Sequential log base → Locking mu base m → Sequential log m.cell
      go calls (free open' same none') = subst (Sequential log) same calls
      go calls (held h holds during others) = absurd (ground (arith, open', holds))

-- The calls before one of a log.
Sequential-call :
    (newer older : List Event) (t : ℕ) (r : Request) (a : Answer) (cell : Cell)
    → Sequential (newer ++ (did t r a ∷ older)) cell
    → (before after : Cell) × Sequential older before × Fits r × (apply before r ≡ some (a, after))
Sequential-call [] older t r a _ (next {cell = before} {cell' = after} _ _ _ was fits e) =
    (before, after, was, fits, e)
Sequential-call (_ ∷ newer) older t r a _ (next _ _ _ was fits e) =
    Sequential-call newer older t r a _ was
Sequential-call (_ ∷ newer) older t r a _ (reopened was inits) =
    Sequential-call newer older t r a _ was
Sequential-call (_ ∷ newer) older t r a _ (emptied was f) = Sequential-call newer older t r a _ was

-- On a new cell of 1 MiB, where the chunks added are of 2 to 24 KiB, a call of `cell_get_chunk` by any
-- thread, among the steps of the others and after any crashes: it found nothing, or it returned the
-- bytes that an earlier call of `cell_add_chunk` was given under this checksum.
pub Reachable-cell_get_chunk :
    {Mu : Type 0} (mu : Mutex Mu) (newer older : List Event) (m : Machine Mu) (t : ℕ) (c : Checksum)
    (k : Chunk) (a : Answer)
    → Reachable mu (newer ++ (did t (get_chunk c k) a ∷ older)) m
    → (a ≡ copied false k)
      ⊎ ((i : Item) × Mem i (given older)
          × (i.checksum ≡ c)
          × (a ≡ copied true (filled k c i.bytes)))
unfolding apply
Reachable-cell_get_chunk mu newer older m t c k a was =
    let v = Reachable-Serial mu _ m was in
    let (before, after, calls, low, e) =
      Sequential-call newer older t (get_chunk c k) a v.base v.calls in
    elim (past-get (given older) before c k (Sequential-Settled older before calls).ring low) [
      | inl none' ↦ inl (ground (arith, none', e))
      | inr (i, member, same, gets) ↦ inr (i, member, same, ground (arith, gets, e))
    ]
