-- ===== src/Cell/Threads/Locking.antt =====
-- The mutex of src/theo/cell.c and the threads: who is between lock and unlock, and how far.
use theo.Base.{
  ℕ, ◌≡◌, ◌≢◌, ◌⊎◌, refl, sym, ap, ◌∙◌, inl, inr, true, false, Option, none, some, List, ◌==◌,
  Bool-cases, arith,
}
use mathlib.Core.Path.{subst}
use theo.CellState.{Cell}
use theo.Cell.Threads.{
  Mutex, Request, At, idle, waiting, looking, advance, Fits, Event, log_of, put, Machine, started,
  Sequential, next,
}
use theo.Cell.Threads.Inside.{
  is_inside, During, looks, leaves, Moved, looked_up, entered, added, found, through, Moves, stays,
  moves, advance-Moves, outside-advance, During-inside,
}

abbrev pub Asks : At → Type 0
Asks (waiting r) = Fits r
Asks _ = Unit

pub put-own : (f : ℕ → At) (t : ℕ) (p : At) → put f t p t ≡ p
put-own f t p = ground arith

pub put-other : (f : ℕ → At) (t : ℕ) (p : At) (u : ℕ) → u ≢ t → put f t p u ≡ f u
put-other f t p u differ = ground arith

pub same_or_not : (u t : ℕ) → (u ≡ t) ⊎ (u ≢ t)
same_or_not u t = elim (Bool-cases (u == t)) [
  | inl same ↦ inl (ground arith)
  | inr other ↦ inr (λ e. ground (arith, e, other))
]

-- What holds of the new place and of the other threads holds of all.
pub put_all :
    (P : ℕ → At → Type 0) (f : ℕ → At) (t : ℕ) (p : At)
    → P t p
    → ((u : ℕ) → u ≢ t → P u (f u))
    → (u : ℕ) → P u (put f t p u)
put_all P f t p new old u = elim (same_or_not u t) [
  | inl same ↦ subst (λ v. P v (put f t p v)) (sym same) (subst (P t) (sym (put-own f t p)) new)
  | inr other ↦ subst (P u) (sym (put-other f t p u other)) (old u other)
]

-- The others stay outside.
pub put_outside :
    (f : ℕ → At) (h t : ℕ) (p : At)
    → ((u : ℕ) → u ≢ h → is_inside (f u) ≡ false)
    → (t ≢ h → is_inside p ≡ false)
    → (u : ℕ) → u ≢ h
    → is_inside (put f t p u) ≡ false
put_outside f h t p others new =
    put_all (λ u q. u ≢ h → is_inside q ≡ false) f t p new (λ u other. others u)

pub put-Asks :
    (f : ℕ → At) (t : ℕ) (p : At) → ((u : ℕ) → Asks (f u)) → Asks p → (u : ℕ) → Asks (put f t p u)
put-Asks f t p asks new = put_all (λ u. Asks) f t p new (λ u other. asks u)

module _ {Mu : Type 0} (mu : Mutex Mu) where
  -- The mutex is free, and no thread is inside; or it is held, by the one thread inside.
  pub data Locking (base : Cell) (m : Machine Mu) : Type 0 where
    free :
        mu.holder m.mutex ≡ none
        → base ≡ m.cell
        → ((u : ℕ) → is_inside (m.threads u) ≡ false)
        → Locking base m
    held :
        (t : ℕ)
        → mu.holder m.mutex ≡ some t
        → During base m.cell (m.threads t)
        → ((u : ℕ) → u ≢ t → is_inside (m.threads u) ≡ false)
        → Locking base m

  -- The calls that have done what they do, each at once, lead to `base`.
  pub record Serial (log : List Event) (m : Machine Mu) : Type 0 where
    pub base : Cell
    pub calls : Sequential log base
    pub locking : Locking base m
    pub asks : (u : ℕ) → Asks (m.threads u)

  pub started-Serial :
      (log : List Event) (cell : Cell) → Sequential log cell → Serial log (started mu cell)
  started-Serial log cell calls = record {
    base = cell;
    calls = calls;
    locking = free mu.init_free refl (λ u. refl);
    asks = λ u. tt;
  }

  -- The thread that is inside is the holder.
  pub is_holder :
      (threads : ℕ → At) (t u : ℕ)
      → is_inside (threads t) ≡ true
      → ((u : ℕ) → u ≢ t → is_inside (threads u) ≡ false)
      → is_inside (threads u) ≡ true
      → u ≡ t
  is_holder threads t u here others inside = elim (same_or_not u t) [
    | inl same ↦ same
    | inr other ↦ absurd (ground (arith, others u other, inside))
  ]

  pub called-Locking :
      (base : Cell) (m : Machine Mu) (t : ℕ) (r : Request)
      → Locking base m
      → m.threads t ≡ idle
      → Locking base (record m { threads = put m.threads t (waiting r) })
  called-Locking base m t r (free open' same none') at =
      free open' same
        (put_all (λ u p. is_inside p ≡ false) m.threads t (waiting r) refl (λ u other. none' u))
  called-Locking base m t r (held h holds during others) at = elim (same_or_not h t) [
    | inl same ↦
        let inside = During-inside base m.cell (m.threads h) during in
        let out : is_inside (m.threads h) ≡ false =
          ap (λ u. is_inside (m.threads u)) same ∙ ap is_inside at in
        absurd (ground (arith, inside, out))
    | inr other ↦
        held h holds
          (subst (During base m.cell) (sym (put-other m.threads t (waiting r) h other)) during)
          (put_outside m.threads h t (waiting r) others (λ a. refl))
  ]

  -- A thread that locks finds the mutex free.
  pub locked-Locking :
      (base : Cell) (m : Machine Mu) (mutex : Mu) (t : ℕ) (r : Request)
      → Locking base m
      → Fits r
      → mu.lock t m.mutex ≡ some mutex
      → Locking base (record m { mutex = mutex; threads = put m.threads t (looking r) })
  locked-Locking base m mutex t r (held h holds during others) fits locks =
      absurd (ground (arith, mu.lock_held t h m.mutex holds, locks))
  locked-Locking base m mutex t r (free open' same none') fits locks =
      let (mutex', locks', holds) = mu.lock_free t m.mutex open' in
      let one : mutex' ≡ mutex = ground (arith, locks, locks') in
      held t (ap mu.holder (sym one) ∙ holds)
        (subst (λ c. During base c (put m.threads t (looking r) t)) same
          (subst (During base base) (sym (put-own m.threads t (looking r))) (looks r fits)))
        (put_outside m.threads t t (looking r) (λ u other. none' u) (λ other. absurd (other refl)))

  -- A step of a thread that is inside. Where its call is through, the cell is that of the whole call.
  Moved-Serial :
      (log : List Event) (m : Machine Mu) (base cell : Cell) (p : At) (t : ℕ)
      → Sequential log base
      → mu.holder m.mutex ≡ some t
      → ((u : ℕ) → u ≢ t → is_inside (m.threads u) ≡ false)
      → ((u : ℕ) → Asks (m.threads u))
      → Moved base cell p
      → Serial (log_of t p log) (record m { cell = cell; threads = put m.threads t p })
  Moved-Serial log m base cell p t calls holds others asks moved = go moved
    where
      stay :
          (log' : List Event) (base' : Cell) (q : At)
          → Sequential log' base'
          → During base' cell q
          → Asks q
          → Serial log' (record m { cell = cell; threads = put m.threads t q })
      stay log' base' q calls' during ask = record {
        base = base';
        calls = calls';
        locking =
            held t holds (subst (During base' cell) (sym (put-own m.threads t q)) during)
              (put_outside m.threads t t q others (λ other. absurd (other refl)));
        asks = put-Asks m.threads t q asks ask;
      }

      go :
          {q : At}
          → Moved base cell q
          → Serial (log_of t q log) (record m { cell = cell; threads = put m.threads t q })
      go (looked_up during) = stay log base _ calls during tt
      go (entered during) = stay log base _ calls during tt
      go (added during) = stay log base _ calls during tt
      go (found during) = stay log base _ calls during tt
      go (through {r} {a} fits e) = stay _ cell _ (next t r a calls fits e) (leaves r a) tt

  Moves-Moved :
      (base cell : Cell) (p : At) (o : Option (Cell × At))
      → Moves base o
      → o ≡ some (cell, p)
      → Moved base cell p
  Moves-Moved base cell p _ stays e = absurd (ground (arith, e))
  Moves-Moved base cell p _ (moves {cell = cell'} {p = p'} moved) e =
      let same : cell' ≡ cell = ground (arith, e) in
      let same' : p' ≡ p = ground (arith, e) in
      subst (Moved base cell) same' (subst (λ c. Moved base c p') same moved)

  pub stepped-Serial :
      (log : List Event) (m : Machine Mu) (cell : Cell) (p : At) (t : ℕ)
      → Serial log m
      → advance m.cell (m.threads t) ≡ some (cell, p)
      → Serial (log_of t p log) (record m { cell = cell; threads = put m.threads t p })
  stepped-Serial log m cell p t v e = go v.locking
    where
      go :
          Locking v.base m
          → Serial (log_of t p log) (record m { cell = cell; threads = put m.threads t p })
      go (free open' same none') =
          absurd (ground (arith, outside-advance m.cell (m.threads t) (none' t), e))
      go (held h holds during others) = elim (same_or_not t h) [
        | inr other ↦
            absurd (ground (arith, outside-advance m.cell (m.threads t) (others t other), e))
        | inl same ↦
            Moved-Serial log m v.base cell p t v.calls (holds ∙ ap some (sym same))
              (λ u other. others u (λ x. other (x ∙ sym same))) v.asks
              (Moves-Moved v.base cell p (advance m.cell (m.threads t))
                (subst (λ u. Moves v.base (advance m.cell (m.threads u))) (sym same)
                  (advance-Moves v.base m.cell (m.threads h) during))
                e)
      ]
