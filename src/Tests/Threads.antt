-- ===== src/Tests/Threads.antt =====
-- Two threads on a new cell: while the first one adds a chunk, the second one waits to get it.
use theo.Base.{
  ℕ, ◌≡◌, ◌⊎◌, refl, sym, ap, ◌∙◌, inl, inr, true, false, Option, none, some, List, [], ◌∷◌,
  Option-cases, arith,
}
use mathlib.Core.List.{Mem}
use theo.Checksum.{Checksum}
use theo.CellDirEntry.{CellDirEntry}
use theo.CellState.{Cell}
use theo.CellBody.{cell_body_add}
use theo.Chunk.{Chunk, chunk_init}
use theo.Cell.{on_entry, on_exit, dir_entry, copy_chunk, cell_add_chunk, cell_get_chunk}
use theo.Cell.Chunks.{filled, cell_add_chunk_lem, ChunkAdded}
use theo.Cell.Threads.{
  Mutex, Request, add_chunk, get_chunk, said, copied, At, idle, waiting, looking, entering, adding,
  exiting, copying, leaving, look, advance, Event, did, Machine, put, Reachable, mapped, called,
  locked, stepped, unlocked, Sequential,
}
use theo.Cell.Threads.Reached.{Reachable-Sequential, Reachable-cell_get_chunk}
use theo.Cell.Threads.Leave.{Leaves, Reachable-Leaves}
use theo.Ring.Chain.{Item}
use theo.Tests.{sum}
use theo.Tests.Ring.{cell, cell-IsFresh, cell-room, bytes_of, item_of, item_of-IsItem, seven}

-- A mutex that says who holds it.
abbrev take_it : ℕ → Option ℕ → Option (Option ℕ)
take_it t none = some (some t)
take_it t (some u) = none

take_free :
    (t : ℕ) (m : Option ℕ) → m ≡ none → (m' : Option ℕ) × (take_it t m ≡ some m') × (m' ≡ some t)
take_free t none e = (some t, refl, refl)
take_free t (some u) e = absurd (ground (arith, e))

take_held : (t u : ℕ) (m : Option ℕ) → m ≡ some u → take_it t m ≡ none
take_held t u none e = absurd (ground (arith, e))
take_held t u (some v) e = refl

abbrev mutex : Mutex (Option ℕ)
mutex = record {
  init = none;
  holder = λ m. m;
  lock = take_it;
  unlock = λ t m. some none;
  init_free = refl;
  lock_free = take_free;
  lock_held = take_held;
  unlock_own = λ t m e. (none, refl, refl);
}

-- What a call that adds goes through, and one that gets.
pub add_parts :
    (before after : Cell) (c : Checksum) (buffer : List ℕ)
    → cell_add_chunk before c buffer ≡ some (true, after)
    → (dir_entry before c ≡ none)
      × (x : Cell) × (cell_body_add (on_entry before) c buffer ≡ some x)
      × (on_exit x ≡ after)
unfolding cell_add_chunk
add_parts before after c buffer e = elim (Option-cases (dir_entry before c)) [
  | inr (f, at) ↦
      let was : cell_add_chunk before c buffer ≡ some (false, before) =
        rw (at, cell_add_chunk) refl in
      absurd (ground (arith, was, e))
  | inl none' ↦ elim (Option-cases (cell_body_add (on_entry before) c buffer)) [
    | inl stuck ↦
        let was : cell_add_chunk before c buffer ≡ none =
          rw (none', cell_add_chunk) (rw stuck refl) in
        absurd (ground (arith, was, e))
    | inr (x, eq) ↦
        let was : cell_add_chunk before c buffer ≡ some (true, on_exit x) =
          rw (none', cell_add_chunk) (rw eq refl) in
        (none', x, eq, ground (arith, was, e))
  ]
]

get_parts :
    (before : Cell) (c : Checksum) (k k' : Chunk)
    → cell_get_chunk before c k ≡ some (true, k')
    → (f : CellDirEntry) × (dir_entry before c ≡ some f) × (copy_chunk before k f ≡ some (true, k'))
unfolding cell_get_chunk
get_parts before c k k' e = elim (Option-cases (dir_entry before c)) [
  | inl none' ↦
      let was : cell_get_chunk before c k ≡ some (false, k) = rw (none', cell_get_chunk) refl in
      absurd (ground (arith, was, e))
  | inr (f, at) ↦
      let was : cell_get_chunk before c k ≡ copy_chunk before k f = rw (at, cell_get_chunk) refl in
      (f, at, sym was ∙ e)
]

added :
    (cell' : Cell) × (cell_add_chunk cell (sum 7) (bytes_of 7) ≡ some (true, cell'))
    × ChunkAdded cell (sum 7) (bytes_of 7) cell'
added =
    cell_add_chunk_lem cell (sum 7) (bytes_of 7) cell-IsFresh.valid cell-IsFresh.quiet refl
      (omega arith) (cell-IsFresh.empty (sum 7)) (omega (arith, cell-IsFresh.none_overflowed))
      (omega (arith, seven)) cell-room cell-IsFresh.next_is_top

parts :
    (dir_entry cell (sum 7) ≡ none)
    × (x : Cell) × (cell_body_add (on_entry cell) (sum 7) (bytes_of 7) ≡ some x)
    × (on_exit x ≡ added.0)
parts = add_parts cell (added.0) (sum 7) (bytes_of 7) (added.1)

abbrev adds : Request
adds = add_chunk (sum 7) (bytes_of 7)

abbrev gets : Request
gets = get_chunk (sum 7) chunk_init

abbrev answer : Chunk
answer = (added.2.got chunk_init).0

-- The first thread is in the midst of its call, the second one waits.
abbrev busy_threads : ℕ → At
busy_threads =
    put
      (put (put (put (put (λ t. idle) 2 (waiting gets)) 1 (waiting adds)) 1 (looking adds)) 1
        (entering (sum 7) (bytes_of 7)))
      1 (adding (sum 7) (bytes_of 7))

abbrev busy : Machine (Option ℕ)
busy = record { cell = on_entry cell; mutex = some 1; threads = busy_threads }

busy-Reachable : Reachable mutex [] busy
unfolding advance look
busy-Reachable =
    stepped 1
      (stepped {p = entering (sum 7) (bytes_of 7)} 1
        (locked 1 adds
          (called 1 adds (called 2 gets (mapped cell-IsFresh) refl (omega arith)) refl
            (item_of-IsItem 7 (omega arith)))
          refl refl)
        (rw (parts.0, look) refl))
      refl

-- The first thread is through, and then the second one is.
abbrev through : List Event
through = did 1 adds (said true) ∷ []

first_through : Reachable mutex through (record {
  cell = on_exit (parts.1);
  mutex = none;
  threads =
      put
        (put (put busy_threads 1 (exiting (sum 7) (bytes_of 7))) 1 (leaving adds (said true)))
        1
        idle;
})
unfolding advance
first_through =
    unlocked 1 adds (said true)
      (stepped {p = leaving adds (said true)} 1
        (stepped {cell = parts.1} {p = exiting (sum 7) (bytes_of 7)} 1 busy-Reachable
          (rw (parts.2) refl))
        refl)
      refl refl

second_through :
    (m : Machine (Option ℕ)) × Reachable mutex (did 2 gets (copied true answer) ∷ through) m
    × (m.mutex ≡ none)
unfolding advance look
second_through =
    let eq : cell_get_chunk (on_exit (parts.1)) (sum 7) chunk_init ≡ some (true, answer) =
      ap (λ x. cell_get_chunk x (sum 7) chunk_init) (parts.3) ∙ (added.2.got chunk_init).1 in
    let (f, at, copies) = get_parts (on_exit (parts.1)) (sum 7) chunk_init answer eq in
    (
      _,
      unlocked 2 gets (copied true answer)
          (stepped {cell = on_exit (parts.1)} {p = leaving gets (copied true answer)} 2
            (stepped {cell = on_exit (parts.1)} {p = copying (sum 7) chunk_init f} 2
              (locked 2 gets first_through refl refl) (rw (at, look) refl))
            (rw copies refl))
          refl refl,
      refl,
    )

Reachable-Leaves_example : Leaves mutex 1 busy
Reachable-Leaves_example = Reachable-Leaves mutex [] busy 1 busy-Reachable refl

Reachable-Sequential_example :
    Sequential (did 2 gets (copied true answer) ∷ through) (second_through.0).cell
Reachable-Sequential_example =
    Reachable-Sequential mutex (did 2 gets (copied true answer) ∷ through) (second_through.0)
      (second_through.1) (second_through.2)

Reachable-cell_get_chunk_example :
    (copied true answer ≡ copied false chunk_init)
    ⊎ ((i : Item) × Mem i (item_of 7 ∷ [])
        × (i.checksum ≡ sum 7)
        × (copied true answer ≡ copied true (filled chunk_init (sum 7) i.bytes)))
Reachable-cell_get_chunk_example =
    Reachable-cell_get_chunk mutex [] through (second_through.0) 2 (sum 7) chunk_init
      (copied true answer) (second_through.1)
