-- ===== src/Cell/Threads.antt =====
-- The functions of src/theo/cell.c that hold the mutex of the cell, on any number of threads, step by
-- step: a thread locks, looks the checksum up, changes or copies, and unlocks.
pub mod Inside
pub mod Sequence
pub mod Locking
pub mod Reached
pub mod Leave
use theo.Base.{
  ℕ, ◌<◌, ◌≡◌, Bool, true, false, Option, none, some, List, [], ◌∷◌, ◌==◌, if◌then◌else◌, ◌>>=◌,
}
use mathlib.Core.Option
use theo.Checksum.{Checksum}
use theo.Memory.{Memory}
use theo.CellDir.{block_no}
use theo.CellDirEntry.{CellDirEntry}
use theo.CellState.{Cell, CellHeader}
use theo.CellBody.{cell_body_add}
use theo.CellBody.Codes.{codes}
use theo.Chunk.{Chunk}
use theo.Cell.{
  CacheMetrics, on_entry, on_exit, dir_entry, copy_chunk, cell_init, cell_add_chunk, cell_get_chunk,
  cell_has_chunk, cell_entry_count, cell_byte_count, cell_get_metrics,
}
use theo.Cell.Recover.{IsFresh}
use theo.Ring.Chain.{Item, IsItem}

-- What POSIX says of pthread_mutex. A thread that locks a mutex that is held waits, which is `none`; the
-- holder's unlock succeeds.
pub record Mutex (Mu : Type 0) : Type 0 where
  pub init : Mu
  pub holder : Mu → Option ℕ
  pub lock : ℕ → Mu → Option Mu
  pub unlock : ℕ → Mu → Option Mu
  pub init_free : holder init ≡ none
  pub lock_free :
      (t : ℕ) (m : Mu) → holder m ≡ none → (m' : Mu) × (lock t m ≡ some m') × (holder m' ≡ some t)
  pub lock_held : (t u : ℕ) (m : Mu) → holder m ≡ some u → lock t m ≡ none
  pub unlock_own :
      (t : ℕ) (m : Mu) → holder m ≡ some t → (m' : Mu) × (unlock t m ≡ some m') × (holder m' ≡ none)

-- The calls of the six functions, and what they answer.
pub data Request : Type 0 where
  add_chunk : Checksum → List ℕ → Request
  get_chunk : Checksum → Chunk → Request
  has_chunk : Checksum → Request
  entry_count : Request
  byte_count : Request
  get_metrics : CacheMetrics → Request

pub data Answer : Type 0 where
  said : Bool → Answer
  copied : Bool → Chunk → Answer
  counted : ℕ → Answer
  measured : CacheMetrics → Answer

-- Where a thread is: before the lock, at one of the calls between lock and unlock, or before the unlock.
pub data At : Type 0 where
  idle : At
  waiting : Request → At
  looking : Request → At
  entering : Checksum → List ℕ → At
  adding : Checksum → List ℕ → At
  exiting : Checksum → List ℕ → At
  copying : Checksum → Chunk → CellDirEntry → At
  leaving : Request → Answer → At

-- Where a thread is after `cell_dir_get_chunk`, or after the one call of the other functions.
unfoldable pub look : Cell → Request → At
look cell (add_chunk c buffer) = elim (dir_entry cell c) [
  | some _ ↦ leaving (add_chunk c buffer) (said false)
  | none ↦ entering c buffer
]
look cell (get_chunk c k) = elim (dir_entry cell c) [
  | some e ↦ copying c k e
  | none ↦ leaving (get_chunk c k) (copied false k)
]
look cell (has_chunk c) = leaving (has_chunk c) (said (cell_has_chunk cell c))
look cell entry_count = leaving entry_count (counted (cell_entry_count cell))
look cell byte_count = leaving byte_count (counted (cell_byte_count cell))
look cell (get_metrics metrics) =
    leaving (get_metrics metrics) (measured (cell_get_metrics cell metrics))

-- One step between lock and unlock; `none` is an abort, or a thread that is not there.
unfoldable pub advance : Cell → At → Option (Cell × At)
advance cell idle = none
advance cell (waiting r) = none
advance cell (looking r) = some (cell, look cell r)
advance cell (entering c buffer) = some (on_entry cell, adding c buffer)
advance cell (adding c buffer) =
    cell_body_add cell c buffer >>= λ cell'. some (cell', exiting c buffer)
advance cell (exiting c buffer) = some (on_exit cell, leaving (add_chunk c buffer) (said true))
advance cell (copying c k e) =
    copy_chunk cell k e >>= λ (b, k'). some (cell, leaving (get_chunk c k) (copied b k'))
advance cell (leaving r a) = none

-- The whole call at once.
unfoldable pub apply : Cell → Request → Option (Answer × Cell)
apply cell (add_chunk c buffer) =
    cell_add_chunk cell c buffer >>= λ (b, cell'). some (said b, cell')
apply cell (get_chunk c k) = cell_get_chunk cell c k >>= λ (b, k'). some (copied b k', cell)
apply cell (has_chunk c) = some (said (cell_has_chunk cell c), cell)
apply cell entry_count = some (counted (cell_entry_count cell), cell)
apply cell byte_count = some (counted (cell_byte_count cell), cell)
apply cell (get_metrics metrics) = some (measured (cell_get_metrics cell metrics), cell)

-- The chunks given are of 2 to 24 KiB, and checksums are bytes.
abbrev pub Fits : Request → Type 0
Fits (add_chunk c buffer) = IsItem (record { checksum = c; bytes = buffer })
Fits (get_chunk c k) = block_no c < 256
Fits (has_chunk c) = Unit
Fits entry_count = Unit
Fits byte_count = Unit
Fits (get_metrics metrics) = Unit

abbrev pub is_adding : At → Bool
is_adding (adding c buffer) = true
is_adding _ = false

-- A call that has done what it does, or a restart.
pub data Event : Type 0 where
  did : ℕ → Request → Answer → Event
  restarted : Event

abbrev pub log_of : ℕ → At → List Event → List Event
log_of t (leaving r a) log = did t r a ∷ log
log_of t _ log = log

abbrev pub put : (ℕ → At) → ℕ → At → ℕ → At
put threads t p u = if u == t then p else threads u

pub record Machine (Mu : Type 0) : Type 0 where
  pub cell : Cell
  pub mutex : Mu
  pub threads : ℕ → At

module _ {Mu : Type 0} (mu : Mutex Mu) where
  abbrev pub started : Cell → Machine Mu
  started cell = record { cell = cell; mutex = mu.init; threads = λ t. idle }

  -- What a crash leaves in the file: the cell as it is, or, in the midst of `cell_body_add`, any bytes at
  -- all but for the integrity counters, which `cell_body_add` does not write.
  pub data Lost (m : Machine Mu) : CellHeader → Memory → Type 0 where
    intact : ((t : ℕ) → is_adding (m.threads t) ≡ false) → Lost m m.cell.cell_header m.cell.slab
    torn :
        {h : CellHeader} {bytes : Memory} (t : ℕ) (c : Checksum) (buffer : List ℕ)
        → m.threads t ≡ adding c buffer
        → h.cell_ic ≡ codes m.cell
        → Lost m h bytes

  -- What threads that add chunks of 2 to 24 KiB make of a new cell of 1 MiB, in any order of their
  -- steps, with the calls that have done what they do, the last first. A crash ends all threads, and
  -- the file is mapped again.
  pub data Reachable : List Event → Machine Mu → Type 0 where
    mapped : {cell : Cell} → IsFresh cell 1048576 → Reachable [] (started cell)
    called :
        {log : List Event} {m : Machine Mu} (t : ℕ) (r : Request)
        → Reachable log m
        → m.threads t ≡ idle
        → Fits r
        → Reachable log (record m { threads = put m.threads t (waiting r) })
    locked :
        {log : List Event} {m : Machine Mu} {mutex : Mu} (t : ℕ) (r : Request)
        → Reachable log m
        → m.threads t ≡ waiting r
        → mu.lock t m.mutex ≡ some mutex
        → Reachable log (record m { mutex = mutex; threads = put m.threads t (looking r) })
    stepped :
        {log : List Event} {m : Machine Mu} {cell : Cell} {p : At} (t : ℕ)
        → Reachable log m
        → advance m.cell (m.threads t) ≡ some (cell, p)
        → Reachable (log_of t p log) (record m { cell = cell; threads = put m.threads t p })
    unlocked :
        {log : List Event} {m : Machine Mu} {mutex : Mu} (t : ℕ) (r : Request) (a : Answer)
        → Reachable log m
        → m.threads t ≡ leaving r a
        → mu.unlock t m.mutex ≡ some mutex
        → Reachable log (record m { mutex = mutex; threads = put m.threads t idle })
    crashed :
        {log : List Event} {m : Machine Mu} {h : CellHeader} {bytes : Memory} {cell : Cell}
        → Reachable log m
        → Lost m h bytes
        → cell_init true h bytes 1048576 ≡ some cell
        → Reachable (restarted ∷ log) (started cell)

-- The same calls, each at once, one after another. A restart keeps the cell or empties it.
pub data Sequential : List Event → Cell → Type 0 where
  fresh : {cell : Cell} → IsFresh cell 1048576 → Sequential [] cell
  next :
      {log : List Event} {cell cell' : Cell} (t : ℕ) (r : Request) (a : Answer)
      → Sequential log cell
      → Fits r
      → apply cell r ≡ some (a, cell')
      → Sequential (did t r a ∷ log) cell'
  reopened :
      {log : List Event} {cell cell' : Cell}
      → Sequential log cell
      → cell_init true cell.cell_header cell.slab 1048576 ≡ some cell'
      → Sequential (restarted ∷ log) cell'
  emptied :
      {log : List Event} {cell cell' : Cell}
      → Sequential log cell
      → IsFresh cell' 1048576
      → Sequential (restarted ∷ log) cell'
