-- ===== src/Tests/Wrap.antt =====
-- A cell with 40 chunks of 24 KiB and one of 16000 bytes, where the next one does not fit at the top.
use theo.Base.{
  ℕ, zero, suc, ◌+◌, ◌*◌, ◌≤◌, ◌<◌, ◌≡◌, ◌⊎◌, refl, ap, ◌∙◌, inl, inr, true, false, some, none,
  List, [], ◌∷◌, ◌++◌, length, replicate, length-replicate, arith,
}
use theo.Checksum.{checksum_compare}
use theo.CellState.{Cell}
use theo.CellBody.{top_offset, next_offset, entry_at, cell_body_free_space}
use theo.Cell.{cell_add_chunk}
use theo.Ring.Chain.{Item, IsItem, size, stop, Chain-stop}
use theo.Ring.Place.{copies, copies-append}
use theo.Ring.Gap.{RingOf, free_space_lem, few_overflowed}
use theo.Ring.Top.{top_added}
use theo.Ring.Add.{IsRing}
use theo.Ring.Fresh.{IsFresh-IsRing}
use theo.Ring.Offset.{IsStuck}
use theo.Ring.Taken.{Taken, cell_add_chunk-Taken}
use theo.Tests.{sum}
use theo.Tests.Ring.{cell, cell-IsFresh}

-- A chunk of some bytes under the checksum of equal bytes.
abbrev chunk_of : ℕ → ℕ → Item
chunk_of k n = record { checksum = sum k; bytes = replicate n k }

chunk_of-IsItem : (k n : ℕ) → k < 256 → 2048 ≤ n → n ≤ 24576 → IsItem (chunk_of k n)
chunk_of-IsItem k n low least most =
    let len : length (replicate n k) ≡ n = length-replicate n k in
    record {
      key = length-replicate 32 k;
      low = low;
      least = omega (arith, len);
      most = omega (arith, len);
    }

abbrev big : ℕ → List Item
big zero = []
big (suc k) = big k ++ (chunk_of k 24576 ∷ [])

stop-append : (a : ℕ) (is js : List Item) → stop a (is ++ js) ≡ stop (stop a is) js
stop-append a [] js = refl
stop-append a (i ∷ is) js = stop-append (a + 36 + size i) is js

stop-big : (k : ℕ) → stop 0 (big k) ≡ k * 24612
stop-big zero = refl
stop-big (suc k) =
    stop-append 0 (big k) (chunk_of k 24576 ∷ [])
    ∙ omega (arith, stop-big k, length-replicate 24576 k)

differs : (j k : ℕ) → j < k → checksum_compare (sum j) (sum k) ≡ false
unfolding checksum_compare
differs j k lt = ground (arith, lt)

new-big : (k j : ℕ) → k ≤ j → copies (sum j) (big k) ≡ 0
new-big zero j le = refl
new-big (suc k) j le =
    copies-append (sum j) (big k) (chunk_of k 24576 ∷ [])
    ∙ rw (differs k j (omega arith), new-big k j (omega arith)) refl

-- A cell that holds just these chunks, with the next entry at the top.
record Holding (is : List Item) : Type 0 where
  holder : Cell
  ring : RingOf holder is []
  at_top : next_offset holder ≡ top_offset holder

-- One more chunk, where it fits at the top.
grow :
    (is : List Item) (i : Item)
    → Holding is
    → IsItem i
    → copies i.checksum is ≡ 0
    → stop 0 is + size i ≤ 1001620
    → Holding (is ++ (i ∷ []))
grow is i h item fresh fits =
    let gap = h.ring.gap in
    let ends : stop 0 is ≡ next_offset h.holder = Chain-stop h.holder.slab 0 0 is _ _ gap.front in
    let room : size i + 72 ≤ cell_body_free_space h.holder =
      omega (arith, free_space_lem gap, few_overflowed gap, ends, h.at_top, gap.whole, fits) in
    let same : h.ring.r ≡ h.ring.q = elim h.ring.filled [
      | inl (at, eq) ↦ eq
      | inr (free, low, len, past) ↦
          let top = ap (λ a. (entry_at h.holder a).top_entry) h.at_top in
          absurd (ground (arith, low, top, gap.top_is_top))
    ] in
    let (grown, adds, ring, top) =
      top_added h.holder is h.ring.q h.ring.g h.ring.r i gap h.at_top same item fresh room in
    record { holder = grown; ring = ring; at_top = top }

hold_big : (k : ℕ) → k ≤ 40 → Holding (big k)
hold_big zero le = record {
  holder = cell;
  ring = (IsFresh-IsRing cell cell-IsFresh).ring;
  at_top = cell-IsFresh.next_is_top;
}
hold_big (suc k) le =
    grow (big k) (chunk_of k 24576) (hold_big k (omega arith))
      (chunk_of-IsItem k 24576 (omega arith) (omega arith) (omega arith))
      (new-big k k (omega arith)) (omega (arith, stop-big k, length-replicate 24576 k))

abbrev before : List Item
before = big 40 ++ (chunk_of 40 16000 ∷ [])

full : Holding before
full =
    grow (big 40) (chunk_of 40 16000) (hold_big 40 (omega arith))
      (chunk_of-IsItem 40 16000 (omega arith) (omega arith) (omega arith))
      (new-big 40 40 (omega arith)) (omega (arith, stop-big 40, length-replicate {A = ℕ} 16000 40))

full-IsRing : IsRing full.holder before []
full-IsRing = record { ring = full.ring; settled = inl (omega arith) }

-- There is no room for 20000 bytes at the top.
full-small : cell_body_free_space full.holder < 20000 + 72
full-small =
    let gap = full.ring.gap in
    let ends : stop 0 before ≡ next_offset full.holder =
      Chain-stop full.holder.slab 0 0 before _ _ gap.front in
    let far : stop 0 before ≡ 40 * 24612 + 36 + 16000 =
      stop-append 0 (big 40) (chunk_of 40 16000 ∷ [])
      ∙ omega (arith, stop-big 40, length-replicate {A = ℕ} 16000 40) in
    omega (arith, free_space_lem gap, ends, far, full.at_top, gap.whole)

new_full : copies (sum 41) before ≡ 0
new_full =
    let last : copies (sum 41) (chunk_of 40 16000 ∷ []) ≡ 0 =
      rw (differs 40 41 (omega arith)) refl in
    copies-append (sum 41) (big 40) (chunk_of 40 16000 ∷ [])
    ∙ omega (arith, new-big 40 41 (omega arith), last)

cell_add_chunk-Taken_example :
    ((cell' : Cell) × (cell_add_chunk full.holder (sum 41) (replicate 20000 41)
        ≡ some (true, cell'))
      × Taken full.holder (chunk_of 41 20000) cell')
    ⊎ ((cell_add_chunk full.holder (sum 41) (replicate 20000 41) ≡ none)
        × IsStuck full.holder (chunk_of 41 20000) [])
cell_add_chunk-Taken_example =
    cell_add_chunk-Taken full.holder before [] (chunk_of 41 20000) full-IsRing
      (chunk_of-IsItem 41 20000 (omega arith) (omega arith) (omega arith)) (omega (arith, new_full))

-- The call wraps, and returns.
wrapped :
    (cell' : Cell) × (cell_add_chunk full.holder (sum 41) (replicate 20000 41) ≡ some (true, cell'))
    × Taken full.holder (chunk_of 41 20000) cell'
wrapped =
    elim (cell_add_chunk-Taken full.holder before [] (chunk_of 41 20000) full-IsRing
      (chunk_of-IsItem 41 20000 (omega arith) (omega arith) (omega arith))
      (omega (arith, new_full))) [
        | inl taken ↦ taken
        | inr (aborts, stuck) ↦ absurd (omega (arith, stuck.below, full.at_top))
      ]
