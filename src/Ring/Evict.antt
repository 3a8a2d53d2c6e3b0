-- ===== src/Ring/Evict.antt =====
-- A chunk behind the gap leaves the directory: the first of them, which is merged, or the last, which
-- makes room for the directory.
use theo.Base.{
  ℕ, ◌+◌, ◌^◌, ◌≤◌, ◌<◌, ◌≡◌, ◌≢◌, refl, sym, ap, ◌∙◌, inl, inr, Option, none, some, List, ◌∷◌,
  length, Bool-cases, arith,
}
use mathlib.Core.Option
use theo.Checksum.{Checksum, checksum_compare, checksum_compare→eq, checksum_compare-false_ne}
use theo.Memory.{Memory}
use theo.CellDirEntry.{CellDirEntry}
use mathlib.Core.Path.{subst}
use theo.CellBodyEntry.{CellBodyEntry, load_body_entry}
use theo.CellBodyEntry.Layout.{load_body_entry-agree}
use theo.CellDir.{CellDir}
use theo.CellDir.View.{IsDir, entry_of-none}
use theo.CellDir.Remove.{DirRemoved}
use theo.CellState.{Cell, buffer_top}
use theo.CellHeader.{cell_header_remove}
use theo.CellHeader.Remove.{
  less_one, HeaderOutcome, returns, nothing_held, last_entry, last_bytes, cell_header_remove_lem,
}
use theo.CellBody.{top_offset, next_offset, entry_at}
use theo.Ring.Chain.{Item, IsItem, size, stored, Chain, Chain-agree, Chain-bytes, Chain-le}
use theo.Ring.Place.{spot, first-IsSingle, first-at, first-gone, first-same}
use theo.Ring.Gap.{offset_of, Gap, few_entries, few_bytes, top_lt}

-- The chunk was removed from the directory and from the counts.
pub record HeaderRemoved (cell : Cell) (p : ℕ) (i : Item) : Type 0 where
  pub dir : CellDir
  pub slab : Memory
  pub removes : cell_header_remove cell (stored p i) ≡ some (less_one cell (size i) dir slab)
  pub out : DirRemoved cell.cell_header.cell_dir cell.slab (buffer_top cell) i.checksum dir slab

module _ (cell : Cell) (p : ℕ) (i : Item) (a : ℕ)
    (v : IsDir cell.cell_header.cell_dir cell.slab (buffer_top cell)) (w : IsItem i)
    (at : offset_of cell i.checksum ≡ some a) (several : 1 < cell.cell_header.entry_count)
    (entries : cell.cell_header.entry_count < 2 ^ 31) (more : size i < cell.cell_header.byte_count)
    (bytes : cell.cell_header.byte_count < 2 ^ 31) where
  after_remove :
      (o : Option Cell)
      → cell_header_remove cell (stored p i) ≡ o
      → HeaderOutcome cell (stored p i) o
      → HeaderRemoved cell p i
  after_remove o removes (returns {d} {m} one left room out) = record {
    dir = d;
    slab = m;
    removes = removes;
    out = out;
  }
  after_remove o removes (nothing_held zero') = absurd (
      ground (
        arith,
        at,
        (entry_of-none cell.cell_header.cell_dir cell.slab (buffer_top cell) i.checksum).1 zero',
      ))
  after_remove o removes (last_entry few') = absurd (omega (arith, several))
  after_remove o removes (last_bytes few') = absurd (omega (arith, more))

  pub header_removed : HeaderRemoved cell p i
  header_removed =
      after_remove _ refl
        (cell_header_remove_lem cell (stored p i) v w.low entries bytes (omega (arith, w.most)))

-- What is listed after the removal.
pub removed-listing :
    (cell : Cell) (p : ℕ) (i : Item) (h : HeaderRemoved cell p i) (old new : Checksum → Option ℕ)
    → ((c : Checksum) → offset_of cell c ≡ old c)
    → new i.checksum ≡ none
    → ((k : Checksum) → k ≢ i.checksum → new k ≡ old k)
    → (c : Checksum) → offset_of (less_one cell (size i) h.dir h.slab) c ≡ new c
removed-listing cell p i h old new listing gone same c =
    elim (Bool-cases (checksum_compare c i.checksum)) [
      | inl e ↦
          let eq : c ≡ i.checksum = checksum_compare→eq c i.checksum e in
          let none' = (entry_of-none h.dir h.slab (buffer_top cell) i.checksum).1 h.out.gone in
          rw (eq, none', gone) refl
      | inr e ↦
          let ne : c ≢ i.checksum = checksum_compare-false_ne c i.checksum e in
          ap (λ o. Option.map (λ (e : CellDirEntry). e.offset) o) (h.out.same c (λ x. ne (sym x)))
          ∙ listing c
          ∙ sym (same c ne)
    ]

-- The removal leaves the ring and the top alone.
module _ {cell : Cell} {before post : List Item} {q g r p : ℕ} {i : Item}
    (v : Gap cell before q g r post) (h : HeaderRemoved cell p i) where
  pub removed-frame : (x : ℕ) → x < top_offset cell + 36 → h.slab x ≡ cell.slab x
  removed-frame x u = h.out.frame x (omega (arith, v.apart))

  pub removed-entry :
      (a : ℕ) → a ≤ top_offset cell → load_body_entry h.slab a ≡ load_body_entry cell.slab a
  removed-entry a le =
      load_body_entry-agree cell.slab h.slab a (λ x l u. removed-frame x (omega arith))

  pub removed-chain :
      (s a : ℕ) (is : List Item) (b t : ℕ)
      → b ≤ top_offset cell
      → Chain cell.slab s a is b t
      → Chain h.slab s a is b t
  removed-chain s a is b t le =
      Chain-agree cell.slab h.slab s a is b t (λ x l u. removed-frame x (omega arith))

-- The first chunk behind the gap goes.
module _ {cell : Cell} {before post : List Item} {q g r : ℕ} {i : Item}
    (v : Gap cell before q g r (i ∷ post)) (others : 0 < length before + length post) where
  first-item : IsItem i
  first-item = v.back.2

  rest :
      Chain cell.slab
        (size i)
        (g + 36 + size i)
        post
        (top_offset cell)
        (entry_at cell (top_offset cell)).previous_size
  rest = v.back.3

  pub first_removed : HeaderRemoved cell r i
  first_removed =
      header_removed cell r i g v.dir first-item
        (v.listing i.checksum ∙ first-at before g i post v.single)
        (omega (arith, v.entries, others)) (omega (arith, few_entries v))
        (omega
          (arith, v.bytes, others, Chain-bytes _ _ _ _ _ _ v.front, Chain-bytes _ _ _ _ _ _ rest))
        (omega (arith, few_bytes v, top_lt v))

  pub first-Gap :
      Gap
        (less_one cell (size i) first_removed.dir first_removed.slab)
        before
        q
        (g + 36 + size i)
        (size i)
        post
  first-Gap =
      let h = first_removed in
      let top-same = removed-entry v h (top_offset cell) (omega arith) in
      let end : g + 36 + size i ≤ top_offset cell = Chain-le _ _ _ _ _ _ rest in
      record {
        whole = v.whole;
        dir = h.out.valid;
        apart = omega (arith, v.apart, h.out.shrinks);
        top_is_top = ap (λ (b : CellBodyEntry). b.top_entry) top-same ∙ v.top_is_top;
        front =
            removed-chain v h 0 0 before (next_offset cell) q (omega (arith, v.order, end)) v.front;
        order = omega (arith, v.order);
        back =
            subst
              (λ (e : CellBodyEntry).
                Chain h.slab (size i) (g + 36 + size i) post (top_offset cell) e.previous_size)
              (sym top-same)
              (removed-chain v h (size i) (g + 36 + size i) post (top_offset cell) _ (omega arith)
                rest);
        listing =
            removed-listing cell r i h (spot before g (i ∷ post))
              (spot before (g + 36 + size i) post) v.listing
              (first-gone before g i post v.single (g + 36 + size i))
              (first-same before g i post v.single);
        single = first-IsSingle before g i post v.single;
        entries = omega (arith, v.entries);
        bytes = omega (arith, v.bytes);
        total = omega (arith, v.total, h.out.total, v.entries);
      }
