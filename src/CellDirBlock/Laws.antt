-- ===== src/CellDirBlock/Laws.antt =====
-- A directory block as a small map: what each operation does to the entries of every checksum.
use theo.Base.{
  ℕ, zero, suc, ◌+◌, ◌-◌, ◌%◌, ◌^◌, ◌<◌, ◌≡◌, refl, sym, ◌∙◌, ◌↔◌, inl, inr, Bool, true, false,
  none, some, List, [], ◌∷◌, length, length-set, get_or, set, Option-cases, arith,
}
use mathlib.Core.Path.{subst}
use theo.Checksum.{Checksum}
use theo.CellDirEntry.{CellDirEntry, cell_dir_entry_init}
use theo.CellDirEntry.Lookup.{
  is_hit, lookup, count, used, used-le-length, count-le-used, count-zero, lookup_hits,
}
use theo.CellDirEntry.Change.{Added, Removed, set-Added, set-Removed}
use theo.CellDirBlock.{
  CellDirBlock, cell_dir_block_init, free_slot, cell_dir_block_add, find_entry, cell_dir_block_find,
  cell_dir_block_remove, cell_dir_block_get_chunk, cell_dir_block_full,
}

-- The block holds three entries and counts those in use.
pub record IsBlock (b : CellDirBlock) : Type 0 where
  pub three : length b.entries ≡ 3
  pub counted : b.entry_count ≡ used b.entries
  pub overflow_lt : b.overflow_count < 4096

pub cell_dir_block_init-IsBlock : IsBlock cell_dir_block_init
unfolding cell_dir_block_init used
cell_dir_block_init-IsBlock = omega arith

free_slot-some :
    (es : List CellDirEntry) (i : ℕ)
    → free_slot es ≡ some i
    → (i < length es) × ((get_or es i cell_dir_entry_init).set ≡ 0)
unfolding free_slot
free_slot-some [] i h = cc
free_slot-some (e ∷ es) zero h = ground arith
free_slot-some (e ∷ es) (suc i) h = ground (arith, free_slot-some es i)

free_slot-none : (es : List CellDirEntry) → free_slot es ≡ none → used es ≡ length es
unfolding free_slot used
free_slot-none [] h = refl
free_slot-none (e ∷ es) h = ground (arith, free_slot-none es)

pub find_entry-some :
    (c : Checksum) (es : List CellDirEntry) (i : ℕ)
    → find_entry c es ≡ some i
    → (i < length es)
      × (is_hit c (get_or es i cell_dir_entry_init) ≡ true)
      × (lookup c es ≡ some (get_or es i cell_dir_entry_init))
unfolding find_entry lookup
find_entry-some c [] i h = cc
find_entry-some c (e ∷ es) zero h = ground arith
find_entry-some c (e ∷ es) (suc i) h = ground (arith, find_entry-some c es i)

pub find_entry-none :
    (c : Checksum) (es : List CellDirEntry) → find_entry c es ≡ none → lookup c es ≡ none
unfolding find_entry lookup
find_entry-none c [] h = refl
find_entry-none c (e ∷ es) h = ground (arith, find_entry-none c es)

module _ (b : CellDirBlock) (v : IsBlock b) where
  -- What a false or a true result of `cell_dir_block_add` says.
  abbrev pub AddResult : CellDirEntry → Bool × CellDirBlock → Type 0
  AddResult e (false, b') = (b' ≡ b) × (used b.entries ≡ 3)
  AddResult e (true, b') =
      Added e b.entries b'.entries × IsBlock b' × (b'.overflow_count ≡ b.overflow_count)

  -- On a valid block, adding an entry in use puts it in the place of an unused one and leaves a valid block
  -- with the overflow it had, or reports false, with the block unchanged and all three entries used.
  pub cell_dir_block_add_lem : (e : CellDirEntry) → e.set ≡ 1 → AddResult e (cell_dir_block_add b e)
  unfolding cell_dir_block_add
  cell_dir_block_add_lem e one = elim (Option-cases (free_slot b.entries)) [
    | inl full ↦
        let eq : cell_dir_block_add b e ≡ (false, b) = rw (full, cell_dir_block_add) in
        subst (AddResult e) (sym eq) (refl, omega (arith, free_slot-none b.entries full, v.three))
    | inr (i, slot) ↦
        let b' : CellDirBlock = record b {
          entries = set b.entries i e;
          entry_count = (b.entry_count + 1) % 2 ^ 4;
        } in
        let eq : cell_dir_block_add b e ≡ (true, b') = rw (slot, cell_dir_block_add) in
        subst (AddResult e) (sym eq) (
          let f = free_slot-some b.entries i slot in
          let added = set-Added b.entries i e f.0 f.1 in
          let small = used-le-length (set b.entries i e) in
          (
            added,
            record {
              three = length-set b.entries i e ∙ v.three;
              counted =
                  ground (arith, added.more, small, length-set b.entries i e, v.three, v.counted);
              overflow_lt = v.overflow_lt;
            },
            refl,
          ))
  ]

  -- The short cut on `entry_count` loses nothing.
  cell_dir_block_find_lem : (c : Checksum) → cell_dir_block_find b c ≡ find_entry c b.entries
  unfolding cell_dir_block_find
  cell_dir_block_find_lem c = elim (Option-cases (find_entry c b.entries)) [
    | inl e ↦ ground arith
    | inr (i, e) ↦
        let f = find_entry-some c b.entries i e in
        let h = lookup_hits c b.entries _ f.2 in
        ground (arith, h.1, count-le-used c b.entries, v.counted)
  ]

  pub cell_dir_block_get_chunk_lem :
      (c : Checksum) → cell_dir_block_get_chunk b c ≡ lookup c b.entries
  unfolding cell_dir_block_get_chunk
  cell_dir_block_get_chunk_lem c =
      rw (cell_dir_block_find_lem c) (elim (Option-cases (find_entry c b.entries)) [
        | inl e ↦ rw e (sym (find_entry-none c b.entries e))
        | inr (i, e) ↦ rw e (sym (find_entry-some c b.entries i e).2)
      ])

  -- What a false or a true result of `cell_dir_block_remove` says.
  abbrev pub RemoveResult : Checksum → Bool × CellDirBlock → Type 0
  RemoveResult c (false, b') = (b' ≡ b) × (count c b.entries ≡ 0)
  RemoveResult c (true, b') =
      Removed c b.entries b'.entries × IsBlock b' × (b'.overflow_count ≡ b.overflow_count)

  -- On a valid block, removing a checksum takes its entry out and leaves a valid block with the overflow it
  -- had, or reports false, with the block unchanged and no entry for the checksum.
  pub cell_dir_block_remove_lem : (c : Checksum) → RemoveResult c (cell_dir_block_remove b c)
  unfolding cell_dir_block_remove
  cell_dir_block_remove_lem c = elim (Option-cases (find_entry c b.entries)) [
    | inl e ↦
        let eq : cell_dir_block_remove b c ≡ (false, b) =
          rw (cell_dir_block_remove, cell_dir_block_find_lem c, e) in
        subst (RemoveResult c) (sym eq)
          (refl, count-zero c b.entries (find_entry-none c b.entries e))
    | inr (i, e) ↦
        let b' : CellDirBlock = record b {
          entries = set b.entries i cell_dir_entry_init;
          entry_count = (b.entry_count + 2 ^ 4 - 1) % 2 ^ 4;
        } in
        let eq : cell_dir_block_remove b c ≡ (true, b') =
          rw (cell_dir_block_remove, cell_dir_block_find_lem c, e) in
        let f = find_entry-some c b.entries i e in
        let removed = set-Removed c b.entries i f.0 f.1 in
        let size = length-set b.entries i cell_dir_entry_init in
        subst (RemoveResult c) (sym eq) (
          removed,
          record {
            three = size ∙ v.three;
            counted = omega (arith, removed.less, used-le-length b.entries, v.three, v.counted);
            overflow_lt = v.overflow_lt;
          },
          refl,
        )
  ]

  -- `cell_dir_block_full` holds exactly when no entry is free.
  pub cell_dir_block_full_lem : (cell_dir_block_full b ≡ true) ↔ (used b.entries ≡ 3)
  unfolding cell_dir_block_full
  cell_dir_block_full_lem = ground (arith, v.counted)
