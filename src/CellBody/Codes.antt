-- ===== src/CellBody/Codes.antt =====
-- The integrity counters in the functions of src/theo/cell_body.c and src/theo/cell_header.c.
use theo.Base.{
  ℕ, zero, suc, ◌+◌, ◌-◌, ◌%◌, ◌^◌, ◌≡◌, refl, ◌∙◌, inl, inr, Bool, true, false, Option, none, some,
  List, length, ltb, ◌==◌, ◌>>=◌, Bool-cases, Option-cases,
}
use theo.Checksum.{Checksum}
use theo.Memory.{Memory}
use theo.CellDir.{CellDir, cell_dir_remove}
use theo.CellDirEntry.{CellDirEntry, sizeof_cell_dir_entry}
use theo.CellBodyEntry.{
  CellBodyEntry, cell_body_entry_free, cell_body_entry_top, sizeof_cell_body_entry,
}
use theo.CellIc.{CellIc}
use theo.CellState.{Cell, buffer_top}
use theo.CellHeader.{cell_body_set_top, is_positive, discount, cell_header_remove, cell_header_add}
use theo.CellBody.{
  next_offset, top_offset, entry_at, set_body, set_slab, cell_body_free_space, cell_body_add_top,
  cell_body_push_down_top, cell_body_next_entry_is_top, lower_top, cell_body_add_dir_entry, Merge,
  hit_top, merged, evict, merge_entries, fill_merged, cell_body_add_offset, add_or_wrap,
  cell_body_add,
}

abbrev pub codes : Cell → CellIc
codes cell = cell.cell_header.cell_ic

cell_header_add-codes :
    (cell : Cell) (e : CellDirEntry) (size : ℕ) → codes (cell_header_add cell e size) ≡ codes cell
unfolding cell_header_add
cell_header_add-codes cell e size = refl

cell_body_add_top-codes :
    (cell : Cell) (c : Checksum) (buffer : List ℕ)
    → codes ((cell_body_add_top cell c buffer).1) ≡ codes cell
unfolding cell_body_add_top cell_header_add
cell_body_add_top-codes cell c buffer =
    elim (Bool-cases (
      ltb (cell_body_free_space cell)
        ((length buffer + sizeof_cell_body_entry + sizeof_cell_dir_entry) % 2 ^ 32))) [
          | inl few ↦ rw few refl
          | inr fits ↦ rw fits refl
        ]

module _ (ic : CellIc) where
  -- Where there is a cell, it has these counters.
  pub data Keeps : Option Cell → Type 0 where
    aborts : Keeps none
    keeps : {cell : Cell} → codes cell ≡ ic → Keeps (some cell)

  data KeepsMerge : Option Merge → Type 0 where
    no_merge : KeepsMerge none
    keeps_top : {cell : Cell} → codes cell ≡ ic → KeepsMerge (some (hit_top cell))
    keeps_merged :
        {cell : Cell} {ptr free : ℕ} → codes cell ≡ ic → KeepsMerge (some (merged cell ptr free))

  Keeps-bind :
      (o : Option Cell) (f : Cell → Option Cell)
      → Keeps o
      → ((cell : Cell) → codes cell ≡ ic → Keeps (f cell))
      → Keeps (o >>= f)
  Keeps-bind _ f aborts then' = aborts
  Keeps-bind _ f (keeps {cell} k) then' = then' cell k

  KeepsMerge-bind :
      (o : Option Cell) (f : Cell → Option Merge)
      → Keeps o
      → ((cell : Cell) → codes cell ≡ ic → KeepsMerge (f cell))
      → KeepsMerge (o >>= f)
  KeepsMerge-bind _ f aborts then' = no_merge
  KeepsMerge-bind _ f (keeps {cell} k) then' = then' cell k

  discount-codes :
      (cell : Cell) (size : ℕ) (d : CellDir) (m : Memory)
      → codes cell ≡ ic
      → Keeps (discount cell size d m)
  discount-codes cell size d m k =
      elim (Bool-cases (is_positive ((cell.cell_header.entry_count + 2 ^ 32 - 1) % 2 ^ 32))) [
        | inr none' ↦ rw none' aborts
        | inl more ↦
            elim (Bool-cases
              (is_positive ((cell.cell_header.byte_count + 2 ^ 32 - size) % 2 ^ 32))) [
                | inr none' ↦ rw (more, none') aborts
                | inl more' ↦ rw (more, more') (keeps k)
              ]
      ]

  cell_header_remove-codes :
      (cell : Cell) (e : CellBodyEntry) → codes cell ≡ ic → Keeps (cell_header_remove cell e)
  unfolding cell_header_remove
  cell_header_remove-codes cell e k =
      elim (Option-cases
        (cell_dir_remove cell.cell_header.cell_dir cell.slab (buffer_top cell) e.checksum)) [
          | inl none' ↦ rw none' aborts
          | inr ((true, d, m), eq) ↦ rw eq (discount-codes cell e.size d m k)
          | inr ((false, d, m), eq) ↦ rw eq aborts
        ]

  evict-codes : (cell : Cell) (e : CellBodyEntry) → codes cell ≡ ic → Keeps (evict cell e)
  evict-codes cell e k = elim (Bool-cases (cell_body_entry_free e)) [
    | inl free ↦ rw free (keeps k)
    | inr used ↦ rw used (cell_header_remove-codes cell e k)
  ]

  lower_top-codes :
      (cell : Cell) (e : CellDirEntry) (size : ℕ) → codes cell ≡ ic → Keeps (lower_top cell e size)
  unfolding cell_header_add
  lower_top-codes cell e size k =
      let below : ℕ =
        (top_offset cell
          + 2 ^ 32
          - ((entry_at cell (top_offset cell)).previous_size + sizeof_cell_body_entry))
        % 2 ^ 32 in
      let last : CellBodyEntry = entry_at cell below in
      elim (Bool-cases (cell_body_entry_free last)) [
        | inl free ↦ rw free aborts
        | inr used ↦ rw used (
            Keeps-bind (cell_header_remove cell last) _ (cell_header_remove-codes cell last k)
              (λ cell' k'.
                let lowered : Cell =
                  set_body (set_slab cell' (cell_body_set_top cell'.slab below)) below
                    (next_offset cell') in
                elim (Bool-cases (ltb (cell_body_free_space lowered) sizeof_cell_dir_entry)) [
                  | inl few ↦ rw few aborts
                  | inr room ↦ rw room (keeps k')
                ]))
      ]

  cell_body_add_dir_entry-codes :
      (cell : Cell) (e : CellDirEntry) (size : ℕ)
      → codes cell ≡ ic
      → Keeps (cell_body_add_dir_entry cell e size)
  unfolding cell_body_add_dir_entry cell_header_add
  cell_body_add_dir_entry-codes cell e size k =
      elim (Bool-cases (ltb (cell_body_free_space cell) sizeof_cell_dir_entry)) [
        | inl few ↦ rw few (lower_top-codes cell e size k)
        | inr room ↦ rw room (keeps k)
      ]

  merge_entries-codes :
      (fuel : ℕ) (cell : Cell) (ptr free required : ℕ)
      → codes cell ≡ ic
      → KeepsMerge (merge_entries fuel cell ptr free required)
  unfolding merge_entries
  merge_entries-codes zero cell ptr free required k = no_merge
  merge_entries-codes (suc fuel) cell ptr free required k =
      let next : ℕ = ptr + ((entry_at cell ptr).size + sizeof_cell_body_entry) in
      let e : CellBodyEntry = entry_at cell next in
      elim (Bool-cases (ltb free required)) [
        | inr enough ↦ rw enough (keeps_merged k)
        | inl more ↦ elim (Bool-cases (cell_body_entry_top e)) [
          | inl top ↦ rw (more, top) (keeps_top k)
          | inr below ↦
              rw (more, below)
                (KeepsMerge-bind (evict cell e) _ (evict-codes cell e k)
                  (λ cell' k'. merge_entries-codes fuel cell' next _ required k'))
        ]
      ]

  module _ (next : ℕ) (c : Checksum) (buffer : List ℕ) where
    push_down-codes :
        (cell : Cell) → codes cell ≡ ic → Keeps (some (cell_body_push_down_top cell next c buffer))
    unfolding cell_body_push_down_top
    push_down-codes cell k = keeps (cell_body_add_top-codes _ c buffer ∙ k)

    fill_merged-codes : (o : Option Merge) → KeepsMerge o → Keeps (o >>= fill_merged next c buffer)
    fill_merged-codes _ no_merge = aborts
    fill_merged-codes _ (keeps_top {cell} k) = push_down-codes cell k
    fill_merged-codes _ (keeps_merged {cell} {ptr} {free} k) =
        elim (Bool-cases (cell_body_next_entry_is_top cell.slab ptr)) [
          | inl top ↦ rw top (push_down-codes cell k)
          | inr below ↦
              rw below
                (Keeps-bind _ _ (cell_body_add_dir_entry-codes _ _ _ k) (λ listed k'. keeps k'))
        ]

  cell_body_add_offset-codes :
      (cell : Cell) (c : Checksum) (buffer : List ℕ)
      → codes cell ≡ ic
      → Keeps (cell_body_add_offset cell c buffer)
  unfolding cell_body_add_offset
  cell_body_add_offset-codes cell c buffer k =
      Keeps-bind _ _ (evict-codes cell (entry_at cell (next_offset cell)) k) (λ cell' k'.
        elim (Bool-cases ((entry_at cell (next_offset cell)).size == length buffer)) [
          | inl exact ↦
              rw exact
                (Keeps-bind _ _ (cell_body_add_dir_entry-codes _ _ _ k') (λ listed k''. keeps k''))
          | inr other ↦
              rw other
                (fill_merged-codes (next_offset cell) c buffer _ (merge_entries-codes _ _ _ _ _ k'))
        ])

  pub cell_body_add-codes :
      (cell : Cell) (c : Checksum) (buffer : List ℕ)
      → codes cell ≡ ic
      → Keeps (cell_body_add cell c buffer)
  unfolding cell_body_add
  cell_body_add-codes cell c buffer k =
      elim (Bool-cases (cell_body_entry_top (entry_at cell (next_offset cell)))) [
        | inl top ↦
            rw top
              (wrap (cell_body_add_top cell c buffer) (cell_body_add_top-codes cell c buffer ∙ k))
        | inr below ↦ rw below (cell_body_add_offset-codes cell c buffer k)
      ]
    where
      wrap : (r : Bool × Cell) → codes (r.1) ≡ ic → Keeps (add_or_wrap c buffer r)
      wrap (true, cell') k' = keeps k'
      wrap (false, cell') k' = cell_body_add_offset-codes _ c buffer k'
