-- ===== src/CellBody.antt =====
-- src/theo/cell_body.c: the ring buffer of a cell. `none` is an abort.
pub mod Codes
use theo.Base.{
  ℕ, zero, suc, ◌+◌, ◌-◌, ◌/◌, ◌%◌, ◌^◌, Bool, true, false, not, Option, none, some, List, length,
  ◌==◌, ltb, if◌then◌else◌, ◌>>=◌, ◌>>◌, always,
}
use theo.Checksum.{Checksum}
use theo.Memory.{Memory, write}
use theo.CellDirEntry.{CellDirEntry, sizeof_cell_dir_entry, cell_dir_entry_set}
use theo.CellBodyEntry.{
  CellBodyEntry, sizeof_cell_body_entry, cell_body_entry_init, cell_body_entry_free,
  cell_body_entry_top, load_body_entry, store_body_entry,
}
use theo.CellState.{Cell}
use theo.CellHeader.{cell_body_set_top, cell_header_bytes_used, cell_header_remove, cell_header_add}

-- The fields of `cell_header` that the functions below read and assign.
abbrev pub top_offset : Cell → ℕ
top_offset cell = cell.cell_header.cell_body.top_entry_offset

abbrev pub next_offset : Cell → ℕ
next_offset cell = cell.cell_header.cell_body.next_entry_offset

abbrev pub set_body : Cell → ℕ → ℕ → Cell
set_body cell top next = record cell {
  cell_header = record (cell.cell_header) {
    cell_body = record { top_entry_offset = top; next_entry_offset = next };
  };
}

abbrev pub set_slab : Cell → Memory → Cell
set_slab cell m = record cell { slab = m }

-- The entry at an offset of the slab.
abbrev pub entry_at : Cell → ℕ → CellBodyEntry
entry_at cell a = load_body_entry cell.slab a

-- `uint32_t` arithmetic.
abbrev pub add_u32 : ℕ → ℕ → ℕ
add_u32 a b = (a + b) % 2 ^ 32

unfoldable pub cell_body_write_chunk : Memory → ℕ → Checksum → List ℕ → Memory
cell_body_write_chunk m a c buffer =
    write
      (store_body_entry m a (record (load_body_entry m a) {
        checksum = c;
        size = length buffer % 2 ^ 15;
        free_space = 0;
      }))
      (a + sizeof_cell_body_entry) buffer

unfoldable pub cell_body_free_space : Cell → ℕ
cell_body_free_space cell =
    let end : ℕ = add_u32 (top_offset cell) sizeof_cell_body_entry in
    (cell.slab_size + 2 ^ 32 - (add_u32 end (cell_header_bytes_used cell.cell_header))) % 2 ^ 32

-- The entry at the top, with the chunk, and the new top behind it.
abbrev pub write_top : Memory → ℕ → Checksum → List ℕ → Memory
write_top m a c buffer =
    write
      (store_body_entry m a (record (load_body_entry m a) {
        free_space = 0;
        top_entry = 0;
        size = length buffer % 2 ^ 15;
        checksum = c;
      }))
      (a + sizeof_cell_body_entry) buffer

abbrev pub write_new_top : Memory → ℕ → ℕ → Memory
write_new_top m a previous =
    let m' : Memory = cell_body_set_top m a in
    store_body_entry m' a (record (load_body_entry m' a) { previous_size = previous % 2 ^ 15 })

unfoldable pub cell_body_add_top : Cell → Checksum → List ℕ → Bool × Cell
cell_body_add_top cell c buffer =
    let size : ℕ = length buffer in
    let required : ℕ = (size + sizeof_cell_body_entry + sizeof_cell_dir_entry) % 2 ^ 32 in
    let top : ℕ = top_offset cell in
    if ltb (cell_body_free_space cell) required
    then (false, cell)
    else (let written : Cell = set_slab cell (write_top cell.slab top c buffer) in
        let listed : Cell = cell_header_add written (cell_dir_entry_set c top) size in
        let m : Memory = write_new_top listed.slab (top + sizeof_cell_body_entry + size) size in
        let top' : ℕ = add_u32 top (size + sizeof_cell_body_entry) in
        (true, set_body (set_slab listed m) top' top'))

unfoldable pub cell_body_push_down_top : Cell → ℕ → Checksum → List ℕ → Cell
cell_body_push_down_top cell a c buffer =
    (cell_body_add_top
      (set_body (set_slab cell (cell_body_set_top cell.slab a)) (next_offset cell)
        (next_offset cell))
      c buffer).1

unfoldable pub cell_body_next_entry_is_top : Memory → ℕ → Bool
cell_body_next_entry_is_top m a =
    cell_body_entry_top
      (load_body_entry m (a + ((load_body_entry m a).size + sizeof_cell_body_entry)))

-- `cell_body_add_dir_entry` where it has to delete the entry below the top.
abbrev pub lower_top : Cell → CellDirEntry → ℕ → Option Cell
lower_top cell e size =
    let top : ℕ = top_offset cell in
    let below : ℕ =
      (top + 2 ^ 32 - ((entry_at cell top).previous_size + sizeof_cell_body_entry)) % 2 ^ 32 in
    let last : CellBodyEntry = entry_at cell below in
    always (not (cell_body_entry_free last)) >> cell_header_remove cell last >>= λ cell'.
    let lowered : Cell =
      set_body (set_slab cell' (cell_body_set_top cell'.slab below)) below (next_offset cell') in
    always (not (ltb (cell_body_free_space lowered) sizeof_cell_dir_entry))
    >> some (cell_header_add lowered e size)

unfoldable pub cell_body_add_dir_entry : Cell → CellDirEntry → ℕ → Option Cell
cell_body_add_dir_entry cell e size =
    if ltb (cell_body_free_space cell) sizeof_cell_dir_entry
    then lower_top cell e size
    else some (cell_header_add cell e size)

-- How the loop of `cell_body_add_offset` ends: at the top, or with a last entry and the free space.
pub data Merge : Type 0 where
  hit_top : Cell → Merge
  merged : Cell → ℕ → ℕ → Merge

-- An entry that is not free leaves the directory.
abbrev pub evict : Cell → CellBodyEntry → Option Cell
evict cell e = if cell_body_entry_free e then some cell else cell_header_remove cell e

-- The loop. It runs on fuel; `none` is an abort, or the end of the fuel.
unfoldable pub merge_entries : ℕ → Cell → ℕ → ℕ → ℕ → Option Merge
merge_entries zero cell ptr free required = none
merge_entries (suc fuel) cell ptr free required =
    let next : ℕ = ptr + ((entry_at cell ptr).size + sizeof_cell_body_entry) in
    let e : CellBodyEntry = entry_at cell next in
    let on = evict cell e >>= λ cell'.
    merge_entries fuel cell' next (add_u32 free (e.size + sizeof_cell_body_entry)) required in
    if ltb free required
    then (if cell_body_entry_top e then some (hit_top cell) else on)
    else some (merged cell ptr free)

-- The free entry that takes the rest of the space, and the back pointer of the entry behind it.
abbrev pub write_rest : Memory → ℕ → ℕ → ℕ → Memory
write_rest m a previous free =
    let m' : Memory = store_body_entry m a (record cell_body_entry_init {
      previous_size = previous % 2 ^ 15;
      size = free % 2 ^ 15;
      free_space = 1;
      top_entry = 0;
    }) in
    let after : ℕ = a + (sizeof_cell_body_entry + free) in
    store_body_entry m' after (record (load_body_entry m' after) { previous_size = free % 2 ^ 15 })

-- `cell_body_add_offset` after its loop.
abbrev pub fill_merged : ℕ → Checksum → List ℕ → Merge → Option Cell
fill_merged next c buffer (hit_top cell) = some (cell_body_push_down_top cell next c buffer)
fill_merged next c buffer (merged cell ptr free) =
    let size : ℕ = length buffer in
    let required : ℕ = add_u32 size sizeof_cell_body_entry in
    if cell_body_next_entry_is_top cell.slab ptr
    then some (cell_body_push_down_top cell next c buffer)
    else cell_body_add_dir_entry (set_slab cell (cell_body_write_chunk cell.slab next c buffer))
        (cell_dir_entry_set c next) size
      >>= λ listed.
          let next' : ℕ = add_u32 (next_offset listed) (sizeof_cell_body_entry + size) in
          some (
            set_body (set_slab listed (write_rest listed.slab next' size (free - required)))
              (top_offset listed) next')

-- `cell_body_add_offset` where the entry has the size of the chunk.
abbrev pub fill_exact : Cell → ℕ → Checksum → List ℕ → Option Cell
fill_exact cell next c buffer =
    let size : ℕ = length buffer in
    cell_body_add_dir_entry (set_slab cell (cell_body_write_chunk cell.slab next c buffer))
      (cell_dir_entry_set c next) size
    >>= λ listed. some (
        set_body listed (top_offset listed)
          (add_u32 (next_offset listed) (sizeof_cell_body_entry + size)))

unfoldable pub cell_body_add_offset : Cell → Checksum → List ℕ → Option Cell
cell_body_add_offset cell c buffer =
    let next : ℕ = next_offset cell in
    let e : CellBodyEntry = entry_at cell next in
    let required : ℕ = add_u32 (length buffer) sizeof_cell_body_entry in
    evict cell e >>= λ cell'.
    let m : Memory =
      store_body_entry cell'.slab next
        (record (load_body_entry cell'.slab next) { free_space = 0 }) in
    let used : Cell = set_slab cell' m in
    if e.size == length buffer
    then fill_exact used next c buffer
    else merge_entries (cell.slab_size / sizeof_cell_body_entry + 1) used next e.size required
      >>= fill_merged next c buffer

-- `cell_body_add` after its call of `cell_body_add_top`.
abbrev pub add_or_wrap : Checksum → List ℕ → Bool × Cell → Option Cell
add_or_wrap c buffer (true, cell) = some cell
add_or_wrap c buffer (false, cell) =
    cell_body_add_offset (set_body cell (top_offset cell) 0) c buffer

unfoldable pub cell_body_add : Cell → Checksum → List ℕ → Option Cell
cell_body_add cell c buffer =
    if cell_body_entry_top (entry_at cell (next_offset cell))
    then add_or_wrap c buffer (cell_body_add_top cell c buffer)
    else cell_body_add_offset cell c buffer
