-- ===== src/Ring/Gap.antt =====
-- A cell as the lists of its chunks before and behind the place of the next entry: the invariant of
-- src/theo/cell_body.c, in the midst of an addition and between two of them.
use theo.Base.{ℕ, ◌+◌, ◌-◌, ◌*◌, ◌≤◌, ◌≡◌, ◌⊎◌, Option, List, length, arith}
use mathlib.Core.Option
use theo.Checksum.{Checksum}
use theo.CellDirEntry.{CellDirEntry}
use theo.CellDir.View.{IsDir, dir_total}
use theo.CellState.{Cell, buffer_top}
use theo.CellBody.{top_offset, next_offset, cell_body_free_space, entry_at}
use theo.CellHeader.{cell_header_bytes_used}
use theo.Cell.Valid.{overflowed, listed}
use theo.Ring.Chain.{Item, Chain, Chain-least, Chain-length, bytes_in}
use theo.Ring.Place.{spot, IsSingle}

-- The offset that the directory has for a checksum.
abbrev pub offset_of : Cell → Checksum → Option ℕ
offset_of cell c = Option.map (λ (e : CellDirEntry). e.offset) (listed cell c)

-- The chunks before the next entry, and those from offset `g` on. What lies between has no chunk. The
-- entry before the next one has `q` bytes, and the one at `g` follows one of `r` bytes.
pub record Gap (cell : Cell) (before : List Item) (q g r : ℕ) (post : List Item) : Type 0 where
  pub whole : cell.slab_size ≡ 1048576
  pub dir : IsDir cell.cell_header.cell_dir cell.slab (buffer_top cell)
  pub apart : top_offset cell + 36 + overflowed cell * 36 ≤ buffer_top cell
  pub top_is_top : (entry_at cell (top_offset cell)).top_entry ≡ 1
  pub front : Chain cell.slab 0 0 before (next_offset cell) q
  pub order : next_offset cell ≤ g
  pub back :
      Chain cell.slab r g post (top_offset cell) (entry_at cell (top_offset cell)).previous_size
  pub listing : (c : Checksum) → offset_of cell c ≡ spot before g post c
  pub single : IsSingle before post
  pub entries : cell.cell_header.entry_count ≡ length before + length post
  pub bytes : cell.cell_header.byte_count ≡ bytes_in before + bytes_in post
  pub total : dir_total cell.cell_header.cell_dir ≡ cell.cell_header.entry_count

-- There is no gap, or one free entry fills it.
abbrev pub Filled : Cell → ℕ → ℕ → ℕ → Type 0
Filled cell q g r =
    ((g ≡ next_offset cell) × (r ≡ q))
    ⊎ (((entry_at cell (next_offset cell)).free_space ≡ 1)
        × ((entry_at cell (next_offset cell)).top_entry ≡ 0)
        × ((entry_at cell (next_offset cell)).size ≡ r)
        × (g ≡ next_offset cell + 36 + r))

-- The ring of a cell between two calls, with the chunks before the next entry and behind it.
pub record RingOf (cell : Cell) (before post : List Item) : Type 0 where
  pub q : ℕ
  pub g : ℕ
  pub r : ℕ
  pub gap : Gap cell before q g r post
  pub filled : Filled cell q g r
  pub next_previous : (entry_at cell (next_offset cell)).previous_size ≡ q

module _ {cell : Cell} {before post : List Item} {q g r : ℕ} (v : Gap cell before q g r post) where
  pub g_le : g + 2084 * length post ≤ top_offset cell
  g_le = Chain-least cell.slab r g post (top_offset cell) _ v.back

  pub before_le : 2084 * length before ≤ next_offset cell
  before_le = omega (arith, Chain-least cell.slab 0 0 before (next_offset cell) q v.front)

  pub top_lt : top_offset cell + 36 + overflowed cell * 36 ≤ 1048576 - 28704
  top_lt = omega (arith, v.apart, v.whole)

  -- A slab of 1 MiB has room for few chunks of 2 KiB.
  pub few_entries : cell.cell_header.entry_count ≤ 503
  few_entries = omega (arith, g_le, before_le, top_lt, v.order, v.entries)

  pub few_overflowed : overflowed cell ≤ 503
  few_overflowed = omega (arith, few_entries, v.total)

  pub few_bytes : cell.cell_header.byte_count ≤ top_offset cell
  few_bytes = omega (
    arith,
    Chain-length cell.slab 0 0 before (next_offset cell) q v.front,
    Chain-length cell.slab r g post (top_offset cell) _ v.back,
    v.order,
    v.bytes,
  )

  pub free_space_lem :
      cell_body_free_space cell + top_offset cell + 36 + overflowed cell * 36 ≡ buffer_top cell
  unfolding cell_body_free_space cell_header_bytes_used
  free_space_lem = omega (arith, v.whole, v.apart)
