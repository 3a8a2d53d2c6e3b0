-- ===== src/Ring/Room.antt =====
-- A chunk that was written in the gap enters the directory, for which the last chunk may have to go.
use theo.Base.{
  ℕ, ◌+◌, ◌*◌, ◌^◌, ◌≤◌, ◌<◌, ◌≡◌, ◌⊎◌, refl, sym, ap, ◌∙◌, inl, inr, true, none, some, List, [],
  ◌∷◌, ◌++◌, length, length-append, ltb, Bool-cases, arith,
}
use mathlib.Core.Path.{subst}
use theo.Memory.{read}
use theo.Memory.Laws.{read-agree}
use theo.CellDirEntry.{CellDirEntry, cell_dir_entry_set}
use theo.CellBodyEntry.{CellBodyEntry, load_body_entry}
use theo.CellBodyEntry.Layout.{load_body_entry-agree}
use theo.CellState.{Cell, buffer_top}
use theo.CellHeader.{cell_header_add}
use theo.CellBody.{
  top_offset, next_offset, entry_at, set_body, cell_body_free_space, cell_body_add_dir_entry,
}
use theo.Cell.Valid.{overflowed}
use theo.Ring.Chain.{
  Item, IsItem, size, stored, Chain, Chain-agree, Chain-append, Chain-most, Chain-stop, stop,
  bytes_in-append,
}
use theo.Ring.Place.{spot, spot-none, copies, added-IsSingle, added-at, added-same}
use theo.Ring.Gap.{
  offset_of, Gap, few_entries, few_overflowed, few_bytes, top_lt, g_le, free_space_lem,
}
use theo.Ring.Listed.{one_more, dir_added, cell_header_add-eq, added-listing}
use theo.Ring.Lower.{Lowered, lower_top_lem}

-- A list that is not empty has a last element.
pub last_of {ℓ} :
    {A : Type ℓ} (xs : List A) → 0 < length xs → (ys : List A) × (y : A) × (xs ≡ ys ++ y ∷ [])
last_of [] h = absurd (omega arith)
last_of (x ∷ []) h = ([], x, refl)
last_of (x ∷ y ∷ xs) h =
    let (ys, z, e) = last_of (y ∷ xs) (omega arith) in (x ∷ ys, z, ap (λ l. x ∷ l) e)

-- The chunks that are left are those there were, or all but the last.
abbrev pub Shorter : List Item → List Item → Type 0
Shorter post post' = (post' ≡ post) ⊎ ((i : Item) × (post ≡ post' ++ i ∷ []))

-- Some chunk outlasts the addition.
abbrev pub IsSafe : Cell → List Item → Type 0
IsSafe cell before = (0 < length before) ⊎ (131072 ≤ top_offset cell)

module _ (cell : Cell) (before : List Item) (q g r : ℕ) where
  -- The cell and the chunks that are left when there is room for a directory entry.
  pub record RoomMade (post : List Item) : Type 0 where
    pub left : List Item
    pub cell' : Cell
    pub shorter : Shorter post left
    pub lowered : Lowered cell before q g r left cell'
    pub adds :
        (e : CellDirEntry) (n : ℕ)
        → cell_body_add_dir_entry cell e n ≡ some (cell_header_add cell' e n)

  make_last :
      (init : List Item) (i : Item)
      → Gap cell before q g r (init ++ i ∷ [])
      → 0 < length before + length init
      → ltb (cell_body_free_space cell) 36 ≡ true
      → RoomMade (init ++ i ∷ [])
  unfolding cell_body_add_dir_entry
  make_last init i v others full =
      let (cell', lowered, eq) = lower_top_lem cell before init q g r i v others in
      record {
        left = init;
        cell' = cell';
        shorter = inr (i, refl);
        lowered = lowered;
        adds = λ e n. rw full (eq e n);
      }

  pub make_room :
      (post : List Item)
      → Gap cell before q g r post
      → (top_offset cell + 72 + overflowed cell * 36 ≤ buffer_top cell) ⊎ (0 < length post)
      → IsSafe cell before
      → g ≤ next_offset cell + 66000
      → RoomMade post
  unfolding cell_body_add_dir_entry
  make_room post v spare safe near = elim (Bool-cases (ltb (cell_body_free_space cell) 36)) [
    | inr enough ↦ record {
      left = post;
      cell' = cell;
      shorter = inl refl;
      lowered = record {
        gap = v;
        frame = λ x u. refl;
        same_next = refl;
        room = ground (arith, free_space_lem v);
      };
      adds = λ e n. rw enough refl;
    }
    | inl full ↦
        let some' : 0 < length post = ground (arith, free_space_lem v, spare) in
        let (init, i, e) = last_of post some' in
        let v' : Gap cell before q g r (init ++ i ∷ []) =
          subst (λ is. Gap cell before q g r is) e v in
        let others : 0 < length before + length init = omega (
          arith,
          safe,
          near,
          Chain-most _ _ _ _ _ _ v.front,
          Chain-most _ _ _ _ _ _ v'.back,
          length-append init (i ∷ []),
        ) in
        subst RoomMade (sym e) (make_last init i v' others full)
  ]

-- The header and the bytes of the chunk stand at the next entry.
pub record Written (cell : Cell) (q : ℕ) (i : Item) : Type 0 where
  pub item : IsItem i
  pub header : load_body_entry cell.slab (next_offset cell) ≡ stored q i
  pub content : read cell.slab (next_offset cell + 36) (size i) ≡ i.bytes

-- The next entry moves behind the chunk.
abbrev pub past : Cell → Item → Cell
past cell i = set_body cell (top_offset cell) (next_offset cell + 36 + size i)

-- The chunk in the gap is listed: it is then the last before the gap.
module _ (cell : Cell) (before : List Item) (q g r : ℕ) (post : List Item) (i : Item)
    (l : Lowered cell before q g r post cell) (w : Written cell q i)
    (fresh : copies i.checksum before + copies i.checksum post ≡ 0)
    (fits : next_offset cell + 36 + size i ≤ g) where
  v : Gap cell before q g r post
  v = l.gap

  abbrev n : ℕ
  n = next_offset cell

  abbrev final : Cell
  final = past (one_more cell i n) i

  unlisted : offset_of cell i.checksum ≡ none
  unlisted = v.listing i.checksum ∙ spot-none before g post i.checksum fresh

  small : n < 2 ^ 31
  small = omega (arith, v.order, g_le v, top_lt v)

  few : overflowed cell < 4095
  few = omega (arith, few_overflowed v)

  high : (overflowed cell + 1) * 36 ≤ buffer_top cell
  high = omega (arith, l.room)

  entries : cell.cell_header.entry_count < 2 ^ 31
  entries = omega (arith, few_entries v)

  bytes : cell.cell_header.byte_count < 2 ^ 31
  bytes = omega (arith, few_bytes v, top_lt v)

  pub listed-eq :
      cell_header_add cell (cell_dir_entry_set i.checksum n) (size i) ≡ one_more cell i n
  listed-eq = cell_header_add-eq cell i n v.dir w.item unlisted few high small entries bytes

  pub listed-frame : (x : ℕ) → x < top_offset cell + 36 → final.slab x ≡ cell.slab x
  listed-frame x u =
      (dir_added cell i n v.dir w.item unlisted few high small entries bytes).frame x
        (omega (arith, l.room))

  chain :
      (s a : ℕ) (is : List Item) (b t : ℕ)
      → b ≤ top_offset cell
      → Chain cell.slab s a is b t
      → Chain final.slab s a is b t
  chain s a is b t le =
      Chain-agree cell.slab final.slab s a is b t (λ x l' u. listed-frame x (omega arith))

  entry-same : (a : ℕ) → a ≤ top_offset cell → entry_at final a ≡ entry_at cell a
  entry-same a le =
      load_body_entry-agree cell.slab final.slab a (λ x l' u. listed-frame x (omega arith))

  own : Chain final.slab q n (i ∷ []) (n + 36 + size i) (size i)
  own = (
    entry-same n (omega (arith, v.order, g_le v)) ∙ w.header,
    read-agree final.slab cell.slab (n + 36) (size i)
          (λ x l' u. listed-frame x (omega (arith, fits, g_le v)))
        ∙ w.content,
    w.item,
    (refl, refl),
  )

  pub listed-Gap : Gap final (before ++ i ∷ []) (size i) g r post
  listed-Gap =
      let d = dir_added cell i n v.dir w.item unlisted few high small entries bytes in
      let stops : stop 0 before ≡ n = Chain-stop _ _ _ _ _ _ v.front in
      let top-same = entry-same (top_offset cell) (omega arith) in
      record {
        whole = v.whole;
        dir = d.valid;
        apart = omega (arith, l.room, d.growth);
        top_is_top = ap (λ (b : CellBodyEntry). b.top_entry) top-same ∙ v.top_is_top;
        front =
            Chain-append final.slab 0 0 before n q (i ∷ []) (n + 36 + size i) (size i)
              (chain 0 0 before n q (omega (arith, v.order, g_le v)) v.front) own;
        order = fits;
        back =
            subst
              (λ (e : CellBodyEntry). Chain final.slab r g post (top_offset cell) e.previous_size)
              (sym top-same) (chain r g post (top_offset cell) _ (omega arith) v.back);
        listing =
            added-listing cell i n v.dir w.item unlisted few high small entries bytes
              (spot before g post) (spot (before ++ i ∷ []) g post) v.listing
              (added-at before g post i v.single fresh ∙ ap some stops)
              (added-same before g post i v.single fresh);
        single = added-IsSingle before g post i v.single fresh;
        entries = omega (arith, v.entries, length-append before (i ∷ []));
        bytes = omega (arith, v.bytes, bytes_in-append before (i ∷ []));
        total = omega (arith, v.total, d.total);
      }
