-- ===== src/Ring/Past.antt =====
-- One more call of `cell_add_chunk` of src/theo/cell.c on a cell whose chunks were all given to it.
use theo.Base.{
  ◌<◌, ◌≡◌, ◌⊎◌, refl, sym, ap, ◌∙◌, inl, inr, Bool, true, false, none, some, List, [], ◌∷◌, ◌++◌,
  Bool-cases, Option-cases, arith,
}
use mathlib.Core.List.{Mem, mem-cons_self, mem-cons_of_mem}
use mathlib.Core.Path.{subst}
use theo.Checksum.{Checksum, checksum_compare, checksum_compare→eq, checksum_compare-false_ne}
use theo.CellDir.{block_no}
use theo.CellDirEntry.{CellDirEntry}
use theo.CellState.{Cell}
use theo.Chunk.{Chunk}
use theo.Cell.{dir_entry, cell_add_chunk, cell_get_chunk}
use theo.Cell.Chunks.{filled}
use theo.Ring.Chain.{Item, IsItem}
use theo.Ring.Offset.{IsStuck}
use theo.Ring.Add.{IsRing}
use theo.Ring.Find.{find, got, listed-none}
use theo.Ring.Contents.{Contents, cell_add_chunk-Contents}
use theo.Ring.Taken.{ring-find}

-- The cell is a ring of chunks that were given to it.
pub record RingOfPast (past : List Item) (cell : Cell) : Type 0 where
  pub before : List Item
  pub post : List Item
  pub ring : IsRing cell before post
  pub given : (c : Checksum) (i : Item) → find c (before ++ post) ≡ some i → Mem i past

find-key : (c : Checksum) (is : List Item) (i : Item) → find c is ≡ some i → i.checksum ≡ c
find-key c [] i h = absurd (ground arith)
find-key c (j ∷ is) i h = elim (Bool-cases (checksum_compare j.checksum c)) [
  | inl e ↦
      let same : j ≡ i = ground (arith, h, e) in
      ap (λ (k : Item). k.checksum) (sym same) ∙ checksum_compare→eq j.checksum c e
  | inr e ↦ find-key c is i (ground (arith, h, e))
]

-- What one more call does.
pub record NextOfPast (past : List Item) (cell : Cell) (i : Item) : Type 0 where
  pub b : Bool
  pub cell' : Cell
  pub returns : cell_add_chunk cell i.checksum i.bytes ≡ some (b, cell')
  pub after : RingOfPast (i ∷ past) cell'

module _ (past : List Item) (cell : Cell) (i : Item) (v : RingOfPast past cell)
    (item : IsItem i) where
  call_listed : (e : CellDirEntry) → dir_entry cell i.checksum ≡ some e → NextOfPast past cell i
  unfolding cell_add_chunk
  call_listed e at = record {
    b = false;
    cell' = cell;
    returns = rw (at, cell_add_chunk) refl;
    after = record {
      before = v.before;
      post = v.post;
      ring = v.ring;
      given = λ c j h. mem-cons_of_mem i (v.given c j h);
    };
  }

  given-Contents :
      (cell' : Cell) (k : Contents v.before v.post i cell') (c : Checksum) (j : Item)
      → find c (k.before' ++ k.post') ≡ some j
      → Mem j (i ∷ past)
  given-Contents cell' k c j h = elim (Bool-cases (checksum_compare c i.checksum)) [
    | inl e ↦
        let same : c ≡ i.checksum = checksum_compare→eq c i.checksum e in
        let h' : find i.checksum (k.before' ++ k.post') ≡ some j =
          ap (λ x. find x (k.before' ++ k.post')) (sym same) ∙ h in
        elim k.own [
          | inl own ↦
              let eq : i ≡ j = ground (arith, own, h') in
              subst (λ x. Mem x (i ∷ past)) eq mem-cons_self
          | inr (gone, few) ↦ absurd (ground (arith, gone, h'))
        ]
    | inr e ↦ elim (k.others c (checksum_compare-false_ne c i.checksum e)) [
      | inl same ↦ mem-cons_of_mem i (v.given c j (sym same ∙ h))
      | inr gone ↦ absurd (ground (arith, gone, h))
    ]
  ]

  -- The call returns, or it aborts for the one reason there is.
  abbrev pub Called : Type 0
  Called =
      NextOfPast past cell i
      ⊎ ((cell_add_chunk cell i.checksum i.bytes ≡ none) × IsStuck cell i v.post)

  call_unlisted : dir_entry cell i.checksum ≡ none → Called
  call_unlisted at =
      let r = v.ring.ring in
      let fresh = listed-none cell v.before v.post r.q r.g r.r i.checksum r.gap item.low at in
      elim (cell_add_chunk-Contents cell v.before v.post i v.ring item fresh) [
        | inl (cell', eq, k, sane) ↦ inl (record {
          b = true;
          cell' = cell';
          returns = eq;
          after = record {
            before = k.before';
            post = k.post';
            ring = k.ring;
            given = given-Contents cell' k;
          };
        })
        | inr stuck ↦ inr stuck
      ]

  pub called : Called
  called = elim (Option-cases (dir_entry cell i.checksum)) [
    | inl none' ↦ call_unlisted none'
    | inr (e, at) ↦ inl (call_listed e at)
  ]

-- What is got from such a cell.
pub past-get :
    (past : List Item) (cell : Cell) (c : Checksum) (chunk : Chunk)
    → RingOfPast past cell
    → block_no c < 256
    → (cell_get_chunk cell c chunk ≡ some (false, chunk))
      ⊎ ((i : Item) × Mem i past
          × (i.checksum ≡ c)
          × (cell_get_chunk cell c chunk ≡ some (true, filled chunk c i.bytes)))
past-get past cell c chunk v low =
    let gets = ring-find cell v.before v.post c v.ring low chunk in
    elim (Option-cases (find c (v.before ++ v.post))) [
      | inl none' ↦ inl (gets ∙ ap (got c chunk) none')
      | inr (i, at) ↦
          inr (i, v.given c i at, find-key c (v.before ++ v.post) i at, gets ∙ ap (got c chunk) at)
    ]
