-- ===== src/Ring/Fresh.antt =====
-- A new cell, as `cell_header_init` of src/theo/cell_header.c makes it, is an empty ring.
use theo.Base.{◌≡◌, refl, sym, ap, ◌∙◌, inl, inr, [], arith}
use mathlib.Core.Option
use theo.CellDirEntry.{CellDirEntry}
use theo.CellState.{Cell}
use theo.CellBody.{next_offset, entry_at}
use theo.Cell.Recover.{IsFresh}
use theo.Ring.Gap.{Gap}
use theo.Ring.Add.{IsRing}

module _ (cell : Cell) (f : IsFresh cell 1048576) where
  start : 0 ≡ next_offset cell
  start = sym f.top_is_zero ∙ sym f.next_is_top

  pub IsFresh-Gap : Gap cell [] 0 0 0 []
  IsFresh-Gap = record {
    whole = f.size;
    dir = f.valid.dir;
    apart = f.valid.apart;
    top_is_top = f.valid.top_is_top;
    front = (start, refl);
    order = omega arith;
    back = (sym f.top_is_zero, sym f.no_previous);
    listing = λ c. ap (λ o. Option.map (λ (e : CellDirEntry). e.offset) o) (f.empty c);
    single = λ c. omega arith;
    entries = f.no_entries;
    bytes = f.no_bytes;
    total = f.nothing_used ∙ sym f.no_entries;
  }

  pub IsFresh-IsRing : IsRing cell [] []
  IsFresh-IsRing = record {
    ring = record {
      q = 0;
      g = 0;
      r = 0;
      gap = IsFresh-Gap;
      filled = inl (start, refl);
      next_previous = ap (λ a. (entry_at cell a).previous_size) f.next_is_top ∙ f.no_previous;
    };
    settled = inr (inr f.next_is_top);
  }
