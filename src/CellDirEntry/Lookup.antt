-- ===== src/CellDirEntry/Lookup.antt =====
-- What a row of directory entries says: the entry of a checksum, how often a checksum occurs, and
-- how many entries are in use.
use theo.Base.{
  ℕ, zero, suc, ◌+◌, ◌≤◌, ◌<◌, ◌≡◌, ◌≢◌, refl, Bool, true, false, Option, none, some, List, [], ◌∷◌,
  ◌++◌, length, get_or, set, ◌==◌, if◌then◌else◌, arith,
}
use theo.Checksum.{Checksum, checksum_compare, checksum_compare→eq}
use theo.CellDirEntry.{CellDirEntry}

-- The entry is in use for checksum `c`.
abbrev pub is_hit : Checksum → CellDirEntry → Bool
is_hit c e = if e.set == 0 then false else checksum_compare c e.checksum

unfoldable pub lookup : Checksum → List CellDirEntry → Option CellDirEntry
lookup c [] = none
lookup c (e ∷ es) = if is_hit c e then some e else lookup c es

abbrev pub hits : Checksum → CellDirEntry → ℕ
hits c e = if is_hit c e then 1 else 0

unfoldable pub count : Checksum → List CellDirEntry → ℕ
count c [] = 0
count c (e ∷ es) = hits c e + count c es

abbrev pub uses : CellDirEntry → ℕ
uses e = if e.set == 0 then 0 else 1

unfoldable pub used : List CellDirEntry → ℕ
used [] = 0
used (e ∷ es) = uses e + used es

module _ (c : Checksum) where
  pub lookup-none : (es : List CellDirEntry) → count c es ≡ 0 → lookup c es ≡ none
  unfolding lookup count
  lookup-none [] h = refl
  lookup-none (e ∷ es) h = ground (arith, lookup-none es)

  pub count-zero : (es : List CellDirEntry) → lookup c es ≡ none → count c es ≡ 0
  unfolding lookup count
  count-zero [] h = refl
  count-zero (e ∷ es) h = ground (arith, count-zero es)

  pub lookup-append :
      (es fs : List CellDirEntry)
      → lookup c (es ++ fs) ≡ (if count c es == 0 then lookup c fs else lookup c es)
  unfolding lookup count
  lookup-append [] fs = refl
  lookup-append (e ∷ es) fs = ground (arith, lookup-append es fs)

  pub lookup_hits :
      (es : List CellDirEntry) (e : CellDirEntry)
      → lookup c es ≡ some e
      → (is_hit c e ≡ true) × (0 < count c es)
  unfolding lookup count
  lookup_hits [] e h = cc
  lookup_hits (x ∷ es) e h = ground (arith, lookup_hits es e)

  -- Overwriting the entry at a position.
  pub count-set :
      (es : List CellDirEntry) (i : ℕ) (e d : CellDirEntry)
      → i < length es
      → count c (set es i e) + hits c (get_or es i d) ≡ count c es + hits c e
  unfolding count
  count-set [] i e d h = absurd (omega arith)
  count-set (x ∷ es) zero e d h = omega arith
  count-set (x ∷ es) (suc i) e d h = omega (arith, count-set es i e d)

  pub lookup-set_miss :
      (es : List CellDirEntry) (i : ℕ) (e d : CellDirEntry)
      → is_hit c e ≡ false
      → is_hit c (get_or es i d) ≡ false
      → lookup c (set es i e) ≡ lookup c es
  unfolding lookup
  lookup-set_miss [] i e d h k = refl
  lookup-set_miss (x ∷ es) zero e d h k = ground arith
  lookup-set_miss (x ∷ es) (suc i) e d h k = ground (arith, lookup-set_miss es i e d h)

  pub lookup-set_hit :
      (es : List CellDirEntry) (i : ℕ) (e : CellDirEntry)
      → i < length es
      → count c es ≡ 0
      → is_hit c e ≡ true
      → lookup c (set es i e) ≡ some e
  unfolding lookup count
  lookup-set_hit [] i e h k hit = absurd (omega arith)
  lookup-set_hit (x ∷ es) zero e h k hit = ground arith
  lookup-set_hit (x ∷ es) (suc i) e h k hit = ground (arith, lookup-set_hit es i e)

pub used-set :
    (es : List CellDirEntry) (i : ℕ) (e d : CellDirEntry)
    → i < length es
    → used (set es i e) + uses (get_or es i d) ≡ used es + uses e
unfolding used
used-set [] i e d h = absurd (omega arith)
used-set (x ∷ es) zero e d h = omega arith
used-set (x ∷ es) (suc i) e d h = omega (arith, used-set es i e d)

pub used-le-length : (es : List CellDirEntry) → used es ≤ length es
unfolding used
used-le-length [] = omega arith
used-le-length (e ∷ es) = ground (arith, used-le-length es)

pub count-le-used : (c : Checksum) (es : List CellDirEntry) → count c es ≤ used es
unfolding count used
count-le-used c [] = omega arith
count-le-used c (e ∷ es) = ground (arith, count-le-used c es)

-- Two checksums of one entry are one checksum.
pub is_hit_unique :
    (c d : Checksum) (e : CellDirEntry) → c ≢ d → is_hit c e ≡ true → is_hit d e ≡ false
is_hit_unique c d e ne h =
    ground (arith, checksum_compare→eq c e.checksum, checksum_compare→eq d e.checksum)

pub hit_checksum : (c : Checksum) (e : CellDirEntry) → is_hit c e ≡ true → c ≡ e.checksum
hit_checksum c e h = checksum_compare→eq c e.checksum (ground arith)
