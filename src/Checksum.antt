-- ===== src/Checksum.antt =====
-- src/theo/checksum.c and checksum.h.
use theo.Base.{ℕ, ◌≡◌, refl, Bool, true, false, ◌&&◌, ◌==◌, List, [], ◌∷◌, replicate, length, arith}
use mathlib.Core.Path.{ap₂}
use mathlib.Core.Logic.{◌≢◌}

abbrev pub checksum_size : ℕ
checksum_size = 32

-- `struct checksum`, its bytes in order.
abbrev pub Checksum : Type 0
Checksum = List ℕ

unfoldable pub checksum_init : Checksum
checksum_init = replicate checksum_size 0

-- Whether `checksum_compare` returns 0, which is all that its callers test: memcmp is 0 exactly
-- when no byte differs.
unfoldable pub checksum_compare : Checksum → Checksum → Bool
checksum_compare [] [] = true
checksum_compare [] (b ∷ bs) = false
checksum_compare (a ∷ as') [] = false
checksum_compare (a ∷ as') (b ∷ bs) = a == b && checksum_compare as' bs

pub checksum_compare_refl : (c : Checksum) → checksum_compare c c ≡ true
unfolding checksum_compare
checksum_compare_refl [] = refl
checksum_compare_refl (a ∷ c) = ground (arith, checksum_compare_refl c)

pub checksum_compare→eq : (c d : Checksum) → checksum_compare c d ≡ true → c ≡ d
unfolding checksum_compare
checksum_compare→eq [] [] h = refl
checksum_compare→eq [] (b ∷ d) h = cc
checksum_compare→eq (a ∷ c) [] h = cc
checksum_compare→eq (a ∷ c) (b ∷ d) h =
    ap₂ ◌∷◌ (ground arith) (checksum_compare→eq c d (ground arith))

pub checksum_compare_ne : (c d : Checksum) → c ≢ d → checksum_compare c d ≡ false
checksum_compare_ne c d h = ground (arith, checksum_compare→eq c d)

pub length-checksum_init : length checksum_init ≡ 32
unfolding checksum_init
length-checksum_init = refl

pub checksum_compare_comm : (c d : Checksum) → checksum_compare c d ≡ checksum_compare d c
unfolding checksum_compare
checksum_compare_comm [] [] = refl
checksum_compare_comm [] (b ∷ d) = refl
checksum_compare_comm (a ∷ c) [] = refl
checksum_compare_comm (a ∷ c) (b ∷ d) = ground (arith, checksum_compare_comm c d)

pub checksum_compare-false_ne : (c d : Checksum) → checksum_compare c d ≡ false → c ≢ d
checksum_compare-false_ne c d h e =
    let same : checksum_compare c d ≡ true = rw (← e) (checksum_compare_refl c) in cc
