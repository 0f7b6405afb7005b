-- ===== src/Mapping/Variation/Order.antt =====
-- The order of ratios, as `below` of Mapping.Variation compares them crosswise.
use native.Mathlib.Nat.{
  mul-le-mul_right, mul-lt-mul_of_pos_right, le_of_mul-le-mul_right, lt_of_mul-lt-mul_right,
}
use harbormaster.Prelude.{◌*◌, ◌≤◌, ◌<◌, ◌≡◌, true, false, arith, ltb→lt}
use harbormaster.Mapping.Variation.{Ratio, below}

pub below-asym : (r q : Ratio) → below r q ≡ true → below q r ≡ false
below-asym r q less = ground arith

le_of_below : (r q : Ratio) → below q r ≡ false → r.num * q.den ≤ q.num * r.den
le_of_below r q h = ground arith

lt_of_below : (r q : Ratio) → below r q ≡ true → r.num * q.den < q.num * r.den
lt_of_below r q h = ltb→lt _ _ h

below_of_lt : (r q : Ratio) → r.num * q.den < q.num * r.den → below r q ≡ true
below_of_lt r q h = ground arith

-- A fraction below one that is not above a third is below the third.
pub below-le : (r q s : Ratio) → 0 < s.den → below r q ≡ true → below s q ≡ false → below r s ≡ true
below-le r q s there less le = below_of_lt r s (
    lt_of_mul-lt-mul_right q.den (
      omega (
        arith,
        mul-lt-mul_of_pos_right (lt_of_below r q less) there,
        mul-le-mul_right r.den (le_of_below q s le),
      )))

pub le-below : (r q s : Ratio) → 0 < r.den → below q r ≡ false → below q s ≡ true → below r s ≡ true
le-below r q s there le less = below_of_lt r s (
    lt_of_mul-lt-mul_right q.den (
      omega (
        arith,
        mul-le-mul_right s.den (le_of_below r q le),
        mul-lt-mul_of_pos_right (lt_of_below q s less) there,
      )))

le-le_of :
    (r q s : Ratio)
    → 0 < q.den
    → below q r ≡ false
    → below s q ≡ false
    → r.num * s.den ≤ s.num * r.den
le-le_of r q s there le le' =
    le_of_mul-le-mul_right
      (omega (
        arith,
        mul-le-mul_right s.den (le_of_below r q le),
        mul-le-mul_right r.den (le_of_below q s le'),
      ))
      there

pub le-le : (r q s : Ratio) → 0 < q.den → below q r ≡ false → below s q ≡ false → below s r ≡ false
le-le r q s there le le' = ground (arith, le-le_of r q s there le le')
