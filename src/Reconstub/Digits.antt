-- ===== src/Reconstub/Digits.antt =====
-- When the difference of two numbers does not overflow.
use native.Mathlib.Nat.{
  pow-le-pow_right, lt_of_lt_of_le, pow-suc, mul_assoc, mul-lt-mul_of_pos_right,
}
use mathlib.Core.Path.{subst}
use Prim.Native.Nat.{◌^◌}
use harbormaster.Prelude.{
  ℕ, zero, suc, ◌+◌, ◌-◌, ◌*◌, ◌/◌, ◌≤◌, ◌<◌, ◌≡◌, sym, ap, ◌∙◌, inl, inr, Bool, true, false, ltb,
  ltb→lt, arith, Bool-cases,
}
use harbormaster.Prelude.Rounding.{pow_pos}
use harbormaster.Prelude.Int.{ℤ, pos, negsuc}
use harbormaster.Prelude.Digits.{digit_count, digits}
use harbormaster.Reconstub.{half_unit, overflows, places, shifted, max, distance}

suc_one : (d : ℕ) → suc d ≡ d + 1
suc_one d = omega arith

-- A number has no more digits than a power of ten above it, and is below the power of its digits.
digit_count-le : (f n m : ℕ) → n < 10 ^ suc m → digit_count f n ≤ suc m
unfolding digit_count
digit_count-le zero n m h = omega arith
digit_count-le (suc f) n zero h = ground (arith, h)
digit_count-le (suc f) n (suc m) h = elim (Bool-cases (ltb n 10)) [
  | inl one ↦ rw one (omega arith)
  | inr more ↦ rw more (omega (arith, digit_count-le f (n / 10) m (omega (arith, h))))
]

ten_times : (d n : ℕ) → n / 10 < 10 ^ d → n < 10 ^ (d + 1)
ten_times d n h = subst (λ p. n < 10 ^ p) (suc_one d) (omega (arith, h))

below_digits : (f n : ℕ) → n < f → n < 10 ^ digit_count f n
unfolding digit_count
below_digits zero n h = omega arith
below_digits (suc f) n h = elim (Bool-cases (ltb n 10)) [
  | inl one ↦ rw one (ground (arith, one))
  | inr more ↦
      let big : 10 ≤ n = ground (arith, more) in
      let rest : n / 10 < 10 ^ digit_count f (n / 10) = below_digits f (n / 10) (omega arith) in
      rw more (ten_times (digit_count f (n / 10)) n rest)
]

plus_zero : (a : ℕ) → a + 0 ≡ a
plus_zero a = omega arith

plus_suc : (a b : ℕ) → a + suc b ≡ suc (a + b)
plus_suc a b = omega arith

pow_add : (a b : ℕ) → 10 ^ (a + b) ≡ 10 ^ a * 10 ^ b
pow_add a zero = ap (λ p. 10 ^ p) (plus_zero a) ∙ omega arith
pow_add a (suc b) =
    ap (λ p. 10 ^ p) (plus_suc a b)
    ∙ pow-suc 10 (a + b)
    ∙ ap (λ x. x * 10) (pow_add a b)
    ∙ mul_assoc (10 ^ a) (10 ^ b) 10
    ∙ ap (λ x. 10 ^ a * x) (sym (pow-suc 10 b))

ten_pos : 0 < 10
ten_pos = omega arith

-- Half a unit of the last digit kept is no more than the number.
half_unit-le : (n : ℕ) → half_unit n ≤ n
unfolding half_unit
half_unit-le n = elim (Bool-cases (ltb 28 (digits n))) [
  | inr few ↦ rw few (omega arith)
  | inl many ↦ rw many (long (digits n - 29) (omega (arith, ltb→lt 28 (digits n) many)))
]
  where
    long : (q : ℕ) → digits n ≡ q + 29 → 5 * 10 ^ q ≤ n
    long q e' = elim (Bool-cases (ltb n (10 ^ suc (q + 27)))) [
      | inl below ↦ absurd (omega (arith, e', digit_count-le (n + 1) n (q + 27) (ltb→lt n _ below)))
      | inr above ↦
          let wide : 10 ^ suc q ≤ 10 ^ suc (q + 27) = pow-le-pow_right ten_pos (omega arith) in
          let under : 10 ^ suc (q + 27) ≤ n = ground (arith, above) in omega (arith, wide, under)
    ]

not_above : (a b : ℕ) → b ≤ a → ltb a b ≡ false
not_above a b h = ground (arith, h)

-- What is below twice a power of ten that is one digit less than the limit does not overflow.
pub overflows-small : (k n : ℕ) → n < 2 * 10 ^ (999999 + k) → overflows k n ≡ false
unfolding overflows
overflows-small k n small = fits (999999 + k) small (omega arith)
  where
    fits :
        (m : ℕ)
        → n < 2 * 10 ^ m
        → 1000000 + k ≡ suc m
        → ltb (1000000 + k) (digits (n + half_unit n)) ≡ false
    fits m below e' =
        let few : digits (n + half_unit n) ≤ suc m =
          digit_count-le (n + half_unit n + 1) (n + half_unit n) m
            (omega (arith, below, half_unit-le n)) in
        rw e' (not_above (suc m) (digits (n + half_unit n)) few)

-- A number is in range if it has no more than 999999 digits in front of the point.
abbrev pub InRange : ℕ → ℤ → Type 0
InRange c e = digits c + shifted e (places e) ≤ 999999 + places e

shifted-places : (e : ℤ) (k : ℕ) → places e ≤ k → shifted e k + places e ≡ shifted e (places e) + k
shifted-places (pos n) k h = omega arith
shifted-places (negsuc n) k h = omega (arith, h)

pub scaled-small :
    (c : ℕ) (e : ℤ) (k : ℕ) → InRange c e → places e ≤ k → c * 10 ^ shifted e k < 10 ^ (999999 + k)
unfolding digits digit_count
scaled-small c e k fits there =
    let short : digits c + shifted e k ≤ 999999 + k =
      omega (arith, fits, shifted-places e k there) in
    lt_of_lt_of_le
      (subst (λ x. c * 10 ^ shifted e k < x) (sym (pow_add (digits c) (shifted e k)))
        (mul-lt-mul_of_pos_right (below_digits (c + 1) c (omega arith)) (pow_pos (shifted e k))))
      (pow-le-pow_right ten_pos short)

distance-le : (n m : Bool) (x y : ℕ) → distance n x m y ≤ x + y
distance-le true true x y = ground arith
distance-le true false x y = ground arith
distance-le false true x y = ground arith
distance-le false false x y = ground arith

pub distance-small :
    (n m : Bool) (x y k : ℕ)
    → x < 10 ^ (999999 + k)
    → y < 10 ^ (999999 + k)
    → distance n x m y < 2 * 10 ^ (999999 + k)
distance-small n m x y k h g = omega (arith, distance-le n m x y, h, g)

-- The exponent at which two numbers are subtracted is that of neither less.
pub places-le : (e f : ℤ) → places e ≤ max 30 (max (places e) (places f))
places-le e f = ground arith

pub places-le' : (e f : ℤ) → places f ≤ max 30 (max (places e) (places f))
places-le' e f = ground arith
