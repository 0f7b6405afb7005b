-- ===== src/Prelude/Rounding.antt =====
-- Rounding a quotient keeps it below a whole bound.
use native.Mathlib.Nat.{div-add-mod, mul-le-mul_left, mul-suc}
use harbormaster.Prelude.Text.{round_div}
use harbormaster.Prelude.Tests.{ltb, leb, leb→le, if◌then◌else◌, Bool-cases}
use harbormaster.Prelude.Equality.{nat_eq, ◌==◌}
use mathlib.Core.Path.{◌≡◌, ap}
use mathlib.Core.Logic.{inl, inr}
use Prim.Native.Nat.{ℕ, zero, suc, ◌^◌, ◌+◌, ◌*◌, ◌/◌, ◌%◌, ◌≤◌, ◌<◌}
use native.Mathlib.Omega.{arith}

rounded :
    (q r d k : ℕ)
    → q ≤ k
    → (q ≡ k → r ≡ 0)
    → 0 < d
    → (if ltb (2 * r) d
        then q
        else if ltb d (2 * r)
        then q + 1
        else if q % 2 == 0
        then q
        else q + 1)
      ≤ k
rounded q r d k le at_end there = ground arith

le_of_mul : (d q k r : ℕ) → d * q + r ≤ d * k → 0 < d → q ≤ k
le_of_mul d q k r h there = elim (Bool-cases (leb q k)) [
  | inl le ↦ leb→le q k le
  | inr more ↦
      let above : suc k ≤ q = ground arith in
      absurd (omega (arith, mul-le-mul_left d above, mul-suc d k, h))
]

pub round_div-share : (n d k : ℕ) → 0 < d → n ≤ d * k → round_div n d ≤ k
unfolding round_div
round_div-share n d k there le =
    let split = div-add-mod n d in
    rounded (n / d) (n % d) d k (le_of_mul d (n / d) k (n % d) (omega (arith, split, le)) there)
      (λ e. omega (arith, ap (λ q. d * q) e, split, le)) there

pub pow_pos : (n : ℕ) → 0 < 10 ^ n
pow_pos zero = omega arith
pow_pos (suc n) = omega (arith, pow_pos n)
