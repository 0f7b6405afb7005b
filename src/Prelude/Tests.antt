-- ===== src/Prelude/Tests.antt =====
-- Boolean tests on the native numbers, the conditional, and the splits that keep an equation.
use Prim.Native.Nat.{ℕ, zero, suc, ◌≤◌, ◌<◌, compare, Ordering}
use mathlib.Core.Path.{◌≡◌, refl}
use mathlib.Core.Logic.{◌⊎◌, inl, inr}
use mathlib.Core.Bool.{Bool, true, false, ◌&&◌}
use mathlib.Core.Option.{Option, none, some}
use native.Mathlib.Omega.{arith}

abbrev pub ltb : ℕ → ℕ → Bool
ltb a b = elim (compare a b) [ Ordering.lt ↦ true | _ ↦ false ]

abbrev pub leb : ℕ → ℕ → Bool
leb a b = elim (compare a b) [ Ordering.gt ↦ false | _ ↦ true ]

infix 1 if◌then◌else◌
abbrev pub if◌then◌else◌ {ℓ} : {A : Type ℓ} → Bool → A → A → A
if true then x else y = x
if false then x else y = y

-- `o is not None`
abbrev pub is_some {ℓ} : {A : Type ℓ} → Option A → Bool
is_some none = false
is_some (some _) = true

pub ltb→lt : (a b : ℕ) → ltb a b ≡ true → a < b
ltb→lt a b h = ground arith

pub leb→le : (a b : ℕ) → leb a b ≡ true → a ≤ b
leb→le a b h = ground arith

pub ruleset tests = (arith, ltb→lt, leb→le)

pub Bool-cases : (b : Bool) → (b ≡ true) ⊎ (b ≡ false)
Bool-cases true = inl refl
Bool-cases false = inr refl

pub Option-cases {ℓ} : {A : Type ℓ} (o : Option A) → (o ≡ none) ⊎ ((a : A) × (o ≡ some a))
Option-cases none = inl refl
Option-cases (some a) = inr (a, refl)

-- The test of each number under a bound, so that a small range can be run through.
unfoldable pub all_under : (ℕ → Bool) → ℕ → Bool
all_under test zero = true
all_under test (suc bound) = let rest = all_under test bound in rest && test bound

pub all_under_at :
    (test : ℕ → Bool) (bound k : ℕ) → k < bound → all_under test bound ≡ true → test k ≡ true
unfolding all_under
all_under_at test zero k small passed = absurd (omega arith)
all_under_at test (suc bound) k small passed = ground (arith, all_under_at test bound k)

pub if_true {ℓ} :
    {A : Type ℓ} (b : Bool) (m : A) (o : Option A) → b ≡ true → (if b then some m else o) ≡ some m
if_true b m o h = rw h refl

pub if_false {ℓ} :
    {A : Type ℓ} (b : Bool) (m : A) (o : Option A) → b ≡ false → (if b then some m else o) ≡ o
if_false b m o h = rw h refl
