-- ===== src/Prelude/Digits.antt =====
-- The digits of a number.
use Prim.Native.Nat.{ℕ, zero, suc, ◌+◌, ◌/◌}
use harbormaster.Prelude.Tests.{ltb, if◌then◌else◌}

-- how many digits a number has, with a round for each
unfoldable pub digit_count : ℕ → ℕ → ℕ
digit_count zero n = 0
digit_count (suc f) n = let more = digit_count f (n / 10) in if ltb n 10 then 1 else more + 1

unfoldable pub digits : ℕ → ℕ
unfolding digit_count
digits n = digit_count (n + 1) n
