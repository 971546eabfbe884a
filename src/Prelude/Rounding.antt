-- ===== src/Prelude/Rounding.antt =====
-- Python's `round(n / d)` on a quotient: to the nearest integer, a tie to the even one.
use Prim.Native.Nat.{ℕ, ◌+◌, ◌*◌, ◌/◌, ◌%◌}
use model_test.Prelude.Tests.{ltb, ◌==◌, if◌then◌else◌}

round_up : ℕ → ℕ → ℕ → ℕ
round_up q r d =
    if ltb (2 * r) d then q else if ltb d (2 * r) then q + 1 else if q % 2 == 0 then q else q + 1

unfoldable pub round_div : ℕ → ℕ → ℕ
unfolding round_up
round_div n d = round_up (n / d) (n % d) d
