-- ===== src/Common/Fixed.antt =====
-- Numbers with eight decimals, for runs of what the program computes in `float`. They have no
-- negative values: `sub` stops at 0.
use mundus_vivens_game_serve.Common.{ℕ, zero, suc, ◌+◌, ◌-◌, ◌*◌, ◌/◌, ltb, leb, ◌==◌}
use mundus_vivens_game_serve.Common.Int.{pos, pos_part}
use mundus_vivens_game_serve.Common.Float.{Float}

abbrev power_of_ten : ℕ → ℕ
power_of_ten zero = 1
power_of_ten (suc n) = 10 * power_of_ten n

abbrev one : ℕ
one = 100000000

abbrev pub fixed : Float
fixed = record {
  F = ℕ;
  add = ◌+◌;
  sub = ◌-◌;
  mul = λ a b. a * b / one;
  div = λ a b. a * one / b;
  sqrt = λ a. a;
  lt = ltb;
  le = leb;
  eq = ◌==◌;
  dec = λ n k. n * power_of_ten (8 - k);
  of_ℤ = λ v. pos_part v * one;
  round = λ a. pos ((a + 50000000) / one);
  floor = λ a. pos (a / one);
  ceil = λ a. pos ((a + 99999999) / one);
}
