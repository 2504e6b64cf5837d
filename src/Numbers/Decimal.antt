-- ===== src/Numbers/Decimal.antt =====
-- One instance of the numbers, for examples: a number is counted in ten-thousandths, and nothing is
-- below zero. Its texts are not those of the language.
use gana_v.Prelude.{ℕ, zero, suc, ◌+◌, ◌-◌, ◌*◌, ◌/◌, max, ltb, leb, ◌==◌, if◌then◌else◌}
use gana_v.Numbers.{Numbers}

abbrev power_of_ten : ℕ → ℕ
power_of_ten zero = 1
power_of_ten (suc k) = 10 * power_of_ten k

abbrev pub decimal : Numbers
decimal = record {
  Num = ℕ;
  ltb = ltb;
  leb = leb;
  eqb = λ a b. a == b;
  add = λ a b. a + b;
  sub = λ a b. a - b;
  mul = λ a b. a * b / 10000;
  div = λ a b. a * 10000 / b;
  least = λ a b. if ltb b a then b else a;
  greatest = max;
  round = λ a. (a + 5000) / 10000 * 10000;
  literal = λ n k. n * 10000 / power_of_ten k;
  to_string = λ a. "number";
  to_fixed = λ a n. "number";
}
