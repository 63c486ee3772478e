-- ===== src/Common/Cents.antt =====
-- Amounts that are a number of cents, for the tests: sums stay exact, and a text has two decimals.
use Prim.Native.Nat.{ℕ, ◌+◌, ◌-◌, ◌*◌, ◌/◌, ◌%◌}
use Prim.Native.String.{String, [], ◌∷◌, ◌++◌}
use Prim.Native.Char.{code}
use mathlib.Core.Bool.{true}
use odyssey_erp.Common.Tests.{ltb, leb, ◌==◌, if◌then◌else◌}
use odyssey_erp.Common.Text.{sprint}
use odyssey_erp.Common.Float.{FloatOps}

unfoldable pub parse_from : ℕ → String → ℕ
parse_from acc [] = acc
parse_from acc (c ∷ s) =
    if code c == 46 then parse_from acc s else parse_from (acc * 10 + (code c - 48)) s

unfoldable pub print_cents : ℕ → String
unfolding sprint
print_cents n = sprint (n / 100) ++ ("." ++ (sprint (n / 10 % 10) ++ sprint (n % 10)))

abbrev pub cents : FloatOps
cents = record {
  Float = ℕ;
  zero = 0;
  one = 100;
  hundred = 10000;
  add = λ a b. a + b;
  sub = λ a b. a - b;
  mul = λ a b. a * b / 100;
  div = λ a b. a * 100 / b;
  neg = λ a. 0;
  abs = λ a. a;
  max = λ a b. if ltb a b then b else a;
  min = λ a b. if ltb a b then a else b;
  is_finite = λ a. true;
  round = λ a. (a + 50) / 100 * 100;
  lt = ltb;
  le = leb;
  eq = λ a b. a == b;
  tenth_mil = 0;
  nano = 0;
  format2 = print_cents;
  parse = parse_from 0;
  store_text = λ k a. a;
  store = λ k a. a;
}
