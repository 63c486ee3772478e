-- ===== src/Common/Fixed.antt =====
-- Signed amounts with four decimals, for the tests: a number of ten thousandths.
use Prim.Native.Nat.{ℕ, ◌+◌, ◌-◌, ◌*◌, ◌/◌}
use Prim.Native.String.{String, ◌++◌}
use mathlib.Core.Bool.{Bool, true, false, ◌&&◌, ◌||◌, not}
use odyssey_erp.Common.Tests.{ltb, leb, ◌==◌, if◌then◌else◌}
use odyssey_erp.Common.Float.{FloatOps}
use odyssey_erp.Common.Cents.{print_cents, parse_from}

pub data Fixed : Type 0 where
  plus minus : ℕ → Fixed

abbrev signed : Bool → ℕ → Fixed
signed true n = plus n
signed false n = if n == 0 then plus 0 else minus n

abbrev is_plus : Fixed → Bool
is_plus (plus n) = true
is_plus (minus n) = false

abbrev size : Fixed → ℕ
size (plus n) = n
size (minus n) = n

abbrev difference : ℕ → ℕ → Fixed
difference a b = if leb b a then plus (a - b) else minus (b - a)

abbrev sum : Fixed → Fixed → Fixed
sum (plus a) (plus b) = plus (a + b)
sum (plus a) (minus b) = difference a b
sum (minus a) (plus b) = difference b a
sum (minus a) (minus b) = minus (a + b)

abbrev negated : Fixed → Fixed
negated (plus n) = signed false n
negated (minus n) = plus n

abbrev same_sign : Fixed → Fixed → Bool
same_sign a b = is_plus a && is_plus b || not (is_plus a) && not (is_plus b)

abbrev below : Fixed → Fixed → Bool
below (plus a) (plus b) = ltb a b
below (plus a) (minus b) = false
below (minus a) (plus b) = true
below (minus a) (minus b) = ltb b a

abbrev equal : Fixed → Fixed → Bool
equal (plus a) (plus b) = a == b
equal (plus a) (minus b) = false
equal (minus a) (plus b) = false
equal (minus a) (minus b) = a == b

unfoldable pub print_fixed : Fixed → String
unfolding print_cents
print_fixed (plus n) = print_cents ((n + 50) / 100)
print_fixed (minus n) = "-" ++ print_cents ((n + 50) / 100)

unfoldable pub parse_fixed : String → Fixed
unfolding parse_from
parse_fixed s = plus (parse_from 0 s * 100)

abbrev pub fixed : FloatOps
fixed = record {
  Float = Fixed;
  zero = plus 0;
  one = plus 10000;
  hundred = plus 1000000;
  add = sum;
  sub = λ a b. sum a (negated b);
  mul = λ a b. signed (same_sign a b) (size a * size b / 10000);
  div = λ a b. signed (same_sign a b) (size a * 10000 / size b);
  neg = negated;
  abs = λ a. plus (size a);
  max = λ a b. if below a b then b else a;
  min = λ a b. if below a b then a else b;
  is_finite = λ a. true;
  round = λ a. signed (is_plus a) ((size a + 5000) / 10000 * 10000);
  lt = below;
  le = λ a b. not (below b a);
  eq = equal;
  tenth_mil = plus 1;
  nano = plus 0;
  format2 = print_fixed;
  parse = parse_fixed;
  store_text = λ k a. a;
  store = λ k a. a;
}
