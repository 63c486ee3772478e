-- ===== src/Common/Text.antt =====
-- `fmt.Sprintf("%d", n)` for the numbers that the services print, all of them at least 0.
use Prim.Native.Nat.{ℕ, zero, suc, ◌/◌, ◌%◌}
use Prim.Native.String.{String, [], ◌∷◌, ◌++◌}
use Prim.Native.String.append
use mathlib.Core.Path.{◌≡◌, ap}
use mathlib.Core.Bool.{Bool, true, false}
use mathlib.Core.Logic.{inl, inr}
use odyssey_erp.Common.Tests.{ltb, if◌then◌else◌, str_eq, str_eq_iff, Bool-cases}

digit : ℕ → String
digit zero = "0"
digit (suc zero) = "1"
digit (suc (suc zero)) = "2"
digit (suc (suc (suc zero))) = "3"
digit (suc (suc (suc (suc zero)))) = "4"
digit (suc (suc (suc (suc (suc zero))))) = "5"
digit (suc (suc (suc (suc (suc (suc zero)))))) = "6"
digit (suc (suc (suc (suc (suc (suc (suc zero))))))) = "7"
digit (suc (suc (suc (suc (suc (suc (suc (suc zero)))))))) = "8"
digit (suc (suc (suc (suc (suc (suc (suc (suc (suc n))))))))) = "9"

-- Each round drops a digit, so `n + 1` rounds are more than enough.
sprint_from : ℕ → ℕ → String
sprint_from zero n = ""
sprint_from (suc f) n =
    let rest = sprint_from f (n / 10) ++ digit (n % 10) in if ltb n 10 then digit n else rest

unfoldable pub sprint : ℕ → String
unfolding sprint_from digit
sprint n = sprint_from (suc n) n

abbrev pub is_blank : String → Bool
is_blank [] = true
is_blank (c ∷ s) = false

is_blank-append : (s t : String) → is_blank s ≡ false → is_blank (s ++ t) ≡ false
is_blank-append [] t h = absurd (cc h)
is_blank-append (c ∷ s) t h = ap is_blank (append.cons c s t)

-- A text with something in front is not the empty text.
pub str_eq_filled : (s t : String) → is_blank s ≡ false → str_eq (s ++ t) "" ≡ false
str_eq_filled s t h = elim (Bool-cases (str_eq (s ++ t) "")) [
  | inl e ↦ absurd (cc (ap is_blank ((str_eq_iff (s ++ t) "").0 e), is_blank-append s t h))
  | inr e ↦ e
]
