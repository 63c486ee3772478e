-- ===== src/Common/Float.antt =====
-- float64 as the program uses it. Floats come from outside of the program: a development over them
-- takes this record as a parameter, and states each law of them that it uses as a hypothesis.
use Prim.Native.Nat.{ℕ}
use Prim.Native.String.{String}
use mathlib.Core.Bool.{Bool}

pub record FloatOps : Type 1 where
  pub Float : Type 0
  pub zero : Float
  pub one : Float
  pub hundred : Float
  pub add : Float → Float → Float
  pub sub : Float → Float → Float
  pub mul : Float → Float → Float
  pub div : Float → Float → Float
  pub neg : Float → Float
  -- math.Abs
  pub abs : Float → Float
  -- math.Max, math.Min
  pub max : Float → Float → Float
  pub min : Float → Float → Float
  -- Neither math.IsNaN nor math.IsInf.
  pub is_finite : Float → Bool
  -- math.Round
  pub round : Float → Float
  -- a < b, a <= b, a == b
  pub lt : Float → Float → Bool
  pub le : Float → Float → Bool
  pub eq : Float → Float → Bool
  -- The literals 0.0001 and 1e-9.
  pub tenth_mil : Float
  pub nano : Float
  -- fmt.Sprintf("%.2f", a), and the number that a NUMERIC column gives back for such a text.
  pub format2 : Float → String
  pub parse : String → Float
  -- The numbers that a NUMERIC column with so many decimals gives back for fmt.Sprintf("%f", a) and
  -- for a itself.
  pub store_text : ℕ → Float → Float
  pub store : ℕ → Float → Float
