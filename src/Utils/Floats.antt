-- ===== src/Utils/Floats.antt =====
-- float64 as the code uses it: an abstract type with operations.
use lemmings.Common.{ℤ, Bool}

-- What the code asks of float64: the comparisons `<` and `≤`, its literals in tenths, arithmetic, and
-- the conversions from and to an `int`.
pub record Floats : Type 1 where
  pub Float : Type 0
  pub lt : Float → Float → Bool
  pub le : Float → Float → Bool
  pub tenths : ℤ → Float
  pub plus : Float → Float → Float
  pub minus : Float → Float → Float
  pub times : Float → Float → Float
  pub over : Float → Float → Float
  pub pow : Float → Float → Float
  pub of_int : ℤ → Float
  pub to_int : Float → ℤ
