-- ===== src/Verify/Grouping/Floats.antt =====
-- The floating-point numbers of workflow/verify-poc/src/multiGrouping.ts, which the language gives:
-- what the similarity scores are computed with.
use anti_soon.Prelude.{ℕ, Bool}
use Prim.Native.Nat.{Ordering}

pub record Floats : Type 1 where
  pub Float : Type 0
  pub of_nat : ℕ → Float
  -- the literal with these hundredths, such as `0.55`
  pub hundredths : ℕ → Float
  pub plus : Float → Float → Float
  pub minus : Float → Float → Float
  pub times : Float → Float → Float
  pub over : Float → Float → Float
  -- `Math.round`
  pub rounded : Float → Float
  -- `<` and `>=`
  pub is_below : Float → Float → Bool
  pub is_at_least : Float → Float → Bool
  -- `=== 0`
  pub is_zero : Float → Bool
  -- the sign of a difference, `eq` where it is zero
  pub sign : Float → Ordering
