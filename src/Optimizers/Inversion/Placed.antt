-- ===== src/Optimizers/Inversion/Placed.antt =====
-- Where a double negation may stand for the optimizer to keep the meaning of an expression.
use yodk.Common.{◌≡◌, Bool, true, false, Option, none, some}
use yodk.Text.{Text, is}
use yodk.Text.Map.{lookup}
use yodk.Ast.{Expression, unary_operation, binary_operation}
use yodk.Optimizers.Inversion.{andor}

-- What counts of an expression: its value, or only whether it is zero.
pub data Place : Type 0 where
  value truth : Place

-- a `not`
unfoldable pub is_negation : Expression → Bool
is_negation (unary_operation position operator exp) = is operator "not"
is_negation _ = false

abbrev pub PlacedUnary : Bool → Place → Bool → Type 0 → Type 0 → Type 0
PlacedUnary true value double in_truth in_value = (double ≡ false) × in_truth
PlacedUnary true truth double in_truth in_value = in_truth
PlacedUnary false place double in_truth in_value = in_value

abbrev pub PlacedBinary : Option Text → Type 0 → Type 0 → Type 0
PlacedBinary none in_truth in_value = in_value
PlacedBinary (some opposite) in_truth in_value = in_truth

-- A `not` of a `not` stands only where the truth of its value counts: below `not`, `and` and `or`,
-- and at the root if the place is `truth`.
unfoldable pub Placed : Place → Expression → Type 0
Placed place (unary_operation position operator exp) =
    PlacedUnary (is operator "not") place (is_negation exp) (Placed truth exp) (Placed value exp)
Placed place (binary_operation operator exp1 exp2) =
    PlacedBinary (lookup operator andor) (Placed truth exp1 × Placed truth exp2)
      (Placed value exp1 × Placed value exp2)
Placed place _ = Unit
