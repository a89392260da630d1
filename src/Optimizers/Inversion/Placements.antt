-- ===== src/Optimizers/Inversion/Placements.antt =====
-- What a place where double negations are allowed says of the operands.
use yodk.Common.{◌≡◌, false, none, some}
use mathlib.Core.Path.{subst}
use yodk.Text.{Text, is, text_eq}
use yodk.Text.Map.{lookup}
use yodk.Ast.{Position, Expression, unary_operation, binary_operation}
use yodk.Optimizers.Inversion.{andor, negation}
use yodk.Optimizers.Inversion.Placed.{
  Place, value, truth, Placed, PlacedUnary, PlacedBinary, is_negation,
}

pub Placed-below :
    (place : Place) (pos : Position) (a : Expression)
    → Placed place (negation pos a)
    → Placed truth a
unfolding Placed text_eq
Placed-below value pos a p = p.1
Placed-below truth pos a p = p

pub Placed-double :
    (pos p : Position) (op : Text) (a : Expression)
    → Placed value (negation pos (unary_operation p op a))
    → is op "not" ≡ false
unfolding Placed text_eq is_negation
Placed-double pos p op a h = h.0

pub Placed-operands :
    (place : Place) (op : Text) (a b : Expression)
    → Placed place (binary_operation op a b)
    → lookup op andor ≡ none
    → Placed value a × Placed value b
unfolding Placed
Placed-operands place op a b p n =
    subst (λ o. PlacedBinary o (Placed truth a × Placed truth b) (Placed value a × Placed value b))
      n p

pub Placed-connective :
    (place : Place) (op op' : Text) (a b : Expression)
    → Placed place (binary_operation op a b)
    → lookup op andor ≡ some op'
    → Placed truth a × Placed truth b
unfolding Placed
Placed-connective place op op' a b p s =
    subst (λ o. PlacedBinary o (Placed truth a × Placed truth b) (Placed value a × Placed value b))
      s p

pub Placed-unary :
    (place : Place) (pos : Position) (op : Text) (a : Expression)
    → Placed place (unary_operation pos op a)
    → is op "not" ≡ false
    → Placed value a
unfolding Placed
Placed-unary place pos op a p n =
    subst (λ b. PlacedUnary b place (is_negation a) (Placed truth a) (Placed value a)) n p
