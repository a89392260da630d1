-- ===== src/Optimizers/Inversion.antt =====
-- pkg/optimizers/expression_inversion.go: negations are pushed down and bubbled up.
pub mod Meaning
pub mod Placements
pub mod Pushed
pub mod Doubled
pub mod Placed
pub mod Steps
pub mod Refine
use yodk.Common.{ℕ, ◌*◌, ◌&&◌, Bool, true, false, Option, none, some, if◌then◌else◌, [], ◌∷◌}
use yodk.Text.{Text, codes, is}
use yodk.Text.Map.{Map, lookup}
use yodk.Ast.{
  Position, Expression, string_constant, number_constant, dereference, unary_operation,
  binary_operation,
}
use yodk.Ast.Positions.{start}
use yodk.Ast.Visitor.{
  Visit, pre_visit, post_visit, single_visit, inter_visit1, Verdict, keep, replace, replace_skip,
  Visitor, Accepted, accept_child,
}
use yodk.Optimizers.Static.{height}

-- inversions
abbrev pub inversions : Map Text
inversions =
    (codes ">=", codes "<")
    ∷ (codes "<=", codes ">")
    ∷ (codes "<", codes ">=")
    ∷ (codes ">", codes "<=")
    ∷ (codes "==", codes "!=")
    ∷ (codes "!=", codes "==")
    ∷ []

-- andor
abbrev pub andor : Map Text
andor = (codes "and", codes "or") ∷ (codes "or", codes "and") ∷ []

abbrev pub negation : Position → Expression → Expression
negation position e = unary_operation position (codes "not") e

-- the cases of pushDownNots for the operand of a `not`
unfoldable pub push_into : Expression → Option Expression
unfolding start lookup
push_into (binary_operation operator exp1 exp2) = elim (lookup operator inversions) [
  | some opposite ↦ some (binary_operation opposite exp1 exp2)
  | none ↦ elim (lookup operator andor) [
    | some opposite ↦
        some (binary_operation opposite (negation (start exp1) exp1) (negation (start exp2) exp2))
    | none ↦ none
  ]
]
push_into (unary_operation position operator exp) = if is operator "not" then some exp else none
push_into _ = none

-- pushDownNots
unfoldable pub push_down_nots : Expression → Option Expression
unfolding push_into
push_down_nots (unary_operation position operator exp) =
    if is operator "not" then push_into exp else none
push_down_nots _ = none

-- the operands of bubbleUpNots
unfoldable pub bubble_up : Text → Expression → Expression → Option Expression
unfolding start lookup
bubble_up operator (unary_operation position₁ op₁ l) (unary_operation position₂ op₂ r) =
    if is op₁ "not" && is op₂ "not"
    then elim (lookup operator andor) [
      | some opposite ↦ some (negation (start l) (binary_operation opposite l r))
      | none ↦ none
    ]
    else none
bubble_up operator _ _ = none

-- bubbleUpNots
unfoldable pub bubble_up_nots : Expression → Option Expression
unfolding bubble_up
bubble_up_nots (binary_operation operator exp1 exp2) = bubble_up operator exp1 exp2
bubble_up_nots _ = none

abbrev pub replaced_by : Expression → Option Expression → Verdict
replaced_by node none = keep node
replaced_by node (some e) = replace e

abbrev pub replaced_skip_by : Expression → Option Expression → Verdict
replaced_skip_by node none = keep node
replaced_skip_by node (some e) = replace_skip e

-- Visit
unfoldable pub visit : Visitor (Unit {0})
unfolding push_down_nots bubble_up_nots
visit pre_visit node s = (replaced_by node (push_down_nots node), s)
visit post_visit node s = (replaced_skip_by node (bubble_up_nots node), s)
visit single_visit node s = (keep node, s)
visit inter_visit1 node s = (keep node, s)

-- OptimizeExpression: a pushed negation is visited twice
unfoldable pub optimize_expression : Expression → Accepted (Unit {0}) Expression
unfolding visit accept_child height
optimize_expression e = accept_child visit (2 * height e) e tt
