-- ===== src/Optimizers/Static.antt =====
-- pkg/optimizers/static_expressions.go: constant expressions are evaluated at compile time.
pub mod Meaning
use yodk.Common.{ℕ, suc, ◌+◌, Bool, true, false, ◌&&◌, Option, none, some, if◌then◌else◌}
use Prim.Native.Nat.{max}
use yodk.Text.{Text, codes}
use yodk.Ast.{
  Position, Expression, string_constant, number_constant, dereference, unary_operation,
  binary_operation,
}
use yodk.Ast.Positions.{start}
use yodk.Ast.Visitor.{
  Visit, pre_visit, post_visit, single_visit, inter_visit1, Verdict, keep, replace_skip, refuse,
  Visitor, Accepted, accept_child,
}
use yodk.Vm.Decimals.{Decimals}
use yodk.Vm.Variable.{Variable, number, string, itoa, is_number, to_text}
use yodk.Vm.Operations.{
  Result, ok, err, run_unary_operation, run_binary_operation, unary_returns, binary_returns,
}

-- isConstant
unfoldable pub is_constant : Expression → Bool
is_constant (string_constant position value) = true
is_constant (number_constant position value) = true
is_constant _ = false

-- What OptimizeExpressionNonRecursive returns: nil, an expression, or a panic.
pub data Folded : Type 0 where
  unchanged panics : Folded
  folded : Expression → Folded

module _ {N : Type 0} (D : Decimals N) where
  -- constToVar; `none` is the panic "This should never happen"
  unfoldable pub const_to_var : Expression → Option (Variable N)
  const_to_var (string_constant position value) = some (string value)
  const_to_var (number_constant position value) = elim (D.from_string value) [
    | some num ↦ some (number num)
    | none ↦ none
  ]
  const_to_var _ = none

  -- varToConst
  unfoldable pub var_to_const : Variable N → Position → Expression
  unfolding is_number itoa to_text
  var_to_const v pos =
      if is_number v then number_constant pos (itoa D v) else string_constant pos (to_text v)

  -- the result of an operator as a constant; an error leaves the expression alone
  unfoldable pub folded_result : Position → Result (Variable N) → Folded
  unfolding var_to_const
  folded_result position (ok res) = folded (var_to_const res position)
  folded_result position (err e) = unchanged

  -- the two cases of OptimizeExpressionNonRecursive, at the values of the constants; a panic of the
  -- operator is not recovered
  unfoldable pub fold_unary : Position → Text → Option (Variable N) → Folded
  unfolding folded_result unary_returns
  fold_unary position operator (some arg) =
      if unary_returns D arg operator
      then folded_result position (run_unary_operation D arg operator)
      else panics
  fold_unary position operator none = panics

  unfoldable pub fold_binary : Position → Text → Option (Variable N) → Option (Variable N) → Folded
  unfolding folded_result binary_returns
  fold_binary position operator (some arg1) (some arg2) =
      if binary_returns D arg1 arg2 operator
      then folded_result position (run_binary_operation D arg1 arg2 operator)
      else panics
  fold_binary position operator _ _ = panics

  -- OptimizeExpressionNonRecursive
  unfoldable pub optimize_expression_non_recursive : Expression → Folded
  unfolding fold_unary fold_binary const_to_var is_constant
  optimize_expression_non_recursive (unary_operation position operator exp) =
      if is_constant exp then fold_unary position operator (const_to_var exp) else unchanged
  optimize_expression_non_recursive (binary_operation operator exp1 exp2) =
      if is_constant exp1 && is_constant exp2
      then fold_binary (start exp1) operator (const_to_var exp1) (const_to_var exp2)
      else unchanged
  optimize_expression_non_recursive _ = unchanged

  -- a panic ends the traversal
  abbrev pub folded_verdict : Expression → Folded → Verdict
  folded_verdict node unchanged = keep node
  folded_verdict node panics = refuse (codes "panic")
  folded_verdict node (folded optimized) = replace_skip optimized

  -- Visit
  unfoldable pub visit : Visitor (Unit {0})
  unfolding optimize_expression_non_recursive
  visit post_visit node s = (folded_verdict node (optimize_expression_non_recursive node), s)
  visit pre_visit node s = (keep node, s)
  visit single_visit node s = (keep node, s)
  visit inter_visit1 node s = (keep node, s)

-- The height of an expression: how deep AcceptChild goes down.
unfoldable pub height : Expression → ℕ
height (unary_operation position operator exp) = suc (height exp)
height (binary_operation operator exp1 exp2) = suc (max (height exp1) (height exp2))
height _ = 1

module _ {N : Type 0} (D : Decimals N) where
  -- OptimizeExpression
  unfoldable pub optimize_expression : Expression → Accepted (Unit {0}) Expression
  unfolding visit accept_child height
  optimize_expression e = accept_child (visit D) (height e) e tt
