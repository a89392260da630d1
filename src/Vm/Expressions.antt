-- ===== src/Vm/Expressions.antt =====
-- pkg/vm/vm.go: evaluation of expressions (runExpr, runDeref, runBinOp, runUnaryOp).
pub mod Laws
use yodk.Common.{
  Bool, true, false, Option, none, some, if◌then◌else◌, ◌==◌, length, take, ◌-◌, ◌++◌,
}
use yodk.Text.{Text, codes, is, slice_to}
use yodk.Ast.{
  Position, PrePost, absent, pre, post, Dereference, Expression, string_constant, number_constant,
  dereference, unary_operation, binary_operation,
}
use yodk.Vm.Decimals.{Decimals}
use yodk.Vm.Variable.{Variable, number, string}
use yodk.Vm.Operations.{
  Result, ok, err, already_empty, unknown_deref_operator, not_a_number, run_unary_operation,
  run_binary_operation,
}
use yodk.Vm.State.{Vm, M, done, and_then, ◌>>=◌, ◌>>◌, lift, return, get_variable, set_variable}

module _ {N : Type 0} (D : Decimals N) where
  -- the value of a variable; one that does not exist is 0
  unfoldable pub value_of : Text → Vm N → Variable N
  value_of name v = elim (get_variable name v) [ some value ↦ value | none ↦ number D.zero_decimal ]

  -- the value that an operator on a variable stores: the two switches of runDeref
  unfoldable pub deref_operation : Text → Variable N → Text → Result (Variable N)
  deref_operation name (number n) operator =
      if is operator "++"
      then ok (number (D.plus n D.one))
      else if is operator "--"
      then ok (number (D.minus n D.one))
      else err (unknown_deref_operator operator)
  deref_operation name (string s) operator =
      if is operator "++"
      then ok (string (s ++ codes " "))
      else if is operator "--"
      then (if length s == 0
          then err (already_empty name)
          else ok (string (slice_to s (length s - 1))))
      else err (unknown_deref_operator operator)

  abbrev deref_result : PrePost → Variable N → Variable N → Variable N
  deref_result pre old new = new
  deref_result _ old new = old

  -- runDeref
  unfoldable pub run_deref : Dereference → M N (Variable N)
  run_deref d v =
      let old : Variable N = value_of d.variable v in
      if is d.operator ""
      then done old v
      else and_then (lift (deref_operation d.variable old d.operator) v)
          (λ new v. done (deref_result d.pre_post old new) (set_variable d.variable new v))

  -- the value of a number literal, by what NewFromString makes of it
  unfoldable pub literal_value : Text → Option N → Result (Variable N)
  literal_value value (some num) = ok (number num)
  literal_value value none = err (not_a_number value)

  -- runExpr, with runBinOp and runUnaryOp
  unfoldable pub run_expr : Expression → M N (Variable N)
  unfolding literal_value
  run_expr (string_constant position value) = return (string value)
  run_expr (number_constant position value) = lift (literal_value value (D.from_string value))
  run_expr (dereference d) = run_deref d
  run_expr (unary_operation position operator exp) = do
    arg ← run_expr exp
    lift (run_unary_operation D arg operator)
  run_expr (binary_operation operator exp1 exp2) = do
    arg1 ← run_expr exp1
    arg2 ← run_expr exp2
    lift (run_binary_operation D arg1 arg2 operator)
