-- ===== src/Vm/Expressions/Laws.antt =====
-- pkg/vm/vm.go: the evaluation of an operation, from those of its operands.
use yodk.Common.{◌≡◌, ap, ap₂}
use yodk.Text.{Text}
use yodk.Ast.{Position, Expression, unary_operation, binary_operation}
use yodk.Vm.Decimals.{Decimals}
use yodk.Vm.Variable.{Variable}
use yodk.Vm.Operations.{run_unary_operation, run_binary_operation}
use yodk.Vm.State.{M, done, ◌>>=◌, lift}
use yodk.Vm.Expressions.{run_expr}

module _ {N : Type 0} (D : Decimals N) where
  -- the evaluation of an operation, from those of its operands
  abbrev pub unary_of : Text → M N (Variable N) → M N (Variable N)
  unary_of op m = m >>= λ arg. lift (run_unary_operation D arg op)

  abbrev pub binary_of : Text → M N (Variable N) → M N (Variable N) → M N (Variable N)
  binary_of op m₁ m₂ = m₁ >>= λ arg1. m₂ >>= λ arg2. lift (run_binary_operation D arg1 arg2 op)

  pub run_unary_cong :
      (p q : Position) (op : Text) (a b : Expression)
      → run_expr D a ≡ run_expr D b
      → run_expr D (unary_operation p op a) ≡ run_expr D (unary_operation q op b)
  unfolding run_expr
  run_unary_cong p q op a b h = ap (unary_of op) h

  pub run_binary_cong :
      (op : Text) (a₁ b₁ a₂ b₂ : Expression)
      → run_expr D a₁ ≡ run_expr D b₁
      → run_expr D a₂ ≡ run_expr D b₂
      → run_expr D (binary_operation op a₁ a₂) ≡ run_expr D (binary_operation op b₁ b₂)
  unfolding run_expr
  run_binary_cong op a₁ b₁ a₂ b₂ h k = ap₂ (binary_of op) h k

  -- operands that are known values
  pub run_unary_value :
      (p : Position) (op : Text) (e : Expression) (x : Variable N)
      → run_expr D e ≡ done x
      → run_expr D (unary_operation p op e) ≡ lift (run_unary_operation D x op)
  unfolding run_expr
  run_unary_value p op e x h = ap (unary_of op) h

  pub run_binary_value :
      (op : Text) (e₁ e₂ : Expression) (x₁ x₂ : Variable N)
      → run_expr D e₁ ≡ done x₁
      → run_expr D e₂ ≡ done x₂
      → run_expr D (binary_operation op e₁ e₂) ≡ lift (run_binary_operation D x₁ x₂ op)
  unfolding run_expr
  run_binary_value op e₁ e₂ x₁ x₂ h k = ap₂ (binary_of op) h k
