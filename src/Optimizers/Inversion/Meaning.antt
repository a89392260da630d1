-- ===== src/Optimizers/Inversion/Meaning.antt =====
-- pkg/optimizers/expression_inversion.go: the whole traversal, and what the VM computes.
use yodk.Common.{ℕ, zero, suc, ◌*◌, ◌≤◌, ◌≡◌, refl, sym, inl, inr, Bool-cases, Option-cases, arith}
use mathlib.Core.Path.{subst}
use yodk.Text.{Text, codes, is}
use yodk.Text.Laws.{eq_of_text_eq}
use yodk.Text.Map.{lookup}
use yodk.Ast.{Position, Expression, unary_operation, binary_operation}
use yodk.Ast.Visitor.{accepted, accept_child}
use yodk.Vm.Decimals.{Decimals, DecimalLaws}
use yodk.Vm.Variable.{Variable, number}
use yodk.Vm.Operations.{is_true}
use yodk.Vm.State.{Vm, done}
use yodk.Vm.Expressions.{run_expr}
use yodk.Optimizers.Static.{height}
use yodk.Optimizers.Inversion.{andor, negation, push_into, visit, optimize_expression}
use yodk.Optimizers.Inversion.Placed.{Place, value, truth, Placed}
use yodk.Optimizers.Inversion.Steps.{
  andor-IsConnective, Refines-of_value, Accepts, Accepts-of_value, Accepts-connective,
  Accepts-operator, Accepts-not, Accepts-unary, Accepts-pushed,
}
use yodk.Optimizers.Inversion.Placements.{
  Placed-below, Placed-operands, Placed-connective, Placed-unary,
}
use yodk.Optimizers.Inversion.Pushed.{Works, pushed}

module _ {N : Type 0} (D : Decimals N) (L : DecimalLaws D) where
  Works-binary :
      (fuel : ℕ)
      → Works D L fuel
      → (place : Place) (op : Text) (a b : Expression) → 2 * height a ≤ fuel
      → 2 * height b ≤ fuel
      → Placed place (binary_operation op a b)
      → Accepts D L place (suc fuel) (binary_operation op a b)
  Works-binary fuel works place op a b ha hb p = elim (Option-cases (lookup op andor)) [
    | inl n ↦
        let (pa, pb) = Placed-operands place op a b p n in
        Accepts-of_value D L place _ _
          (Accepts-operator D L fuel op a b (works value a ha pa) (works value b hb pb))
    | inr (op', s) ↦
        let (pa, pb) = Placed-connective place op op' a b p s in
        let (c, e, e') = andor-IsConnective op op' s in
        Accepts-of_value D L place _ _ (
          subst (λ o. Accepts D L value (suc fuel) (binary_operation o a b)) (sym e)
            (Accepts-connective D L fuel c a b (works truth a ha pa) (works truth b hb pb)))
  ]

  Works-not :
      (fuel : ℕ)
      → Works D L fuel
      → Works D L (suc fuel)
      → (place : Place) (pos : Position) (a : Expression) → 2 * height a ≤ fuel
      → Placed place (negation pos a)
      → Accepts D L place (suc (suc fuel)) (negation pos a)
  Works-not fuel works works' place pos a ha p = elim (Option-cases (push_into a)) [
    | inl n ↦ Accepts-of_value D L place _ _ (
        Accepts-not D L (suc fuel) pos a n
          (works' truth a (omega arith) (Placed-below place pos a p)))
    | inr (e, s) ↦
        let (r, k) = pushed D L fuel works works' place pos a e ha p s in
        Accepts-pushed D L (suc fuel) place pos a e s r k
  ]

  Works-unary :
      (fuel : ℕ)
      → Works D L fuel
      → Works D L (suc fuel)
      → (place : Place) (pos : Position) (op : Text) (a : Expression) → 2 * height a ≤ fuel
      → Placed place (unary_operation pos op a)
      → Accepts D L place (suc (suc fuel)) (unary_operation pos op a)
  Works-unary fuel works works' place pos op a ha p = elim (Bool-cases (is op "not")) [
    | inr n ↦ Accepts-of_value D L place _ _ (
        Accepts-unary D L (suc fuel) pos op a n
          (works' value a (omega arith) (Placed-unary place pos op a p n)))
    | inl n ↦
        let e : op ≡ codes "not" = eq_of_text_eq op (codes "not") n in
        subst (λ o. Accepts D L place (suc (suc fuel)) (unary_operation pos o a)) (sym e)
          (Works-not fuel works works' place pos a ha
            (subst (λ o. Placed place (unary_operation pos o a)) e p))
  ]

  height-pos : (e : Expression) → 1 ≤ height e
  unfolding height
  height-pos (unary_operation pos op a) = omega arith
  height-pos (binary_operation op a b) = omega arith
  height-pos _ = omega arith

  Works-all : (fuel : ℕ) → Works D L fuel
  unfolding height accept_child visit
  Works-all zero place e h p = absurd (omega (arith, height-pos e))
  Works-all (suc zero) place e h p = absurd (omega (arith, height-pos e))
  Works-all (suc (suc fuel)) place (unary_operation pos op a) h p =
      Works-unary fuel (Works-all fuel) (Works-all (suc fuel)) place pos op a (omega arith) p
  Works-all (suc (suc fuel)) place (binary_operation op a b) h p =
      Works-binary (suc fuel) (Works-all (suc fuel)) place op a b (omega arith) (omega arith) p
  Works-all (suc (suc fuel)) place e h p = (e, refl, Refines-of_value D L place e e (λ v v' x q. q))

  -- OptimizeExpression returns an expression. Where the double negations of `e` stand only for their
  -- truth, and `e` itself for its value, the result evaluates to the same value and the same state,
  -- from every state from which `e` evaluates to a value.
  pub optimize_expression-keeps_value :
      (e : Expression) (v v' : Vm N) (x : Variable N)
      → Placed value e
      → run_expr D e v ≡ done x v'
      → (e' : Expression) × (optimize_expression e ≡ accepted e' tt) × (run_expr D e' v ≡ done x v')
  unfolding optimize_expression
  optimize_expression-keeps_value e v v' x p q =
      let (e', a, r) = Works-all (2 * height e) value e (omega arith) p in (e', a, r v v' x q)

  -- OptimizeExpression returns an expression. Where `e` and its double negations stand only for their
  -- truth, as in the condition of an if, the result evaluates to a number that is zero exactly when
  -- that of `e` is, and to the same state, from every state from which `e` evaluates to a number.
  pub optimize_expression-keeps_truth :
      (e : Expression) (v v' : Vm N) (n : N)
      → Placed truth e
      → run_expr D e v ≡ done (number n) v'
      → (e' : Expression) × (n' : N) × (optimize_expression e ≡ accepted e' tt)
        × (run_expr D e' v ≡ done (number n') v')
        × (is_true D n' ≡ is_true D n)
  unfolding optimize_expression
  optimize_expression-keeps_truth e v v' n p q =
      let (e', a, r) = Works-all (2 * height e) truth e (omega arith) p in
      let (n', h, t) = r v v' n q in (e', n', a, h, t)
