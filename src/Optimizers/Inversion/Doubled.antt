-- ===== src/Optimizers/Inversion/Doubled.antt =====
-- What the optimizer does to a double negation whose value counts.
use yodk.Common.{◌≡◌, refl, some, arith, [], inl, inr, Bool-cases}
use yodk.Text.{codes, text_eq, to_lower}
use yodk.Ast.{Position, Dereference, unary_operation, dereference}
use yodk.Ast.Visitor.{accepted}
use yodk.Vm.Decimals.{Decimals, DecimalLaws}
use yodk.Vm.Variable.{number}
use yodk.Vm.Operations.{truth, is_true, run_unary_operation}
use yodk.Vm.State.{Vm, done, get_variable}
use yodk.Vm.Expressions.{run_expr, run_deref, value_of}
use yodk.Optimizers.Inversion.{optimize_expression}

replaced_lem :
    (p q : Position) (d : Dereference)
    → optimize_expression
        (unary_operation p (codes "not") (unary_operation q (codes "not") (dereference d)))
      ≡ accepted (dereference d) tt
unfolding optimize_expression text_eq
replaced_lem p q d = refl

module _ {N : Type 0} (D : Decimals N) where
  reads :
      (d : Dereference) (v : Vm N) (n : N)
      → d.operator ≡ []
      → get_variable d.variable v ≡ some (number n)
      → run_deref D d v ≡ done (number n) v
  unfolding run_deref value_of text_eq
  reads d v n h g = ground (arith, h, g)

  doubled :
      (n : N)
      → DecimalLaws D
      → D.equal (truth D (D.equal n D.zero_decimal)) D.zero_decimal ≡ is_true D n
  unfolding truth is_true
  doubled n L = elim (Bool-cases (D.equal n D.zero_decimal)) [
    | inl e ↦ rw e L.equal-one_zero
    | inr e ↦ rw e L.equal-zero_zero
  ]

  -- `not not d` is rewritten to `d`. Where `d` reads a variable that holds a number, the expression
  -- has the value 1 or 0, as the number is not zero or zero, and what it is rewritten to has the
  -- number itself as its value.
  pub optimize_expression-not-not :
      (p q : Position) (d : Dereference) (v : Vm N) (n : N)
      → DecimalLaws D
      → d.operator ≡ []
      → get_variable d.variable v ≡ some (number n)
      → (optimize_expression
            (unary_operation p (codes "not") (unary_operation q (codes "not") (dereference d)))
          ≡ accepted (dereference d) tt)
        × (run_expr D
              (unary_operation p (codes "not") (unary_operation q (codes "not") (dereference d)))
              v
            ≡ done (number (truth D (is_true D n))) v)
        × (run_expr D (dereference d) v ≡ done (number n) v)
  unfolding run_expr run_unary_operation text_eq to_lower is_true
  optimize_expression-not-not p q d v n L h g =
      let r = reads d v n h g in (replaced_lem p q d, rw r (rw (doubled n L) refl), r)
