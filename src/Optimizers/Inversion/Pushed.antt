-- ===== src/Optimizers/Inversion/Pushed.antt =====
-- pkg/optimizers/expression_inversion.go: pushDownNots, and what the VM computes.
use yodk.Common.{
  ℕ, suc, ◌*◌, ◌+◌, ◌≤◌, ◌≡◌, refl, ap, sym, ◌∙◌, not, some, inl, inr, Bool-cases, Option-cases,
  arith,
}
use mathlib.Core.Path.{subst}
use yodk.Text.{Text, codes, is, text_eq}
use yodk.Text.Laws.{eq_of_text_eq}
use yodk.Text.Map.{lookup}
use yodk.Ast.{Position, Expression, unary_operation, binary_operation}
use yodk.Ast.Positions.{start}
use yodk.Vm.Decimals.{Decimals, DecimalLaws}
use yodk.Vm.Operations.Logic.{connective_name, Inverts}
use yodk.Vm.Expressions.{run_expr}
use yodk.Optimizers.Static.{height}
use yodk.Optimizers.Inversion.{inversions, andor, negation, push_into}
use yodk.Optimizers.Inversion.Placed.{Place, value, truth, Placed}
use yodk.Optimizers.Inversion.Refine.{push-comparison, push-connective, push-not}
use yodk.Optimizers.Inversion.Steps.{
  IsConnective, andor-IsConnective, inversions-IsInversion, Refines, Refines-of_value, Accepts,
  Accepts-of_value, Accepts-connective, Accepts-operator,
}
use yodk.Optimizers.Inversion.Placements.{
  Placed-below, Placed-double, Placed-operands, Placed-connective,
}

module _ {N : Type 0} (D : Decimals N) (L : DecimalLaws D) where
  -- The traversal works on every expression that this fuel is enough for.
  abbrev pub Works : ℕ → Type 0
  Works fuel =
      (place : Place) (e : Expression)
      → 2 * height e ≤ fuel
      → Placed place e
      → Accepts D L place fuel e

  -- pushDownNots at a comparison
  pushed_comparison :
      (fuel : ℕ)
      → Works fuel
      → (place : Place) (pos : Position) (op op' : Text) (a b e : Expression)
      → e ≡ binary_operation op' a b
      → Inverts D op op'
      → 2 * height a + 2 ≤ fuel
      → 2 * height b + 2 ≤ fuel
      → Placed value a
      → Placed value b
      → Refines D L place (negation pos (binary_operation op a b)) e
        × Accepts D L place (suc fuel) e
  unfolding run_expr
  pushed_comparison fuel works place pos op op' a b e ee inverts ha hb pa pb =
      subst
        (λ x.
          Refines D L place (negation pos (binary_operation op a b)) x
          × Accepts D L place (suc fuel) x)
        (sym ee)
        (
          Refines-of_value D L place _ _
              (push-comparison D L op op' inverts (run_expr D a) (run_expr D b)),
          Accepts-of_value D L place _ _ (
              Accepts-operator D L fuel op' a b (works value a (omega arith) pa)
                (works value b (omega arith) pb)),
        )

  negated : (pos : Position) (a : Expression) → Placed truth a → Placed truth (negation pos a)
  unfolding Placed text_eq
  negated pos a p = p

  height-negation : (pos : Position) (a : Expression) → height (negation pos a) ≡ suc (height a)
  unfolding height
  height-negation pos a = refl

  -- pushDownNots at `and` and `or`
  pushed_connective :
      (fuel : ℕ)
      → Works fuel
      → (place : Place) (pos : Position) (op op' : Text) (a b e : Expression)
      → e ≡ binary_operation op' (negation (start a) a) (negation (start b) b)
      → IsConnective op op'
      → 2 * height a + 2 ≤ fuel
      → 2 * height b + 2 ≤ fuel
      → Placed truth a
      → Placed truth b
      → Refines D L place (negation pos (binary_operation op a b)) e
        × Accepts D L place (suc fuel) e
  unfolding run_expr
  pushed_connective fuel works place pos op op' a b e ee (c, ec, ec') ha hb pa pb =
      let a' = negation (start a) a in
      let b' = negation (start b) b in
      subst
        (λ x.
          Refines D L place (negation pos (binary_operation op a b)) x
          × Accepts D L place (suc fuel) x)
        (ap (λ o. binary_operation o a' b') (sym ec') ∙ sym ee)
        (
          subst
              (λ o.
                Refines D L place (negation pos (binary_operation o a b))
                  (binary_operation (connective_name (not c)) a' b'))
              (sym ec)
              (Refines-of_value D L place _ _
                (push-connective D L c (run_expr D a) (run_expr D b))),
          Accepts-of_value D L place _ _ (
              Accepts-connective D L fuel (not c) a' b'
                (works truth a' (omega (arith, height-negation (start a) a))
                  (negated (start a) a pa))
                (works truth b' (omega (arith, height-negation (start b) b))
                  (negated (start b) b pb))),
        )

  -- pushDownNots at a binary operation
  pushed_binary :
      (fuel : ℕ)
      → Works fuel
      → (place : Place) (pos : Position) (op : Text) (a b e : Expression) → 2 * height a + 2 ≤ fuel
      → 2 * height b + 2 ≤ fuel
      → Placed truth (binary_operation op a b)
      → push_into (binary_operation op a b) ≡ some e
      → Refines D L place (negation pos (binary_operation op a b)) e
        × Accepts D L place (suc fuel) e
  unfolding push_into
  pushed_binary fuel works place pos op a b e ha hb p h =
      elim (Option-cases (lookup op inversions)) [
        | inr (op', s) ↦
            let (inverts, other) = inversions-IsInversion D L op op' s in
            let (pa, pb) = Placed-operands truth op a b p other in
            pushed_comparison fuel works place pos op op' a b e (ground (arith, s)) inverts ha hb pa
              pb
        | inl n ↦ elim (Option-cases (lookup op andor)) [
          | inl m ↦ absurd (ground (arith, n, m))
          | inr (op', s) ↦
              let (pa, pb) = Placed-connective truth op op' a b p s in
              pushed_connective fuel works place pos op op' a b e (ground (arith, n, s))
                (andor-IsConnective op op' s) ha hb pa pb
        ]
      ]

  -- pushDownNots at a second `not`
  pushed_double :
      (fuel : ℕ)
      → Works (suc fuel)
      → (pos q : Position) (op : Text) (a e : Expression)
      → 2 * height (unary_operation q op a) ≤ fuel
      → Placed truth (unary_operation q op a)
      → push_into (unary_operation q op a) ≡ some e
      → Refines D L truth (negation pos (unary_operation q op a)) e × Accepts D L truth (suc fuel) e
  unfolding push_into height
  pushed_double fuel works' pos q op a e ha p h = elim (Bool-cases (is op "not")) [
    | inr n ↦ absurd (ground (arith, n))
    | inl n ↦
        let eo : op ≡ codes "not" = eq_of_text_eq op (codes "not") n in
        let pa = Placed-below truth q a (subst (λ o. Placed truth (unary_operation q o a)) eo p) in
        let r : Refines D L truth (negation pos (unary_operation q op a)) a =
          subst (λ o. Refines D L truth (negation pos (unary_operation q o a)) a) (sym eo)
            (unfold run_expr in push-not D L (run_expr D a)) in
        subst
          (λ x.
            Refines D L truth (negation pos (unary_operation q op a)) x
            × Accepts D L truth (suc fuel) x)
          (ground (arith, n)) (r, works' truth a (omega arith) pa)
  ]

  -- what pushDownNots puts in the place of a `not`
  pub pushed :
      (fuel : ℕ)
      → Works fuel
      → Works (suc fuel)
      → (place : Place) (pos : Position) (a e : Expression) → 2 * height a ≤ fuel
      → Placed place (negation pos a)
      → push_into a ≡ some e
      → Refines D L place (negation pos a) e × Accepts D L place (suc fuel) e
  unfolding push_into height
  pushed fuel works works' place pos (binary_operation op a b) e ha p h =
      pushed_binary fuel works place pos op a b e (omega arith) (omega arith)
        (Placed-below place pos (binary_operation op a b) p) h
  pushed fuel works works' value pos (unary_operation q op a) e ha p h =
      absurd (ground (arith, Placed-double pos q op a p))
  pushed fuel works works' truth pos (unary_operation q op a) e ha p h =
      pushed_double fuel works' pos q op a e ha (Placed-below truth pos _ p) h
  pushed fuel works works' place pos _ e ha p h = cc
