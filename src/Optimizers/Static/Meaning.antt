-- ===== src/Optimizers/Static/Meaning.antt =====
-- pkg/optimizers/static_expressions.go: the traversal, and what the VM computes.
use yodk.Common.{
  ℕ, zero, suc, ◌≤◌, ◌≡◌, refl, sym, ◌∙◌, true, false, ◌&&◌, some, ◌⊎◌, inl, inr, arith, Bool-cases,
}
use yodk.Text.{Text}
use yodk.Ast.{
  Position, Expression, string_constant, number_constant, dereference, unary_operation,
  binary_operation,
}
use yodk.Ast.Positions.{start}
use yodk.Ast.Visitor.{post_visit, keep, replace_skip, accepted, accept_child}
use yodk.Vm.Decimals.{Decimals, DecimalLaws}
use yodk.Vm.Variable.{Variable, number, string}
use yodk.Vm.Operations.{
  Result, ok, err, run_unary_operation, run_binary_operation, unary_returns, binary_returns,
}
use yodk.Vm.State.{Vm, done, lift}
use yodk.Vm.Expressions.{run_expr}
use yodk.Vm.Expressions.Laws.{run_unary_cong, run_binary_cong, run_unary_value, run_binary_value}
use yodk.Optimizers.Static.{
  is_constant, const_to_var, var_to_const, folded_result, optimize_expression_non_recursive, visit,
  height, optimize_expression,
}

module _ {N : Type 0} (D : Decimals N) where
  -- Every number literal of the expression is one that NewFromString reads.
  abbrev pub LiteralsParse : Expression → Type 0
  LiteralsParse (string_constant position value) = Unit
  LiteralsParse (number_constant position value) = (n : N) × (D.from_string value ≡ some n)
  LiteralsParse (dereference d) = Unit
  LiteralsParse (unary_operation position operator exp) = LiteralsParse exp
  LiteralsParse (binary_operation operator exp1 exp2) = LiteralsParse exp1 × LiteralsParse exp2

  -- Each operation whose operands have one value, the same in every state of the VM, as constants have,
  -- returns at these values: no function of decimal panics.
  abbrev pub Returns : Expression → Type 0
  Returns (unary_operation position operator exp) =
      Returns exp × ((x : Variable N) → run_expr D exp ≡ done x → unary_returns D x operator ≡ true)
  Returns (binary_operation operator exp1 exp2) =
      Returns exp1
      × Returns exp2
      × ((x y : Variable N)
          → run_expr D exp1 ≡ done x
          → run_expr D exp2 ≡ done y
          → binary_returns D x y operator ≡ true)
  Returns _ = Unit

  -- A constant has a value, which the VM computes without a change of state.
  constant_value :
      (e : Expression)
      → is_constant e ≡ true
      → LiteralsParse e
      → (x : Variable N) × (const_to_var D e ≡ some x) × (run_expr D e ≡ done x)
  unfolding is_constant const_to_var run_expr
  constant_value (string_constant position value) c p = (string value, refl, refl)
  constant_value (number_constant position value) c (n, e) =
      (number n, rw (e, const_to_var), rw (e, run_expr))
  constant_value (dereference d) c p = cc
  constant_value (unary_operation position operator exp) c p = cc
  constant_value (binary_operation operator exp1 exp2) c p = cc

  -- `to` may stand in the place of `from`.
  record Same (from to : Expression) : Type 0 where
    runs : run_expr D to ≡ run_expr D from
    starts : start to ≡ start from
    parses : LiteralsParse to

  Same-trans : {a b c : Expression} → Same a b → Same b c → Same a c
  Same-trans p q = record {
    runs = q.runs ∙ p.runs;
    starts = q.starts ∙ p.starts;
    parses = q.parses;
  }

  -- What the PostVisit of a node decides, and why it is right.
  record PostStep (node : Expression) : Type 0 where
    result : Expression
    settled :
        (visit D post_visit node tt ≡ (keep result, tt))
        ⊎ (visit D post_visit node tt ≡ (replace_skip result, tt))
    same : Same node result

  module _ (L : DecimalLaws D) where
    run_expr-var_to_const :
        (x : Variable N) (pos : Position) → run_expr D (var_to_const D x pos) ≡ done x
    unfolding run_expr var_to_const
    run_expr-var_to_const (number n) pos = rw (L.from_string-to_string n)
    run_expr-var_to_const (string s) pos = refl

    var_to_const-LiteralsParse :
        (x : Variable N) (pos : Position) → LiteralsParse (var_to_const D x pos)
    unfolding var_to_const
    var_to_const-LiteralsParse (number n) pos = (n, L.from_string-to_string n)
    var_to_const-LiteralsParse (string s) pos = tt

    start-var_to_const : (x : Variable N) (pos : Position) → start (var_to_const D x pos) ≡ pos
    unfolding var_to_const start
    start-var_to_const (number n) pos = refl
    start-var_to_const (string s) pos = refl

    -- a constant that stands for a node with a known result
    Same-folded :
        (node : Expression) (pos : Position) (res : Variable N)
        → run_expr D node ≡ lift (ok res)
        → start node ≡ pos
        → Same node (var_to_const D res pos)
    Same-folded node pos res r s = record {
      runs = run_expr-var_to_const res pos ∙ sym r;
      starts = start-var_to_const res pos ∙ sym s;
      parses = var_to_const-LiteralsParse res pos;
    }

    -- the two cases of a folded operation, by the result of the operator
    folded_step :
        (node : Expression) (pos : Position) (r : Result (Variable N))
        → LiteralsParse node
        → optimize_expression_non_recursive D node ≡ folded_result D pos r
        → run_expr D node ≡ lift r
        → start node ≡ pos
        → PostStep node
    unfolding visit folded_result
    folded_step node pos (ok res) p o r s = record {
      result = var_to_const D res pos;
      settled = inr (rw o);
      same = Same-folded node pos res r s;
    }
    folded_step node pos (err e) p o r s = record {
      result = node;
      settled = inl (rw o);
      same = record { runs = refl; starts = refl; parses = p };
    }

    unary_step :
        (pos : Position) (op : Text) (e : Expression)
        → LiteralsParse e
        → ((x : Variable N) → run_expr D e ≡ done x → unary_returns D x op ≡ true)
        → PostStep (unary_operation pos op e)
    unfolding optimize_expression_non_recursive visit start
    unary_step pos op e p g = elim (Bool-cases (is_constant e)) [
      | inl c ↦
          let (x, cv, r) = constant_value e c p in
          folded_step (unary_operation pos op e) pos (run_unary_operation D x op) p
            (ground (arith, c, cv, g x r)) (run_unary_value D pos op e x r) refl
      | inr c ↦ record {
        result = unary_operation pos op e;
        settled = inl (ground (arith, c));
        same = record { runs = refl; starts = refl; parses = p };
      }
    ]

    unfolded_binary :
        (op : Text) (e₁ e₂ : Expression)
        → LiteralsParse e₁ × LiteralsParse e₂
        → is_constant e₁ && is_constant e₂ ≡ false
        → PostStep (binary_operation op e₁ e₂)
    unfolding optimize_expression_non_recursive visit
    unfolded_binary op e₁ e₂ p c = record {
      result = binary_operation op e₁ e₂;
      settled = inl (ground (arith, c));
      same = record { runs = refl; starts = refl; parses = p };
    }

    binary_step :
        (op : Text) (e₁ e₂ : Expression)
        → LiteralsParse e₁ × LiteralsParse e₂
        → ((x y : Variable N)
            → run_expr D e₁ ≡ done x
            → run_expr D e₂ ≡ done y
            → binary_returns D x y op ≡ true)
        → PostStep (binary_operation op e₁ e₂)
    unfolding optimize_expression_non_recursive start
    binary_step op e₁ e₂ p g = elim (Bool-cases (is_constant e₁)) [
      | inr c₁ ↦ unfolded_binary op e₁ e₂ p (ground (arith, c₁))
      | inl c₁ ↦ elim (Bool-cases (is_constant e₂)) [
        | inr c₂ ↦ unfolded_binary op e₁ e₂ p (ground (arith, c₁, c₂))
        | inl c₂ ↦
            let (x₁, cv₁, r₁) = constant_value e₁ c₁ p.0 in
            let (x₂, cv₂, r₂) = constant_value e₂ c₂ p.1 in
            folded_step (binary_operation op e₁ e₂) (start e₁) (run_binary_operation D x₁ x₂ op) p
              (ground (arith, c₁, c₂, cv₁, cv₂, g x₁ x₂ r₁ r₂))
              (run_binary_value D op e₁ e₂ x₁ x₂ r₁ r₂) refl
      ]
    ]

    -- AcceptChild with enough fuel returns an expression that may stand in the place of its input.
    abbrev Accepts : ℕ → Expression → Type 0
    Accepts fuel e =
        (e' : Expression) × (accept_child (visit D) fuel e tt ≡ accepted e' tt) × Same e e'

    Accepts-unary :
        (fuel : ℕ) (pos : Position) (op : Text) (e : Expression)
        → Accepts fuel e
        → ((x : Variable N) → run_expr D e ≡ done x → unary_returns D x op ≡ true)
        → Accepts (suc fuel) (unary_operation pos op e)
    unfolding accept_child visit start
    Accepts-unary fuel pos op e (e', a, q) g =
        let step = unary_step pos op e' q.parses (λ x r. g x (sym q.runs ∙ r)) in
        let within : Same (unary_operation pos op e) (unary_operation pos op e') = record {
          runs = run_unary_cong D pos pos op e' e q.runs;
          starts = refl;
          parses = q.parses;
        } in
        (step.result, ground (arith, a, step.settled), Same-trans within step.same)

    Accepts-binary :
        (fuel : ℕ) (op : Text) (e₁ e₂ : Expression)
        → Accepts fuel e₁
        → Accepts fuel e₂
        → ((x y : Variable N)
            → run_expr D e₁ ≡ done x
            → run_expr D e₂ ≡ done y
            → binary_returns D x y op ≡ true)
        → Accepts (suc fuel) (binary_operation op e₁ e₂)
    unfolding accept_child visit start
    Accepts-binary fuel op e₁ e₂ (f₁, a₁, q₁) (f₂, a₂, q₂) g =
        let step =
          binary_step op f₁ f₂ (q₁.parses, q₂.parses)
            (λ x y r s. g x y (sym q₁.runs ∙ r) (sym q₂.runs ∙ s)) in
        let within : Same (binary_operation op e₁ e₂) (binary_operation op f₁ f₂) = record {
          runs = run_binary_cong D op f₁ e₁ f₂ e₂ q₁.runs q₂.runs;
          starts = q₁.starts;
          parses = (q₁.parses, q₂.parses);
        } in
        (step.result, ground (arith, a₁, a₂, step.settled), Same-trans within step.same)

    Accepts-all :
        (fuel : ℕ) (e : Expression) → height e ≤ fuel → LiteralsParse e → Returns e → Accepts fuel e
    unfolding height accept_child visit
    Accepts-all zero (unary_operation position operator exp) h p g = absurd (omega arith)
    Accepts-all zero (binary_operation operator exp1 exp2) h p g = absurd (omega arith)
    Accepts-all zero _ h p g = absurd (omega arith)
    Accepts-all (suc fuel) (unary_operation position operator exp) h p g =
        Accepts-unary fuel position operator exp (Accepts-all fuel exp (omega arith) p g.0) g.1
    Accepts-all (suc fuel) (binary_operation operator exp1 exp2) h p g =
        Accepts-binary fuel operator exp1 exp2 (Accepts-all fuel exp1 (omega arith) p.0 g.0)
          (Accepts-all fuel exp2 (omega arith) p.1 g.1) g.2
    Accepts-all (suc fuel) e h p g = (e, refl, record { runs = refl; starts = refl; parses = p })

    -- When every operation on operands of a constant value returns, that is, no function of decimal
    -- panics there, and the number literals are those that NewFromString reads, OptimizeExpression
    -- returns an expression; from every state of the VM that evaluates as the original does, to the
    -- same value or error and the same state, and it starts at the same position in the source.
    pub optimize_expression-keeps_meaning :
        (e : Expression)
        → LiteralsParse e
        → Returns e
        → (e' : Expression) × (optimize_expression D e ≡ accepted e' tt)
          × ((v : Vm N) → run_expr D e' v ≡ run_expr D e v)
          × (start e' ≡ start e)
    unfolding optimize_expression
    optimize_expression-keeps_meaning e p g =
        let (e', a, q) = Accepts-all (height e) e (omega arith) p g in
        (e', a, (λ v i. q.runs i v), q.starts)
