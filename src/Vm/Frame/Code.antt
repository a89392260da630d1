-- ===== src/Vm/Frame/Code.antt =====
-- Expressions, statements and lines leave the configuration of the VM alone.
use yodk.Common.{
  ◌≡◌, refl, ap, ◌∙◌, Bool, true, false, Option, none, some, inl, inr, Bool-cases, ℕ, if◌then◌else◌,
}
use yodk.Text.{Text, is}
use yodk.Ast.{
  Position, Dereference, Expression, string_constant, number_constant, dereference, unary_operation,
  binary_operation, Statement, Statements, ElseBlock, assignment, if_statement, goto_statement,
  deref_statement, nil, cons, no_else, else_block, Line,
}
use yodk.Ast.Positions.{statement_start}
use yodk.Text.Map.{Map}
use yodk.Vm.Decimals.{Decimals}
use yodk.Vm.Variable.{Variable, number, string}
use yodk.Vm.Operations.{abort_line}
use yodk.Vm.State.{Vm, M, Outcome, done, failed, killed, waiting, lift, line_done}
use yodk.Vm.Expressions.{run_expr, run_deref, literal_value, deref_operation, value_of}
use yodk.Vm.Control.{aquire_coordinator_permission}
use yodk.Vm.Statements.{
  run_assignment, assigned_expression, condition_holds, jump_to, enter_statement, run_stmt,
  run_block, run_else, run_line_of, run_under, run_statements, run_coordinated, run_line, end_line,
  report_done,
}
use yodk.Vm.Frame.{
  config, final, Keeps, bind-Keeps, lift-Keeps, config-emit, source_line_changed-Keeps,
  check_source_line_changed-Keeps, aquire-Keeps, config-set_variable,
}

module _ {N : Type 0} where
  config-coloumn : (c : ℕ) (v : Vm N) → config (record v { current_source_coloumn = c }) ≡ config v
  unfolding config
  config-coloumn c v = refl

  branch-Keeps :
      (b : Bool) (m m' : M N (Unit {0})) → Keeps m → Keeps m' → Keeps (if b then m else m')
  branch-Keeps true m m' h k = h
  branch-Keeps false m m' h k = k

  enter_statement-Keeps : (s : Statement) → Keeps {N = N} (enter_statement s)
  unfolding enter_statement
  enter_statement-Keeps s v =
      check_source_line_changed-Keeps s
        (record v { current_source_coloumn = Position.coloumn (statement_start s) })
      ∙ config-coloumn (Position.coloumn (statement_start s)) v

  end_line-final : (o : Outcome N (Unit {0})) → final (end_line o) ≡ final o
  end_line-final (done a v) = refl
  end_line-final (failed abort_line v) = refl
  end_line-final (failed _ v) = refl
  end_line-final (killed v) = refl
  end_line-final (waiting v) = refl

  report_done-config :
      (o : Outcome N (Unit {0})) → config (final (report_done o)) ≡ config (final o)
  report_done-config (done a v) = config-emit line_done v
  report_done-config (failed e v) = config-emit line_done v
  report_done-config (killed v) = config-emit line_done v
  report_done-config (waiting v) = refl

  config-empty_line :
      (n : ℕ) (v : Vm N)
      → config (record v { current_source_line = n; current_source_coloumn = 0 }) ≡ config v
  unfolding config
  config-empty_line n v = refl

module _ {N : Type 0} (D : Decimals N) where
  run_deref-Keeps : (d : Dereference) → Keeps (run_deref D d)
  unfolding run_deref
  run_deref-Keeps d v = elim (Bool-cases (is d.operator "")) [
    | inl e ↦ rw e
    | inr e ↦ rw e (
        bind-Keeps (lift (deref_operation D d.variable (value_of D d.variable v) d.operator)) _
          (lift-Keeps _) (λ new w. config-set_variable d.variable new w) v)
  ]

  -- Evaluating an expression changes at most variables.
  pub run_expr-Keeps : (e : Expression) → Keeps (run_expr D e)
  unfolding run_expr
  run_expr-Keeps (string_constant position value) v = refl
  run_expr-Keeps (number_constant position value) v =
      lift-Keeps (literal_value D value (D.from_string value)) v
  run_expr-Keeps (dereference d) v = run_deref-Keeps d v
  run_expr-Keeps (unary_operation position operator exp) v =
      bind-Keeps (run_expr D exp) _ (run_expr-Keeps exp) (λ arg. lift-Keeps _) v
  run_expr-Keeps (binary_operation operator exp1 exp2) v =
      bind-Keeps (run_expr D exp1) _ (run_expr-Keeps exp1)
        (λ arg1. bind-Keeps (run_expr D exp2) _ (run_expr-Keeps exp2) (λ arg2. lift-Keeps _)) v

  run_assignment-Keeps :
      (p : Position) (x op : Text) (e : Expression) → Keeps (run_assignment D p x op e)
  unfolding run_assignment
  run_assignment-Keeps p x op e =
      bind-Keeps (run_expr D (assigned_expression D p x op e)) _ (run_expr-Keeps _)
        (λ new v. config-set_variable x new v)

  jump_to-Keeps : (x : Variable N) → Keeps (jump_to D x)
  unfolding jump_to config
  jump_to-Keeps (number n) v = refl
  jump_to-Keeps (string s) v = refl

  mutual
    unfolding run_stmt

    run_stmt-Keeps : (s : Statement) → Keeps (run_stmt D s)
    run_stmt-Keeps (assignment p x op e) =
        bind-Keeps (enter_statement _) _ (enter_statement-Keeps _)
          (λ _. run_assignment-Keeps p x op e)
    run_stmt-Keeps (if_statement p c b e) =
        bind-Keeps (enter_statement _) _ (enter_statement-Keeps _) (λ _.
          bind-Keeps (run_expr D c) _ (run_expr-Keeps c) (λ x.
            bind-Keeps (lift (condition_holds D x)) _ (lift-Keeps _) (λ holds.
              branch-Keeps holds (run_block D b) (run_else D e) (run_block-Keeps b)
                (run_else-Keeps e))))
    run_stmt-Keeps (goto_statement p e) =
        bind-Keeps (enter_statement _) _ (enter_statement-Keeps _)
          (λ _. bind-Keeps (run_expr D e) _ (run_expr-Keeps e) jump_to-Keeps)
    run_stmt-Keeps (deref_statement d) =
        bind-Keeps (enter_statement _) _ (enter_statement-Keeps _)
          (λ _. bind-Keeps (run_deref D d) _ (run_deref-Keeps d) (λ x v. refl))

    run_block-Keeps : (b : Statements) → Keeps (run_block D b)
    run_block-Keeps nil = λ v. refl
    run_block-Keeps (cons s b) =
        bind-Keeps (run_stmt D s) _ (run_stmt-Keeps s) (λ _. run_block-Keeps b)

    run_else-Keeps : (e : ElseBlock) → Keeps (run_else D e)
    run_else-Keeps no_else = λ v. refl
    run_else-Keeps (else_block b) = run_block-Keeps b

  run_line_of-Keeps : (line : Line) (b : Statements) → Keeps (run_line_of D line b)
  unfolding run_line_of
  run_line_of-Keeps line nil v =
      source_line_changed-Keeps
        (record v { current_source_line = line.position.line; current_source_coloumn = 0 })
      ∙ config-empty_line line.position.line v
  run_line_of-Keeps line (cons s b) v =
      ap config (end_line-final (run_block D (cons s b) v)) ∙ run_block-Keeps (cons s b) v

  run_statements-Keeps : (line : Line) → Keeps (run_statements D line)
  unfolding run_statements
  run_statements-Keeps line = run_line_of-Keeps line line.statements

  run_coordinated-Keeps : (line : Line) → Keeps (run_coordinated D line)
  unfolding run_coordinated
  run_coordinated-Keeps line v =
      report_done-config (run_statements D line v) ∙ run_statements-Keeps line v

  run_under-Keeps : (c : Option (Map (Variable N))) (line : Line) → Keeps (run_under D c line)
  unfolding run_under
  run_under-Keeps none line = run_statements-Keeps line
  run_under-Keeps (some globals) line =
      bind-Keeps aquire_coordinator_permission _ aquire-Keeps (λ _. run_coordinated-Keeps line)

  -- Running a line leaves the program, the configuration and the counters alone, however it ends.
  pub run_line-Keeps : (line : Line) (v : Vm N) → config (final (run_line D line v)) ≡ config v
  unfolding run_line
  run_line-Keeps line v = run_under-Keeps v.coordinator line v
