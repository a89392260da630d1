-- ===== src/Vm/Frame/Lines.antt =====
-- pkg/vm/vm.go: while a line is run, currentAstLine does not become negative, whatever a goto asks for.
use yodk.Common.{
  List, [], ◌∷◌, Bool, true, false, Option, none, some, ℕ, if◌then◌else◌, ◌≡◌, refl, ap, zero, suc,
  inl, inr, Bool-cases, not, ◌&&◌, ◌||◌, ◌==◌, arith,
}
use yodk.Common.Int.{ℤ, pos, negsuc, Above, suc_ℤ, pred_ℤ, pos_part, ltb_ℤ}
use Prim.Native.Nat.{max, min}
use yodk.Text.{Text, is}
use yodk.Text.Map.{Map}
use yodk.Ast.{
  Position, Dereference, Expression, string_constant, number_constant, dereference, unary_operation,
  binary_operation, Statement, Statements, ElseBlock, assignment, if_statement, goto_statement,
  deref_statement, nil, cons, no_else, else_block, Line,
}
use yodk.Ast.Positions.{statement_start}
use yodk.Vm.Decimals.{Decimals}
use yodk.Vm.Variable.{Variable, number, string}
use yodk.Vm.Operations.{Result, ok, err, abort_line}
use yodk.Vm.State.{
  Vm, VmState, paused, running, stepping, terminated, M, Outcome, done, failed, killed, waiting,
  and_then, ◌>>=◌, lift, emit, stepped, breakpoint_hit, set_variable, has_line,
}
use yodk.Vm.Expressions.{run_expr, run_deref, literal_value, deref_operation, value_of}
use yodk.Vm.Control.{
  await_request, pause, change_state, receive_state, end_step, check_breakpoint,
  source_line_changed, check_source_line_changed, receive_from, ask_breakpoint, is_stepping,
  await_permission, aquire_coordinator_permission,
}
use yodk.Vm.Statements.{
  goto_index, run_assignment, assigned_expression, condition_holds, jump_to, enter_statement,
  run_stmt, run_block, run_else, run_line_of, run_under, run_statements, run_coordinated, run_line,
  end_line, report_done,
}
use yodk.Vm.Frame.{final}

goto_within :
    (n : ℕ)
    → suc_ℤ (pred_ℤ (if ltb_ℤ (pos 20) (pos (suc n)) then pos 20 else pos (suc n)))
      ≡ pos (max 1 (min (suc n) 20))
goto_within n = elim (Bool-cases (ltb_ℤ (pos 20) (pos (suc n)))) [
  | inl e ↦ rw e (ap pos (ground (arith, e)))
  | inr e ↦ rw e (ap pos (ground (arith, e)))
]

-- A goto to the number `i` goes to the line with that number, or to line 1 for a number below 1, or to
-- line 20 for one above 20.
pub goto_line : (i : ℤ) → suc_ℤ (goto_index i) ≡ pos (max 1 (min (pos_part i) 20))
unfolding goto_index
goto_line (pos zero) = refl
goto_line (pos (suc n)) =
    let from_one : ltb_ℤ (pos (suc n)) (pos 1) ≡ false = ground arith in rw from_one (goto_within n)
goto_line (negsuc n) =
    let from_one : ltb_ℤ (negsuc n) (pos 1) ≡ true = ground arith in rw from_one refl

not_negative : (i : ℤ) (n : ℕ) → suc_ℤ i ≡ pos (max 1 n) → Above 0 i
not_negative (pos k) n e = omega arith
not_negative (negsuc zero) n e = absurd (ground (arith, ap pos_part e))
not_negative (negsuc (suc k)) n e = cc

pub goto_index-Above : (i : ℤ) → Above 0 (goto_index i)
goto_index-Above i = not_negative (goto_index i) (min (pos_part i) 20) (goto_line i)

module _ {N : Type 0} where
  -- The VM stands at a line from 0.
  abbrev pub Stands : Vm N → Type 0
  Stands v = Above 0 v.current_ast_line

  -- A computation that begins there ends there, however it ends.
  abbrev pub KeepsLine : {A : Type 0} → M N A → Type 0
  KeepsLine m = (v : Vm N) → Stands v → Stands (final (m v))

  and_then-KeepsLine :
      {A B : Type 0} (o : Outcome N A) (f : A → M N B)
      → ((a : A) → KeepsLine (f a))
      → Stands (final o)
      → Stands (final (and_then o f))
  and_then-KeepsLine (done a v) f h s = h a v s
  and_then-KeepsLine (failed e v) f h s = s
  and_then-KeepsLine (killed v) f h s = s
  and_then-KeepsLine (waiting v) f h s = s

  bind-KeepsLine :
      {A B : Type 0} (m : M N A) (f : A → M N B)
      → KeepsLine m
      → ((a : A) → KeepsLine (f a))
      → KeepsLine (m >>= f)
  bind-KeepsLine m f h k v s = and_then-KeepsLine (m v) f k (h v s)

  lift-KeepsLine : {A : Type 0} (r : Result A) → KeepsLine {A = A} (lift r)
  lift-KeepsLine (ok a) v s = s
  lift-KeepsLine (err e) v s = s

  pub if-Stands :
      {A : Type 0} (b : Bool) (o o' : Outcome N A)
      → Stands (final o)
      → Stands (final o')
      → Stands (final (if b then o else o'))
  if-Stands true o o' h k = h
  if-Stands false o o' h k = k

  branch-KeepsLine :
      (b : Bool) (m m' : M N (Unit {0}))
      → KeepsLine m
      → KeepsLine m'
      → KeepsLine (if b then m else m')
  branch-KeepsLine true m m' h k = h
  branch-KeepsLine false m m' h k = k

  await_request-KeepsLine : (rs : List (Option VmState)) → KeepsLine (await_request rs)
  unfolding await_request
  await_request-KeepsLine [] v s = s
  await_request-KeepsLine (none ∷ rs) v s = await_request-KeepsLine rs v s
  await_request-KeepsLine (some paused ∷ rs) v s = await_request-KeepsLine rs v s
  await_request-KeepsLine (some terminated ∷ rs) v s = s
  await_request-KeepsLine (some running ∷ rs) v s = s
  await_request-KeepsLine (some stepping ∷ rs) v s = s

  pub pause-KeepsLine : KeepsLine pause
  unfolding pause
  pause-KeepsLine v s = await_request-KeepsLine v.requests (record v { state = paused }) s

  change_state-KeepsLine : (state : VmState) → KeepsLine (change_state state)
  unfolding change_state
  change_state-KeepsLine terminated v s = s
  change_state-KeepsLine paused v s = pause-KeepsLine (record v { state = paused }) s
  change_state-KeepsLine running v s = s
  change_state-KeepsLine stepping v s = s

  receive_from-KeepsLine : (rs : List (Option VmState)) → KeepsLine (receive_from rs)
  receive_from-KeepsLine [] v s = s
  receive_from-KeepsLine (none ∷ rs) v s = s
  receive_from-KeepsLine (some requested ∷ rs) v s =
      change_state-KeepsLine requested (record v { requests = rs }) s

  receive_state-KeepsLine : KeepsLine receive_state
  unfolding receive_state
  receive_state-KeepsLine v s = receive_from-KeepsLine v.requests v s

  told-Stands : (b : Bool) (v : Vm N) → Stands v → Stands (if b then emit stepped v else v)
  told-Stands true v s = s
  told-Stands false v s = s

  end_step-KeepsLine : KeepsLine end_step
  unfolding end_step
  end_step-KeepsLine v s =
      if-Stands (is_stepping v.state) (pause (if v.step_handler then emit stepped v else v))
        (done tt v) (pause-KeepsLine _ (told-Stands v.step_handler v s)) s

  ask_breakpoint-KeepsLine : (handler : Option (ℕ → Bool)) → KeepsLine (ask_breakpoint handler)
  unfolding ask_breakpoint
  ask_breakpoint-KeepsLine none v s = s
  ask_breakpoint-KeepsLine (some continue_execution) v s =
      let hit = emit (breakpoint_hit v.current_source_line) v in
      if-Stands (continue_execution v.current_source_line) (done tt hit) (pause hit) s
        (pause-KeepsLine hit s)

  check_breakpoint-KeepsLine : KeepsLine check_breakpoint
  unfolding check_breakpoint
  check_breakpoint-KeepsLine v s =
      if-Stands (has_line v.current_source_line v.breakpoints)
        (ask_breakpoint v.breakpoint_handler v) (done tt v)
        (ask_breakpoint-KeepsLine v.breakpoint_handler v s) s

  source_line_changed-KeepsLine : KeepsLine source_line_changed
  unfolding source_line_changed
  source_line_changed-KeepsLine = bind-KeepsLine end_step _ end_step-KeepsLine (λ _.
      bind-KeepsLine check_breakpoint _ check_breakpoint-KeepsLine (λ _. receive_state-KeepsLine))

  enter_statement-KeepsLine : (stmt : Statement) → KeepsLine {A = Unit {0}} (enter_statement stmt)
  unfolding enter_statement check_source_line_changed
  enter_statement-KeepsLine stmt v s =
      let p : Position = statement_start stmt in
      let entered : Vm N = record v { current_source_coloumn = p.coloumn } in
      let moved : Vm N = record entered { jumped = false; current_source_line = p.line } in
      if-Stands (is p.file "" && (not (p.line == v.current_source_line) || v.jumped))
        (source_line_changed moved) (done tt entered) (source_line_changed-KeepsLine moved s) s

  await_permission-KeepsLine : (gs : List (Option VmState)) → KeepsLine (await_permission gs)
  unfolding await_permission
  await_permission-KeepsLine [] v s = s
  await_permission-KeepsLine (none ∷ gs) v s = s
  await_permission-KeepsLine (some state ∷ gs) v s =
      bind-KeepsLine (change_state state) _ (change_state-KeepsLine state)
        (λ _. await_permission-KeepsLine gs) v s

  aquire-KeepsLine : KeepsLine aquire_coordinator_permission
  unfolding aquire_coordinator_permission
  aquire-KeepsLine v s = await_permission-KeepsLine v.grants v s

  set_variable-line :
      (name : Text) (value : Variable N) (v : Vm N)
      → Vm.current_ast_line (set_variable name value v) ≡ v.current_ast_line
  unfolding set_variable
  set_variable-line name value v = ground arith

  set_variable-Stands :
      (name : Text) (value : Variable N) (v : Vm N) → Stands v → Stands (set_variable name value v)
  set_variable-Stands name value v s = rw (set_variable-line name value v) s

  end_line-Stands : (o : Outcome N (Unit {0})) → Stands (final o) → Stands (final (end_line o))
  end_line-Stands (done a v) s = s
  end_line-Stands (failed abort_line v) s = s
  end_line-Stands (failed _ v) s = s
  end_line-Stands (killed v) s = s
  end_line-Stands (waiting v) s = s

  report_done-Stands :
      (o : Outcome N (Unit {0})) → Stands (final o) → Stands (final (report_done o))
  report_done-Stands (done a v) s = s
  report_done-Stands (failed e v) s = s
  report_done-Stands (killed v) s = s
  report_done-Stands (waiting v) s = s

module _ {N : Type 0} (D : Decimals N) where
  run_deref-KeepsLine : (d : Dereference) → KeepsLine (run_deref D d)
  unfolding run_deref
  run_deref-KeepsLine d v s = elim (Bool-cases (is d.operator "")) [
    | inl e ↦ rw e s
    | inr e ↦ rw e (
        bind-KeepsLine (lift (deref_operation D d.variable (value_of D d.variable v) d.operator)) _
          (lift-KeepsLine _) (λ new w. set_variable-Stands d.variable new w) v s)
  ]

  run_expr-KeepsLine : (e : Expression) → KeepsLine (run_expr D e)
  unfolding run_expr
  run_expr-KeepsLine (string_constant position value) v s = s
  run_expr-KeepsLine (number_constant position value) v s =
      lift-KeepsLine (literal_value D value (D.from_string value)) v s
  run_expr-KeepsLine (dereference d) v s = run_deref-KeepsLine d v s
  run_expr-KeepsLine (unary_operation position operator exp) v s =
      bind-KeepsLine (run_expr D exp) _ (run_expr-KeepsLine exp) (λ arg. lift-KeepsLine _) v s
  run_expr-KeepsLine (binary_operation operator exp1 exp2) v s =
      bind-KeepsLine (run_expr D exp1) _ (run_expr-KeepsLine exp1)
        (λ arg1.
          bind-KeepsLine (run_expr D exp2) _ (run_expr-KeepsLine exp2) (λ arg2. lift-KeepsLine _))
        v s

  run_assignment-KeepsLine :
      (p : Position) (x op : Text) (e : Expression) → KeepsLine (run_assignment D p x op e)
  unfolding run_assignment
  run_assignment-KeepsLine p x op e =
      bind-KeepsLine (run_expr D (assigned_expression D p x op e)) _ (run_expr-KeepsLine _)
        (λ new v. set_variable-Stands x new v)

  jump_to-KeepsLine : (x : Variable N) → KeepsLine (jump_to D x)
  unfolding jump_to
  jump_to-KeepsLine (number n) v s = goto_index-Above (D.int_part n)
  jump_to-KeepsLine (string t) v s = s

  mutual
    unfolding run_stmt

    run_stmt-KeepsLine : (stmt : Statement) → KeepsLine (run_stmt D stmt)
    run_stmt-KeepsLine (assignment p x op e) =
        bind-KeepsLine (enter_statement _) _ (enter_statement-KeepsLine _)
          (λ _. run_assignment-KeepsLine p x op e)
    run_stmt-KeepsLine (if_statement p c b e) =
        bind-KeepsLine (enter_statement _) _ (enter_statement-KeepsLine _) (λ _.
          bind-KeepsLine (run_expr D c) _ (run_expr-KeepsLine c) (λ x.
            bind-KeepsLine (lift (condition_holds D x)) _ (lift-KeepsLine _) (λ holds.
              branch-KeepsLine holds (run_block D b) (run_else D e) (run_block-KeepsLine b)
                (run_else-KeepsLine e))))
    run_stmt-KeepsLine (goto_statement p e) =
        bind-KeepsLine (enter_statement _) _ (enter_statement-KeepsLine _)
          (λ _. bind-KeepsLine (run_expr D e) _ (run_expr-KeepsLine e) jump_to-KeepsLine)
    run_stmt-KeepsLine (deref_statement d) =
        bind-KeepsLine (enter_statement _) _ (enter_statement-KeepsLine _)
          (λ _. bind-KeepsLine (run_deref D d) _ (run_deref-KeepsLine d) (λ x v s. s))

    run_block-KeepsLine : (b : Statements) → KeepsLine (run_block D b)
    run_block-KeepsLine nil = λ v s. s
    run_block-KeepsLine (cons stmt b) =
        bind-KeepsLine (run_stmt D stmt) _ (run_stmt-KeepsLine stmt) (λ _. run_block-KeepsLine b)

    run_else-KeepsLine : (e : ElseBlock) → KeepsLine (run_else D e)
    run_else-KeepsLine no_else = λ v s. s
    run_else-KeepsLine (else_block b) = run_block-KeepsLine b

  run_line_of-KeepsLine : (line : Line) (b : Statements) → KeepsLine (run_line_of D line b)
  unfolding run_line_of
  run_line_of-KeepsLine line nil v s =
      source_line_changed-KeepsLine
        (record v { current_source_line = line.position.line; current_source_coloumn = 0 }) s
  run_line_of-KeepsLine line (cons stmt b) v s =
      end_line-Stands (run_block D (cons stmt b) v) (run_block-KeepsLine (cons stmt b) v s)

  run_coordinated-KeepsLine : (line : Line) → KeepsLine (run_coordinated D line)
  unfolding run_coordinated run_statements
  run_coordinated-KeepsLine line v s =
      report_done-Stands (run_statements D line v) (run_line_of-KeepsLine line line.statements v s)

  run_under-KeepsLine :
      (c : Option (Map (Variable N))) (line : Line) → KeepsLine (run_under D c line)
  unfolding run_under run_statements
  run_under-KeepsLine none line = run_line_of-KeepsLine line line.statements
  run_under-KeepsLine (some globals) line =
      bind-KeepsLine aquire_coordinator_permission _ aquire-KeepsLine
        (λ _. run_coordinated-KeepsLine line)

  pub run_line-KeepsLine : (line : Line) → KeepsLine (run_line D line)
  unfolding run_line
  run_line-KeepsLine line v s = run_under-KeepsLine v.coordinator line v s
