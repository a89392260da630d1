-- ===== src/Vm/Frame.antt =====
-- pkg/vm/vm.go: the fields of a VM that only run and the setters change.
pub mod Code
pub mod Lines
use yodk.Common.{
  ℕ, List, [], ◌∷◌, Bool, true, false, Option, none, some, ◌≡◌, refl, sym, ◌∙◌, inl, inr,
  Bool-cases, Option-cases, not, ◌&&◌, ◌||◌, ◌==◌, arith, if◌then◌else◌,
}
use yodk.Common.Int.{ℤ}
use yodk.Text.{Text, is, to_lower, has_prefix, codes}
use yodk.Ast.{
  Program, Position, Dereference, Expression, string_constant, number_constant, dereference,
  unary_operation, binary_operation, Statement, Statements, ElseBlock, assignment, if_statement,
  goto_statement, deref_statement, nil, cons, no_else, else_block, Line,
}
use yodk.Ast.Positions.{statement_start}
use yodk.Vm.Decimals.{Decimals}
use yodk.Vm.Variable.{Variable, number, string}
use yodk.Vm.Operations.{Error, Result, ok, err, abort_line, already_empty, unary_needs_number}
use yodk.Vm.State.{
  Vm, VmState, paused, running, stepping, terminated, M, Outcome, done, failed, killed, waiting,
  and_then, ◌>>=◌, ◌>>◌, lift, modify, emit, Event, stepped, breakpoint_hit, set_variable, has_line,
}
use yodk.Vm.Expressions.{run_expr, run_deref, deref_operation, value_of}
use yodk.Vm.Control.{
  await_request, pause, change_state, receive_state, end_step, check_breakpoint,
  source_line_changed, check_source_line_changed, receive_from, ask_breakpoint, is_stepping,
  await_permission, aquire_coordinator_permission,
}
use yodk.Vm.Statements.{
  run_assignment, assigned_expression, condition_holds, jump_to, enter_statement, run_stmt,
  run_block, run_else, run_statements, run_line, end_line, report_done,
}

-- The fields that only `run` and the setters change.
pub record Config : Type 0 where
  pub program : Program
  pub breakpoints : List ℕ
  pub breakpoint_handler : Option (ℕ → Bool)
  pub error_handler : Option (Error → Bool)
  pub step_handler : Bool
  pub finish_handler : Bool
  pub iterations : ℤ
  pub max_executed_lines : ℤ
  pub executed_iterations : ℕ
  pub executed_lines : ℕ

module _ {N : Type 0} where
  unfoldable pub config : Vm N → Config
  config v = record {
    program = v.program;
    breakpoints = v.breakpoints;
    breakpoint_handler = v.breakpoint_handler;
    error_handler = v.error_handler;
    step_handler = v.step_handler;
    finish_handler = v.finish_handler;
    iterations = v.iterations;
    max_executed_lines = v.max_executed_lines;
    executed_iterations = v.executed_iterations;
    executed_lines = v.executed_lines;
  }

  -- the state in which a computation ends
  abbrev pub final : {A : Type 0} → Outcome N A → Vm N
  final (done a v) = v
  final (failed e v) = v
  final (killed v) = v
  final (waiting v) = v

  -- The computation leaves the configuration alone, however it ends.
  abbrev pub Keeps : {A : Type 0} → M N A → Type 0
  Keeps m = (v : Vm N) → config (final (m v)) ≡ config v

  pub and_then-Keeps :
      {A B : Type 0} (o : Outcome N A) (f : A → M N B)
      → ((a : A) → Keeps (f a))
      → config (final (and_then o f)) ≡ config (final o)
  and_then-Keeps (done a v) f h = h a v
  and_then-Keeps (failed e v) f h = refl
  and_then-Keeps (killed v) f h = refl
  and_then-Keeps (waiting v) f h = refl

  pub bind-Keeps :
      {A B : Type 0} (m : M N A) (f : A → M N B)
      → Keeps m
      → ((a : A) → Keeps (f a))
      → Keeps (m >>= f)
  bind-Keeps m f h k v = and_then-Keeps (m v) f k ∙ h v

  pub lift-Keeps : {A : Type 0} (r : Result A) → Keeps {A = A} (lift r)
  lift-Keeps (ok a) v = refl
  lift-Keeps (err e) v = refl

  pub if-keeps :
      {A : Type 0} {c : Config} (b : Bool) (o o' : Outcome N A)
      → config (final o) ≡ c
      → config (final o') ≡ c
      → config (final (if b then o else o')) ≡ c
  if-keeps true o o' h k = h
  if-keeps false o o' h k = k

  await_request-Keeps : (rs : List (Option VmState)) → Keeps (await_request rs)
  unfolding await_request config
  await_request-Keeps [] v = refl
  await_request-Keeps (none ∷ rs) v = await_request-Keeps rs v
  await_request-Keeps (some paused ∷ rs) v = await_request-Keeps rs v
  await_request-Keeps (some terminated ∷ rs) v = refl
  await_request-Keeps (some running ∷ rs) v = refl
  await_request-Keeps (some stepping ∷ rs) v = refl

  config-state : (v : Vm N) (s : VmState) → config (record v { state = s }) ≡ config v
  unfolding config
  config-state v s = refl

  config-requests :
      (v : Vm N) (rs : List (Option VmState)) → config (record v { requests = rs }) ≡ config v
  unfolding config
  config-requests v rs = refl

  config-grants :
      (v : Vm N) (gs : List (Option VmState)) → config (record v { grants = gs }) ≡ config v
  unfolding config
  config-grants v gs = refl

  pub config-emit : (e : Event) (v : Vm N) → config (emit e v) ≡ config v
  unfolding config
  config-emit e v = refl

  pub pause-Keeps : Keeps pause
  unfolding pause
  pause-Keeps v =
      await_request-Keeps v.requests (record v { state = paused }) ∙ config-state v paused

  change_state-Keeps : (s : VmState) → Keeps (change_state s)
  unfolding change_state
  change_state-Keeps terminated v = config-state v terminated
  change_state-Keeps paused v = pause-Keeps (record v { state = paused }) ∙ config-state v paused
  change_state-Keeps running v = config-state v running
  change_state-Keeps stepping v = config-state v stepping

  receive_from-Keeps : (rs : List (Option VmState)) → Keeps (receive_from rs)
  receive_from-Keeps [] v = refl
  receive_from-Keeps (none ∷ rs) v = config-requests v rs
  receive_from-Keeps (some requested ∷ rs) v =
      change_state-Keeps requested (record v { requests = rs }) ∙ config-requests v rs

  receive_state-Keeps : Keeps receive_state
  unfolding receive_state
  receive_state-Keeps v = receive_from-Keeps v.requests v

  config-notified :
      (b : Bool) (e : Event) (v : Vm N) → config (if b then emit e v else v) ≡ config v
  config-notified true e v = config-emit e v
  config-notified false e v = refl

  end_step-Keeps : Keeps end_step
  unfolding end_step
  end_step-Keeps v =
      let told : Vm N = if v.step_handler then emit stepped v else v in
      if-keeps (is_stepping v.state) (pause told) (done tt v)
        (pause-Keeps told ∙ config-notified v.step_handler stepped v) refl

  ask_breakpoint-Keeps : (handler : Option (ℕ → Bool)) → Keeps (ask_breakpoint handler)
  unfolding ask_breakpoint
  ask_breakpoint-Keeps none v = refl
  ask_breakpoint-Keeps (some continue_execution) v =
      let event = breakpoint_hit v.current_source_line in
      if-keeps (continue_execution v.current_source_line) (done tt (emit event v))
        (pause (emit event v)) (config-emit event v)
        (pause-Keeps (emit event v) ∙ config-emit event v)

  check_breakpoint-Keeps : Keeps check_breakpoint
  unfolding check_breakpoint
  check_breakpoint-Keeps v =
      if-keeps (has_line v.current_source_line v.breakpoints)
        (ask_breakpoint v.breakpoint_handler v) (done tt v)
        (ask_breakpoint-Keeps v.breakpoint_handler v) refl

  pub source_line_changed-Keeps : Keeps source_line_changed
  unfolding source_line_changed
  source_line_changed-Keeps =
      bind-Keeps end_step _ end_step-Keeps
        (λ _. bind-Keeps check_breakpoint _ check_breakpoint-Keeps (λ _. receive_state-Keeps))

  config-line :
      (b : Bool) (line : ℕ) (v : Vm N)
      → config (record v { jumped = b; current_source_line = line }) ≡ config v
  unfolding config
  config-line b line v = refl

  pub check_source_line_changed-Keeps : (stmt : Statement) → Keeps (check_source_line_changed stmt)
  unfolding check_source_line_changed
  check_source_line_changed-Keeps stmt v =
      let p : Position = statement_start stmt in
      let moved : Vm N = record v { jumped = false; current_source_line = p.line } in
      if-keeps (is p.file "" && (not (p.line == v.current_source_line) || v.jumped))
        (source_line_changed moved) (done tt v)
        (source_line_changed-Keeps moved ∙ config-line false p.line v) refl

  await_permission-Keeps : (gs : List (Option VmState)) → Keeps (await_permission gs)
  unfolding await_permission
  await_permission-Keeps [] v = config-grants v []
  await_permission-Keeps (none ∷ gs) v = config-grants v gs
  await_permission-Keeps (some s ∷ gs) v =
      bind-Keeps (change_state s) _ (change_state-Keeps s) (λ _. await_permission-Keeps gs) v

  pub aquire-Keeps : Keeps aquire_coordinator_permission
  unfolding aquire_coordinator_permission
  aquire-Keeps v = await_permission-Keeps v.grants v

  pub config-set_variable :
      (name : Text) (value : Variable N) (v : Vm N) → config (set_variable name value v) ≡ config v
  unfolding set_variable config
  config-set_variable name value v = ground arith
