-- ===== src/Vm/Statements.antt =====
-- pkg/vm/vm.go: execution of statements and lines (runStmt, runAssignment, runLine).
use yodk.Common.{Bool, true, false, Option, none, some, if◌then◌else◌, []}
use yodk.Common.Int.{ℤ, pos, ltb_ℤ, pred_ℤ}
use yodk.Text.{Text, is, remove_byte}
use yodk.Ast.{
  Position, absent, Expression, dereference, binary_operation, Statement, Statements, ElseBlock,
  assignment, if_statement, goto_statement, deref_statement, nil, cons, no_else, else_block, Line,
}
use yodk.Ast.Positions.{statement_start}
use yodk.Text.Map.{Map}
use yodk.Vm.Decimals.{Decimals}
use yodk.Vm.Variable.{Variable, number, string}
use yodk.Vm.Operations.{Result, ok, err, abort_line, condition_is_string, goto_string, is_true}
use yodk.Vm.State.{
  M, Outcome, done, failed, killed, waiting, ◌>>=◌, ◌>>◌, lift, modify, emit, set_variable,
  line_done,
}
use yodk.Vm.Expressions.{run_expr, run_deref}
use yodk.Vm.Control.{check_source_line_changed, source_line_changed, aquire_coordinator_permission}

-- the line number of a goto, held between 1 and 20, less one
unfoldable pub goto_index : ℤ → ℤ
goto_index linenr =
    let from_one : ℤ = if ltb_ℤ linenr (pos 1) then pos 1 else linenr in
    pred_ℤ (if ltb_ℤ (pos 20) from_one then pos 20 else from_one)

module _ {N : Type 0} where
  -- the first two lines of runStmt
  unfoldable pub enter_statement : Statement → M N (Unit {0})
  enter_statement stmt v =
      check_source_line_changed stmt
        (record v { current_source_coloumn = Position.coloumn (statement_start stmt) })

  -- errAbortLine ends the line without an error
  abbrev pub end_line : Outcome N (Unit {0}) → Outcome N (Unit {0})
  end_line (failed abort_line v) = done tt v
  end_line (done a v) = done a v
  end_line (failed e v) = failed e v
  end_line (killed v) = killed v
  end_line (waiting v) = waiting v

  -- the deferred send on the done channel
  abbrev pub report_done : Outcome N (Unit {0}) → Outcome N (Unit {0})
  report_done (done a v) = done a (emit line_done v)
  report_done (failed e v) = failed e (emit line_done v)
  report_done (killed v) = killed (emit line_done v)
  report_done (waiting v) = waiting v

module _ {N : Type 0} (D : Decimals N) where
  -- the expression that an assignment evaluates: with `+=` and the like, an operation on the variable
  unfoldable pub assigned_expression : Position → Text → Text → Expression → Expression
  assigned_expression position variable operator value =
      if is operator "="
      then value
      else binary_operation (remove_byte b'=' operator)
          (dereference (record {
            position = position;
            variable = variable;
            operator = [];
            pre_post = absent;
            is_statement = false;
          }))
          value

  -- runAssignment
  unfoldable pub run_assignment : Position → Text → Text → Expression → M N (Unit {0})
  run_assignment position variable operator value = do
    new_value ← run_expr D (assigned_expression position variable operator value)
    modify (set_variable variable new_value)

  -- the tests of a condition: a string is an error
  unfoldable pub condition_holds : Variable N → Result Bool
  condition_holds (number n) = ok (is_true D n)
  condition_holds (string s) = err condition_is_string

  -- the jump of a goto to the value of its expression, which ends the line by errAbortLine
  unfoldable pub jump_to : Variable N → M N (Unit {0})
  jump_to (number n) v =
      failed abort_line (record v { current_ast_line = goto_index (D.int_part n); jumped = true })
  jump_to (string s) v = failed (goto_string s) v

  -- runStmt, and the loops over the blocks of an if
  unfoldable mutual
    pub run_stmt : Statement → M N (Unit {0})
    run_stmt (assignment position variable operator value) = do
      enter_statement (assignment position variable operator value)
      run_assignment position variable operator value
    run_stmt (if_statement position condition if_block else_part) =
        let then_branch = run_block if_block in
        let else_branch = run_else else_part in
        enter_statement (if_statement position condition if_block else_part)
        >> (run_expr D condition >>= λ result.
            lift (condition_holds result) >>= λ holds. if holds then then_branch else else_branch)
    run_stmt (goto_statement position line) = do
      enter_statement (goto_statement position line)
      target ← run_expr D line
      jump_to target
    run_stmt (deref_statement d) =
        enter_statement (deref_statement d) >> (run_deref D d >>= λ value. modify (λ v. v))

    pub run_block : Statements → M N (Unit {0})
    run_block nil = modify (λ v. v)
    run_block (cons stmt rest) = run_stmt stmt >> run_block rest

    pub run_else : ElseBlock → M N (Unit {0})
    run_else no_else = modify (λ v. v)
    run_else (else_block statements) = run_block statements

  -- runLine behind the permission: the actions on an empty line, and the loop over the statements
  unfoldable pub run_line_of : Line → Statements → M N (Unit {0})
  run_line_of line nil v =
      source_line_changed
        (record v { current_source_line = line.position.line; current_source_coloumn = 0 })
  run_line_of line (cons stmt rest) v = end_line (run_block (cons stmt rest) v)

  unfoldable pub run_statements : Line → M N (Unit {0})
  unfolding run_line_of
  run_statements line = run_line_of line line.statements

  -- the same under a coordinator, with the permission before and the deferred send behind it
  unfoldable pub run_coordinated : Line → M N (Unit {0})
  run_coordinated line v = report_done (run_statements line v)

  unfoldable pub run_under : Option (Map (Variable N)) → Line → M N (Unit {0})
  run_under none line = run_statements line
  run_under (some globals) line = aquire_coordinator_permission >>= λ _. run_coordinated line

  -- runLine
  unfoldable pub run_line : Line → M N (Unit {0})
  unfolding run_under
  run_line line v = run_under v.coordinator line v
