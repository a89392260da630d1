-- ===== src/Vm/Run.antt =====
-- pkg/vm/vm.go: the main loop of the worker goroutine (run).
pub mod Safety
pub mod Limits
use yodk.Common.{
  List, ℕ, zero, suc, Bool, true, false, ◌&&◌, ◌||◌, Option, none, some, if◌then◌else◌, ◌+◌, ◌-◌,
  ltb, length, get_elem?, ◌==◌,
}
use yodk.Common.Int.{ℤ, pos, negsuc, ltb_ℤ, suc_ℤ}
use yodk.Ast.{Program, Line}
use yodk.Vm.Decimals.{Decimals}
use yodk.Vm.Operations.{Error}
use yodk.Vm.State.{
  Vm, M, Outcome, done, failed, killed, waiting, terminated, and_then, ◌>>=◌, ◌>>◌, emit, finished,
  error_reported,
}
use yodk.Vm.Control.{pause}
use yodk.Vm.Statements.{run_line}

-- v.iterations == 0 || v.iterations < v.executedIterations
unfoldable pub runs_again : ℤ → ℕ → Bool
runs_again (pos n) executed = (n == 0) || ltb n executed
runs_again (negsuc n) executed = true

-- v.maxExecutedLines > 0 && v.executedLines > v.maxExecutedLines
unfoldable pub limit_exceeded : ℤ → ℕ → Bool
limit_exceeded (pos n) executed = ltb 0 n && ltb n executed
limit_exceeded (negsuc n) executed = false

-- program.Lines[i-1]; `none` is an index out of range
unfoldable pub line_at : List Line → ℤ → Option Line
line_at lines (pos (suc i)) = get_elem? lines i
line_at lines i = none

-- How the worker goroutine ends.
pub data Finish (N : Type 0) : Type 0 where
  -- by the panic errKillVM
  terminated_in : Vm N → Finish N
  -- blocked on a channel
  blocked_in : Vm N → Finish N
  -- an index out of range in the list of lines
  crashed_in : Vm N → Finish N
  -- the fuel of the model ran out
  out_of_fuel : Vm N → Finish N

module _ {N : Type 0} where
  -- call the finish handler, and panic with errKillVM
  unfoldable pub finish : M N (Unit {0})
  finish v = killed (if v.finish_handler then emit finished v else v)

  -- the call of the error handler, if there is one
  unfoldable pub ask_error_handler : Error → Option (Error → Bool) → M N (Unit {0})
  ask_error_handler e none v = killed v
  ask_error_handler e (some continue_execution) v =
      let reported : Vm N = emit (error_reported e) v in
      if continue_execution e then done tt reported else pause reported

  -- what run does with an error of a line
  unfoldable pub handle_error : Error → M N (Unit {0})
  handle_error e v = ask_error_handler e v.error_handler v

  -- v.executedLines++
  abbrev pub count_line : Vm N → Vm N
  count_line v = record v { executed_lines = v.executed_lines + 1 }

  -- v.currentAstLine++
  abbrev pub advance : Vm N → Vm N
  advance v = record v { current_ast_line = suc_ℤ v.current_ast_line }

  -- the end of a round: count the line, and go on to the next one
  unfoldable pub next_line : M N (Unit {0})
  next_line v =
      if limit_exceeded v.max_executed_lines (v.executed_lines + 1)
      then finish (count_line v)
      else done tt (advance (count_line v))

  -- the first line again, in a new iteration
  abbrev pub restart : Vm N → Vm N
  restart v = record v { current_ast_line = pos 1; executed_iterations = v.executed_iterations + 1 }

  -- the end of the program: begin again, or finish
  unfoldable pub wrap_around : M N (Unit {0})
  wrap_around v =
      if runs_again v.iterations (v.executed_iterations + 1)
      then done tt (restart v)
      else finish (restart v)

  -- an error of the line goes to the error handler
  unfoldable pub recover_line : Outcome N (Unit {0}) → Outcome N (Unit {0})
  recover_line (failed e v) = handle_error e v
  recover_line (done a v) = done a v
  recover_line (killed v) = killed v
  recover_line (waiting v) = waiting v

  -- `continue`, the panic errKillVM, or a block, at the end of a round
  abbrev pub continue_loop : (Vm N → Finish N) → Outcome N (Unit {0}) → Finish N
  continue_loop rest (done a v) = rest v
  continue_loop rest (failed e v) = crashed_in v
  continue_loop rest (killed v) = terminated_in v
  continue_loop rest (waiting v) = blocked_in v

  -- the deferred function of run: errKillVM is recovered, and the state is StateTerminated
  unfoldable pub on_exit : Finish N → Finish N
  on_exit (terminated_in v) = terminated_in (record v { state = terminated })
  on_exit (blocked_in v) = blocked_in v
  on_exit (crashed_in v) = crashed_in v
  on_exit (out_of_fuel v) = out_of_fuel v

module _ {N : Type 0} (D : Decimals N) where
  -- one round of the loop of run at the given line, which is in range
  unfoldable pub run_round : Line → M N (Unit {0})
  run_round line v = and_then (recover_line (run_line D line v)) (λ _. next_line)

  -- the round at the line that the index gives
  abbrev pub round_at : (Vm N → Finish N) → Vm N → Option Line → Finish N
  round_at rest v none = crashed_in v
  round_at rest v (some line) = continue_loop rest (run_round line v)

  -- one round of the loop of run, and the rest of the loop
  unfoldable pub loop_step : (Vm N → Finish N) → Vm N → Finish N
  loop_step rest v =
      if ltb_ℤ (pos (length v.program.lines)) v.current_ast_line
      then continue_loop rest (wrap_around v)
      else round_at rest v (line_at v.program.lines v.current_ast_line)

  -- the loop of run, on fuel
  unfoldable pub run_loop : ℕ → Vm N → Finish N
  unfolding loop_step
  run_loop zero v = out_of_fuel v
  run_loop (suc f) v = loop_step (run_loop f) v

  -- run: the VM starts paused
  unfoldable pub run : ℕ → Vm N → Finish N
  run fuel v = on_exit (continue_loop (run_loop fuel) (pause v))
