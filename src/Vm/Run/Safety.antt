-- ===== src/Vm/Run/Safety.antt =====
-- pkg/vm/vm.go: the indices into the lines of the program in `run`.
use yodk.Common.{
  ℕ, zero, suc, ◌+◌, ◌<◌, ◌≡◌, ◌≢◌, refl, List, [], ◌∷◌, Bool, true, false, Option, none, some, inl,
  inr, Bool-cases, arith, length, get_elem?, if◌then◌else◌,
}
use yodk.Common.Int.{ℤ, pos, negsuc, ltb_ℤ, suc_ℤ, Above}
use yodk.Ast.{Line}
use yodk.Vm.Decimals.{Decimals}
use yodk.Vm.Operations.{Error}
use yodk.Vm.State.{
  Vm, Outcome, done, failed, killed, waiting, and_then, VmState, paused, running, stepping,
  terminated, emit, error_reported,
}
use yodk.Vm.Statements.{run_line}
use yodk.Vm.Frame.{final}
use yodk.Vm.Frame.Lines.{Stands, KeepsLine, if-Stands, pause-KeepsLine, run_line-KeepsLine}
use yodk.Vm.Control.{pause, await_request}
use yodk.Vm.Run.{
  line_at, Finish, terminated_in, blocked_in, crashed_in, out_of_fuel, finish, ask_error_handler,
  handle_error, next_line, wrap_around, recover_line, run_round, run_loop, run, on_exit,
  continue_loop, round_at, count_line, advance, restart, limit_exceeded, runs_again,
}

get_elem?-some : (xs : List Line) (n : ℕ) → n < length xs → get_elem? xs n ≢ none
get_elem?-some [] n h = absurd (omega arith)
get_elem?-some (x ∷ xs) zero h = cc
get_elem?-some (x ∷ xs) (suc n) h = get_elem?-some xs n (omega arith)

line_at-some :
    (lines : List Line) (i : ℤ)
    → Above 1 i
    → ltb_ℤ (pos (length lines)) i ≡ false
    → line_at lines i ≢ none
unfolding line_at
line_at-some lines (negsuc i) h k = absurd h
line_at-some lines (pos zero) h k = absurd (omega arith)
line_at-some lines (pos (suc i)) h k = get_elem?-some lines i (ground (arith, k))

suc-Above : (i : ℤ) → Above 0 i → Above 1 (suc_ℤ i)
suc-Above (pos n) h = omega arith
suc-Above (negsuc n) h = absurd h

less-Above : (i : ℤ) → Above 1 i → Above 0 i
less-Above (pos n) h = omega arith
less-Above (negsuc n) h = absurd h

module _ {N : Type 0} where
  -- The computation hands on no error.
  abbrev pub NotFailed : Outcome N (Unit {0}) → Type 0
  NotFailed (failed e v) = ⊥
  NotFailed (done a v) = Unit
  NotFailed (killed v) = Unit
  NotFailed (waiting v) = Unit

  -- It hands on no error, and goes on only at a line number from 1.
  abbrev pub AtLine : Outcome N (Unit {0}) → Type 0
  AtLine (done a v) = Above 1 v.current_ast_line
  AtLine (failed e v) = ⊥
  AtLine (killed v) = Unit
  AtLine (waiting v) = Unit

  -- The loop ended other than by an index out of range.
  abbrev pub NotCrashed : Finish N → Type 0
  NotCrashed (crashed_in v) = ⊥
  NotCrashed (terminated_in v) = Unit
  NotCrashed (blocked_in v) = Unit
  NotCrashed (out_of_fuel v) = Unit

  await_request-NotFailed : (rs : List (Option VmState)) (v : Vm N) → NotFailed (await_request rs v)
  unfolding await_request
  await_request-NotFailed [] v = tt
  await_request-NotFailed (none ∷ rs) v = await_request-NotFailed rs v
  await_request-NotFailed (some paused ∷ rs) v = await_request-NotFailed rs v
  await_request-NotFailed (some terminated ∷ rs) v = tt
  await_request-NotFailed (some running ∷ rs) v = tt
  await_request-NotFailed (some stepping ∷ rs) v = tt

  pause-NotFailed : (v : Vm N) → NotFailed (pause v)
  unfolding pause
  pause-NotFailed v = await_request-NotFailed v.requests _

  if-NotFailed :
      (b : Bool) (o o' : Outcome N (Unit {0}))
      → NotFailed o
      → NotFailed o'
      → NotFailed (if b then o else o')
  if-NotFailed true o o' h k = h
  if-NotFailed false o o' h k = k

  ask_error_handler-NotFailed :
      (e : Error) (handler : Option (Error → Bool)) (v : Vm N)
      → NotFailed (ask_error_handler e handler v)
  unfolding ask_error_handler
  ask_error_handler-NotFailed e none v = tt
  ask_error_handler-NotFailed e (some continue_execution) v =
      if-NotFailed (continue_execution e) (done tt (emit (error_reported e) v))
        (pause (emit (error_reported e) v)) tt (pause-NotFailed _)

  pub recover_line-NotFailed : (o : Outcome N (Unit {0})) → NotFailed (recover_line o)
  unfolding recover_line handle_error
  recover_line-NotFailed (failed e v) = ask_error_handler-NotFailed e v.error_handler v
  recover_line-NotFailed (done a v) = tt
  recover_line-NotFailed (killed v) = tt
  recover_line-NotFailed (waiting v) = tt

  if-AtLine :
      (b : Bool) (o o' : Outcome N (Unit {0})) → AtLine o → AtLine o' → AtLine (if b then o else o')
  if-AtLine true o o' h k = h
  if-AtLine false o o' h k = k

  ask_error_handler-Stands :
      (e : Error) (handler : Option (Error → Bool))
      → KeepsLine {N = N} (ask_error_handler e handler)
  unfolding ask_error_handler
  ask_error_handler-Stands e none v s = s
  ask_error_handler-Stands e (some continue_execution) v s =
      let told : Vm N = emit (error_reported e) v in
      if-Stands (continue_execution e) (done tt told) (pause told) s (pause-KeepsLine told s)

  recover_line-Stands :
      (o : Outcome N (Unit {0})) → Stands (final o) → Stands (final (recover_line o))
  unfolding recover_line handle_error
  recover_line-Stands (failed e v) s = ask_error_handler-Stands e v.error_handler v s
  recover_line-Stands (done a v) s = s
  recover_line-Stands (killed v) s = s
  recover_line-Stands (waiting v) s = s

  next_line-AtLine : (v : Vm N) → Stands v → AtLine (next_line v)
  unfolding next_line finish
  next_line-AtLine v s =
      if-AtLine (limit_exceeded v.max_executed_lines (v.executed_lines + 1)) (finish (count_line v))
        (done tt (advance (count_line v))) tt (suc-Above v.current_ast_line s)

  wrap_around-AtLine : (v : Vm N) → AtLine (wrap_around v)
  unfolding wrap_around finish
  wrap_around-AtLine v =
      if-AtLine (runs_again v.iterations (v.executed_iterations + 1)) (done tt (restart v))
        (finish (restart v)) (omega arith) tt

  and_then-AtLine :
      (o : Outcome N (Unit {0}))
      → NotFailed o
      → Stands (final o)
      → AtLine (and_then o (λ _. next_line))
  and_then-AtLine (done a v) h s = next_line-AtLine v s
  and_then-AtLine (failed e v) h s = absurd h
  and_then-AtLine (killed v) h s = tt
  and_then-AtLine (waiting v) h s = tt

  continue_loop-NotCrashed :
      (rest : Vm N → Finish N) (o : Outcome N (Unit {0}))
      → ((v : Vm N) → Above 1 v.current_ast_line → NotCrashed (rest v))
      → AtLine o
      → NotCrashed (continue_loop rest o)
  continue_loop-NotCrashed rest (done a v) h k = h v k
  continue_loop-NotCrashed rest (failed e v) h k = absurd k
  continue_loop-NotCrashed rest (killed v) h k = tt
  continue_loop-NotCrashed rest (waiting v) h k = tt

module _ {N : Type 0} (D : Decimals N) where
  run_round-AtLine :
      (line : Line) (v : Vm N) → Above 1 v.current_ast_line → AtLine (run_round D line v)
  unfolding run_round
  run_round-AtLine line v h =
      and_then-AtLine (recover_line (run_line D line v)) (recover_line-NotFailed _) (
        recover_line-Stands (run_line D line v)
          (run_line-KeepsLine D line v (less-Above v.current_ast_line h)))

  round_at-NotCrashed :
      (rest : Vm N → Finish N) (v : Vm N) (line : Option Line)
      → ((w : Vm N) → Above 1 w.current_ast_line → NotCrashed (rest w))
      → Above 1 v.current_ast_line
      → line ≢ none
      → NotCrashed (round_at D rest v line)
  round_at-NotCrashed rest v none h l k = absurd (k refl)
  round_at-NotCrashed rest v (some line) h l k =
      continue_loop-NotCrashed rest (run_round D line v) h (run_round-AtLine line v l)

  run_loop-NotCrashed :
      (fuel : ℕ) (v : Vm N) → Above 1 v.current_ast_line → NotCrashed (run_loop D fuel v)
  unfolding run_loop
  run_loop-NotCrashed zero v h = tt
  run_loop-NotCrashed (suc fuel) v h =
      let ih = run_loop-NotCrashed fuel in
      elim (Bool-cases (ltb_ℤ (pos (length v.program.lines)) v.current_ast_line)) [
        | inl e ↦
            rw e
              (continue_loop-NotCrashed (run_loop D fuel) (wrap_around v) ih (wrap_around-AtLine v))
        | inr e ↦ rw e (round_at-NotCrashed (run_loop D fuel) v _ ih h (line_at-some _ _ h e))
      ]

module _ {N : Type 0} where
  await_request-AtLine :
      (rs : List (Option VmState)) (v : Vm N)
      → Above 1 v.current_ast_line
      → AtLine (await_request rs v)
  unfolding await_request
  await_request-AtLine [] v h = tt
  await_request-AtLine (none ∷ rs) v h = await_request-AtLine rs v h
  await_request-AtLine (some paused ∷ rs) v h = await_request-AtLine rs v h
  await_request-AtLine (some terminated ∷ rs) v h = tt
  await_request-AtLine (some running ∷ rs) v h = h
  await_request-AtLine (some stepping ∷ rs) v h = h

  pause-AtLine : (v : Vm N) → Above 1 v.current_ast_line → AtLine (pause v)
  unfolding pause
  pause-AtLine v h = await_request-AtLine v.requests (record v { state = paused }) h

  on_exit-NotCrashed : (f : Finish N) → NotCrashed f → NotCrashed (on_exit f)
  unfolding on_exit
  on_exit-NotCrashed (terminated_in v) h = tt
  on_exit-NotCrashed (blocked_in v) h = tt
  on_exit-NotCrashed (crashed_in v) h = h
  on_exit-NotCrashed (out_of_fuel v) h = tt

module _ {N : Type 0} (D : Decimals N) where
  -- The goroutine of a VM that stands at a line number from 1, as a new one does, never indexes
  -- outside of the lines of its program, for any program, any requests and any number of rounds.
  pub run-NotCrashed :
      (fuel : ℕ) (v : Vm N) → Above 1 v.current_ast_line → NotCrashed (run D fuel v)
  unfolding run
  run-NotCrashed fuel v h = on_exit-NotCrashed _ (
      continue_loop-NotCrashed (run_loop D fuel) (pause v) (run_loop-NotCrashed D fuel)
        (pause-AtLine v h))
