-- ===== src/Examples/Running.antt =====
-- The theorems on the worker goroutine of a VM, applied.
use yodk.Common.{◌≡◌, inl, refl, ℕ, ◌≤◌, length, [], ◌∷◌, none, some, if◌then◌else◌, arith}
use Prim.Native.Nat.{max, min}
use yodk.Common.Int.{pos, negsuc, suc_ℤ, pos_part}
use yodk.Text.{codes, text_eq, to_lower}
use yodk.Vm.Variable.{number}
use yodk.Vm.State.{
  Vm, running, terminated, paused, create, set_max_executed_lines, get_variable, set_variable,
}
use yodk.Vm.State.Variables.{get_variable-set_variable}
use yodk.Vm.Control.{pause, change_state, receive_state}
use yodk.Vm.Control.Pausing.{Settled, pause-Settled_all}
use yodk.Vm.Statements.{run_line, goto_index}
use yodk.Vm.Frame.{config, final}
use yodk.Vm.Frame.Code.{run_line-Keeps}
use yodk.Vm.Frame.Lines.{goto_line}
use yodk.Vm.Run.{run}
use yodk.Vm.Run.Safety.{NotCrashed, run-NotCrashed}
use yodk.Examples.{tally, endless, with_x, first_line}

-- the VM of `goto 1`, which is told to run, then to stop when it is at line 1 again
abbrev running_vm : Vm ℕ
running_vm = create endless (some running ∷ none ∷ some terminated ∷ []) []

-- with at most 3 lines
abbrev limited_vm : Vm ℕ
limited_vm = set_max_executed_lines (pos 3) running_vm

limited_vm-limit :
    (limited_vm.max_executed_lines ≡ pos 3)
    × (limited_vm.executed_lines ≤ 3)
    × (1 ≤ length limited_vm.program.lines)
unfolding set_max_executed_lines create
limited_vm-limit = (refl, omega arith, omega arith)

run-NotCrashed_example : NotCrashed (run tally 7 running_vm)
unfolding create
run-NotCrashed_example = run-NotCrashed tally 7 running_vm (omega arith)

run_line-Keeps_example : config (final (run_line tally first_line running_vm)) ≡ config running_vm
run_line-Keeps_example = run_line-Keeps tally first_line running_vm

-- a goto to a line that is negative, and one behind the last line that a chip has
goto_line_example : suc_ℤ (goto_index (negsuc 4)) ≡ pos (max 1 (min (pos_part (negsuc 4)) 20))
goto_line_example = goto_line (negsuc 4)

goto_behind : goto_index (pos 35) ≡ pos 19
unfolding goto_index
goto_behind = refl

get_variable-set_variable_example :
    get_variable (codes "counter") (set_variable (codes "Counter") (number 7) with_x) ≡ (
      if text_eq (to_lower (codes "Counter")) (to_lower (codes "counter"))
      then some (number 7)
      else get_variable (codes "counter") with_x)
get_variable-set_variable_example =
    get_variable-set_variable (codes "counter") (codes "Counter") (number 7) with_x

-- the VM of `goto 1` in the running state
abbrev started_vm : Vm ℕ
started_vm = record running_vm { state = running }

pause-Settled_all_example :
    Settled (pause running_vm)
    × Settled (change_state paused running_vm)
    × Settled (receive_state started_vm)
unfolding create
pause-Settled_all_example = pause-Settled_all running_vm started_vm paused (inl refl)
