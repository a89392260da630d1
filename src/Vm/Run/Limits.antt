-- ===== src/Vm/Run/Limits.antt =====
-- The limits on a run: the number of lines, and the number of iterations.
use yodk.Common.{ℕ, suc, ◌+◌, ◌-◌, ◌*◌, ◌≤◌, ◌≡◌, false, length, if◌then◌else◌}
use yodk.Common.Int.{pos, ltb_ℤ}
use yodk.Vm.Decimals.{Decimals}
use yodk.Vm.State.{Vm, Outcome, done, failed, killed, waiting}
use yodk.Vm.Run.{Finish, terminated_in, blocked_in, crashed_in, out_of_fuel, limit_exceeded}

module _ {N : Type 0} where
  -- What a round does with the program and the counters.
  abbrev RoundSpec : Vm N → Outcome N (Unit {0}) → Type 0
  RoundSpec v (done a w) =
      (w.program ≡ v.program)
      × (w.max_executed_lines ≡ v.max_executed_lines)
      × (w.executed_lines ≡ v.executed_lines + 1)
      × (limit_exceeded v.max_executed_lines (v.executed_lines + 1) ≡ false)
  RoundSpec v (failed e w) = ⊥
  RoundSpec v (killed w) = w.executed_lines ≤ v.executed_lines + 1
  RoundSpec v (waiting w) = w.executed_lines ≤ v.executed_lines + 1

  -- The loop ended before its fuel, after at most so many lines.
  abbrev pub EndsWithin : ℕ → Finish N → Type 0
  EndsWithin bound (out_of_fuel v) = ⊥
  EndsWithin bound (terminated_in v) = v.executed_lines ≤ bound
  EndsWithin bound (blocked_in v) = v.executed_lines ≤ bound
  EndsWithin bound (crashed_in v) = v.executed_lines ≤ bound

  -- The rounds that are left: two for each line, and one where the end of the program is reached.
  abbrev pub rounds_left : ℕ → Vm N → ℕ
  rounds_left m v =
      2 * (m + 2 - v.executed_lines)
      + (if ltb_ℤ (pos (length v.program.lines)) v.current_ast_line then 1 else 0)

  -- A VM with the limit `m + 1` that has not passed it, and whose program has a line.
  record IsLimited (m : ℕ) (v : Vm N) : Type 0 where
    limit : v.max_executed_lines ≡ pos (suc m)
    below : v.executed_lines ≤ suc m
    nonempty : 1 ≤ length v.program.lines

  abbrev Ends : ℕ → (Vm N → Finish N) → ℕ → Type 0
  Ends m rest fuel =
      (w : Vm N) → IsLimited m w → rounds_left m w ≤ fuel → EndsWithin (m + 2) (rest w)
