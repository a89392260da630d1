-- ===== src/Vm/Control.antt =====
-- pkg/vm/vm.go: state-change requests, pausing, stepping, breakpoints and the permission of the
-- coordinator.
pub mod Pausing
use yodk.Common.{
  ℕ, List, [], ◌∷◌, Bool, true, false, not, ◌&&◌, ◌||◌, Option, none, some, if◌then◌else◌, ◌==◌,
}
use yodk.Text.{is}
use yodk.Ast.{Position, Statement}
use yodk.Ast.Positions.{statement_start}
use yodk.Vm.State.{
  Vm, VmState, paused, running, stepping, terminated, M, done, killed, waiting, and_then, ◌>>=◌,
  ◌>>◌, modify, emit, stepped, breakpoint_hit, has_line,
}

abbrev pub is_stepping : VmState → Bool
is_stepping stepping = true
is_stepping _ = false

module _ {N : Type 0} where
  -- the loop of pause: take requests until one is for another state, and change to that
  unfoldable pub await_request : List (Option VmState) → M N (Unit {0})
  await_request [] v = waiting (record v { requests = [] })
  await_request (none ∷ rs) v = await_request rs v
  await_request (some paused ∷ rs) v = await_request rs v
  await_request (some terminated ∷ rs) v = killed (record v { state = terminated; requests = rs })
  await_request (some running ∷ rs) v = done tt (record v { state = running; requests = rs })
  await_request (some stepping ∷ rs) v = done tt (record v { state = stepping; requests = rs })

  -- pause
  unfoldable pub pause : M N (Unit {0})
  pause v = await_request v.requests (record v { state = paused })

  -- changeState
  unfoldable pub change_state : VmState → M N (Unit {0})
  change_state terminated v = killed (record v { state = terminated })
  change_state paused v = pause (record v { state = paused })
  change_state running v = done tt (record v { state = running })
  change_state stepping v = done tt (record v { state = stepping })

  -- receiveState, at what the channel holds
  abbrev pub receive_from : List (Option VmState) → M N (Unit {0})
  receive_from [] v = done tt v
  receive_from (none ∷ rs) v = done tt (record v { requests = rs })
  receive_from (some requested ∷ rs) v = change_state requested (record v { requests = rs })

  -- receiveState
  unfoldable pub receive_state : M N (Unit {0})
  receive_state v = receive_from v.requests v

  -- the part of sourceLineChanged that ends a step
  unfoldable pub end_step : M N (Unit {0})
  end_step v =
      if is_stepping v.state
      then pause (if v.step_handler then emit stepped v else v)
      else done tt v

  -- the call of the breakpoint handler, if there is one
  unfoldable pub ask_breakpoint : Option (ℕ → Bool) → M N (Unit {0})
  ask_breakpoint none v = done tt v
  ask_breakpoint (some continue_execution) v =
      let hit : Vm N = emit (breakpoint_hit v.current_source_line) v in
      if continue_execution v.current_source_line then done tt hit else pause hit

  -- the part of sourceLineChanged that looks for a breakpoint
  unfoldable pub check_breakpoint : M N (Unit {0})
  check_breakpoint v =
      if has_line v.current_source_line v.breakpoints
      then ask_breakpoint v.breakpoint_handler v
      else done tt v

  -- sourceLineChanged
  unfoldable pub source_line_changed : M N (Unit {0})
  source_line_changed = do end_step; check_breakpoint; receive_state

  -- checkSourceLineChanged
  unfoldable pub check_source_line_changed : Statement → M N (Unit {0})
  check_source_line_changed stmt v =
      let p : Position = statement_start stmt in
      if is p.file "" && (not (p.line == v.current_source_line) || v.jumped)
      then source_line_changed (record v { jumped = false; current_source_line = p.line })
      else done tt v

  -- the loop of aquireCoordinatorPermission
  unfoldable pub await_permission : List (Option VmState) → M N (Unit {0})
  await_permission [] v = waiting (record v { grants = [] })
  await_permission (none ∷ gs) v = done tt (record v { grants = gs })
  await_permission (some statechange ∷ gs) v =
      and_then (change_state statechange v) (λ _. await_permission gs)

  -- aquireCoordinatorPermission
  unfoldable pub aquire_coordinator_permission : M N (Unit {0})
  aquire_coordinator_permission v = await_permission v.grants v
