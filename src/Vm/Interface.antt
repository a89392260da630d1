-- ===== src/Vm/Interface.antt =====
-- pkg/vm/vm.go: what other goroutines call: state requests, handlers, and the inspection of the VM.
use yodk.Common.{ℕ, List, [], ◌∷◌, ◌++◌, Bool, Option, none, some}
use yodk.Common.Int.{ℤ}
use yodk.Text.{Text}
use yodk.Text.Map.{Map, insert}
use yodk.Ast.{Program}
use yodk.Vm.Operations.{Error}
use yodk.Vm.State.{Vm, VmState, paused, running, stepping, terminated}
use yodk.Vm.State
use yodk.Vm.Variable.{Variable}

module _ {N : Type 0} where
  -- requestState: the request is behind those that wait on the channel
  unfoldable pub request_state : VmState → Vm N → Vm N
  request_state s v = record v { requests = v.requests ++ some s ∷ [] }

  -- Resume
  unfoldable pub resume : Vm N → Vm N
  unfolding request_state
  resume v = request_state running v

  -- Step
  unfoldable pub step : Vm N → Vm N
  unfolding request_state
  step v = request_state stepping v

  -- Pause
  unfoldable pub request_pause : Vm N → Vm N
  unfolding request_state
  request_pause v = request_state paused v

  -- Terminate
  unfoldable pub terminate : Vm N → Vm N
  unfolding request_state
  terminate v = request_state terminated v

  -- State, CurrentSourceLine, CurrentSourceColoumn, CurrentAstLine, GetProgram
  abbrev pub state_of : Vm N → VmState
  state_of v = v.state

  abbrev pub current_source_line_of : Vm N → ℕ
  current_source_line_of v = v.current_source_line

  abbrev pub current_source_coloumn_of : Vm N → ℕ
  current_source_coloumn_of v = v.current_source_coloumn

  abbrev pub current_ast_line_of : Vm N → ℤ
  current_ast_line_of v = v.current_ast_line

  abbrev pub get_program : Vm N → Program
  get_program v = v.program

  -- SetBreakpointHandler
  unfoldable pub set_breakpoint_handler : Option (ℕ → Bool) → Vm N → Vm N
  set_breakpoint_handler handler v = record v { breakpoint_handler = handler }

  -- SetStepHandler
  unfoldable pub set_step_handler : Bool → Vm N → Vm N
  set_step_handler handler v = record v { step_handler = handler }

  -- SetErrorHandler
  unfoldable pub set_error_handler : Option (Error → Bool) → Vm N → Vm N
  set_error_handler handler v = record v { error_handler = handler }

  -- SetFinishHandler
  unfoldable pub set_finish_handler : Bool → Vm N → Vm N
  set_finish_handler handler v = record v { finish_handler = handler }

  -- ListBreakpoints
  unfoldable pub list_breakpoints : Vm N → List ℕ
  list_breakpoints v = v.breakpoints

  -- the globals over the variables of the VM
  unfoldable pub merge : Map (Variable N) → Map (Variable N) → Map (Variable N)
  merge [] variables = variables
  merge ((key, value) ∷ globals) variables = merge globals (insert key value variables)

  -- GetVariables
  unfoldable pub get_variables : Vm N → Map (Variable N)
  unfolding merge
  get_variables v = elim v.coordinator [
    | none ↦ v.variables
    | some globals ↦ merge globals v.variables
  ]

  -- GetVariable and SetVariable, which copy the variable
  abbrev pub inspect_variable : Text → Vm N → Option (Variable N)
  inspect_variable name v = State.get_variable name v

  abbrev pub write_variable : Text → Variable N → Vm N → Vm N
  write_variable name value v = State.set_variable name value v
