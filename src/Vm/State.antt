-- ===== src/Vm/State.antt =====
-- pkg/vm/vm.go: the fields of a VM, its setters, and the monad in which the worker goroutine runs.
-- The other goroutines are inputs: `requests` and `grants` list what the worker receives from the
-- channels, in order, and `events` records what it tells the handlers and the coordinator.
pub mod Laws
pub mod Variables
pub mod Breakpoints
use yodk.Common.{
  ℕ, List, [], ◌∷◌, ◌++◌, Bool, true, false, Option, none, some, if◌then◌else◌, ◌==◌, not,
}
use yodk.Common.Int.{ℤ, pos}
use yodk.Text.{Text, to_lower, has_prefix, codes}
use yodk.Text.Map.{Map, lookup, insert}
use yodk.Ast.{Program}
use yodk.Vm.Variable.{Variable}
use yodk.Vm.Operations.{Error, Result, ok, err}

-- StatePaused, StateRunning, StateStepping, StateTerminated
pub data VmState : Type 0 where
  paused running stepping terminated : VmState

-- a call of a handler, or a message on the coordinator's done channel
pub data Event : Type 0 where
  stepped finished line_done : Event
  breakpoint_hit : ℕ → Event
  error_reported : Error → Event

-- VM. A handler that is set is known by its answers: to a breakpoint at a source line, and to an
-- error. `coordinator` holds the global variables of the coordinator, if the VM has one.
pub record Vm (N : Type 0) : Type 0 where
  pub program : Program
  pub variables : Map (Variable N)
  pub coordinator : Option (Map (Variable N))
  pub breakpoints : List ℕ
  pub breakpoint_handler : Option (ℕ → Bool)
  pub error_handler : Option (Error → Bool)
  pub step_handler : Bool
  pub finish_handler : Bool
  pub current_ast_line : ℤ
  pub current_source_line : ℕ
  pub current_source_coloumn : ℕ
  pub jumped : Bool
  pub state : VmState
  pub iterations : ℤ
  pub max_executed_lines : ℤ
  pub executed_iterations : ℕ
  pub executed_lines : ℕ
  -- what the select of receiveState and the receive in pause find: `none` is no request
  pub requests : List (Option VmState)
  -- what the select of aquireCoordinatorPermission receives: `none` is the permission
  pub grants : List (Option VmState)
  pub events : List Event

-- How a step of the worker ends: with a value, with an error that the caller handles, with the
-- panic errKillVM, or blocked on a channel on which nothing arrives.
pub data Outcome (N : Type 0) (A : Type 0) : Type 0 where
  done : A → Vm N → Outcome N A
  failed : Error → Vm N → Outcome N A
  killed : Vm N → Outcome N A
  waiting : Vm N → Outcome N A

-- whether a line is in the set of breakpoints
unfoldable pub has_line : ℕ → List ℕ → Bool
has_line n [] = false
has_line n (m ∷ ms) = if m == n then true else has_line n ms

unfoldable pub remove_line : ℕ → List ℕ → List ℕ
remove_line n [] = []
remove_line n (m ∷ ms) = if m == n then remove_line n ms else m ∷ remove_line n ms

abbrev pub M : Type 0 → Type 0 → Type 0
M N A = Vm N → Outcome N A

module _ {N : Type 0} where
  -- the rest of a computation after one that may have failed, as Go's `if err != nil { return err }`
  abbrev pub and_then : {A B : Type 0} → Outcome N A → (A → M N B) → Outcome N B
  and_then (done a v) f = f a v
  and_then (failed e v) f = failed e v
  and_then (killed v) f = killed v
  and_then (waiting v) f = waiting v

  infixl 5 ◌>>=◌ ◌>>◌
  abbrev pub ◌>>=◌ : {A B : Type 0} → M N A → (A → M N B) → M N B
  ◌>>=◌ m f v = and_then (m v) f

  abbrev pub ◌>>◌ : {A B : Type 0} → M N A → M N B → M N B
  ◌>>◌ m k v = and_then (m v) (λ _. k)

  abbrev pub return : {A : Type 0} → A → M N A
  return a v = done a v

  -- the result of an operator as a step of the VM
  abbrev pub lift : {A : Type 0} → Result A → M N A
  lift (ok a) v = done a v
  lift (err e) v = failed e v

  abbrev pub modify : (Vm N → Vm N) → M N (Unit {0})
  modify f v = done tt (f v)

  abbrev pub emit : Event → Vm N → Vm N
  emit e v = record v { events = v.events ++ e ∷ [] }

  -- Create; the goroutine then starts in `run`
  unfoldable pub create : Program → List (Option VmState) → List (Option VmState) → Vm N
  create prog requests grants = record {
    program = prog;
    variables = [];
    coordinator = none;
    breakpoints = [];
    breakpoint_handler = none;
    error_handler = none;
    step_handler = false;
    finish_handler = false;
    current_ast_line = pos 1;
    current_source_line = 1;
    current_source_coloumn = 0;
    jumped = false;
    state = paused;
    iterations = pos 1;
    max_executed_lines = pos 0;
    executed_iterations = 0;
    executed_lines = 0;
    requests = requests;
    grants = grants;
    events = [];
  }

  -- SetIterations
  unfoldable pub set_iterations : ℤ → Vm N → Vm N
  set_iterations reps v = record v { iterations = reps }

  -- SetMaxExecutedLines
  unfoldable pub set_max_executed_lines : ℤ → Vm N → Vm N
  set_max_executed_lines lines v = record v { max_executed_lines = lines }

  -- AddBreakpoint; the list stands for the set of keys of a map
  unfoldable pub add_breakpoint : ℕ → Vm N → Vm N
  unfolding has_line
  add_breakpoint line v =
      if has_line line v.breakpoints then v else record v { breakpoints = line ∷ v.breakpoints }

  -- RemoveBreakpoint
  unfoldable pub remove_breakpoint : ℕ → Vm N → Vm N
  unfolding remove_line
  remove_breakpoint line v = record v { breakpoints = remove_line line v.breakpoints }

  -- SetCoordinator, at a coordinator with the given global variables
  unfoldable pub set_coordinator : Map (Variable N) → Vm N → Vm N
  set_coordinator globals v = record v { coordinator = some globals }

  -- getVariable: whether `:name` is global depends on the coordinator
  unfoldable pub get_variable : Text → Vm N → Option (Variable N)
  get_variable name v = elim v.coordinator [
    | none ↦ lookup (to_lower name) v.variables
    | some globals ↦
        if has_prefix (to_lower name) (codes ":")
        then lookup (to_lower name) globals
        else lookup (to_lower name) v.variables
  ]

  -- setVariable
  unfoldable pub set_variable : Text → Variable N → Vm N → Vm N
  set_variable name value v = elim v.coordinator [
    | none ↦ record v { variables = insert (to_lower name) value v.variables }
    | some globals ↦
        if has_prefix (to_lower name) (codes ":")
        then record v { coordinator = some (insert (to_lower name) value globals) }
        else record v { variables = insert (to_lower name) value v.variables }
  ]
