-- ===== src/Coordination.antt =====
-- pkg/vm/coordinator.go: the coordinator runs the lines of several VMs in turn, and holds their global
-- variables. A VM is known by a number that stands for its pair of channels; what it does when it
-- is offered the permission, and after the permission, is an input.
pub mod Turns
pub mod Shutdown
use yodk.Common.{
  ℕ, zero, suc, List, [], ◌∷◌, ◌++◌, Bool, true, false, Option, none, some, if◌then◌else◌, ◌+◌, ltb,
  length,
}
use mathlib.Core.Option
use yodk.Text.{Text, to_lower}
use yodk.Text.Map.{Map, lookup, insert}
use yodk.Vm.Variable.{Variable}

-- Coordinator; `vms` stands for the three slices, which have one entry for each VM.
pub record Coordinator (N : Type 0) : Type 0 where
  pub vms : List ℕ
  pub global_variables : Map (Variable N)

-- What happens on the channels of a VM at its turn: it closed its done channel before it took the
-- permission, it closed it after it took it, or it ran a line and said so.
pub data Turn : Type 0 where
  left_before left_after ran : Turn

-- append(s[:idx], s[idx+1:]...)
unfoldable pub remove_at : ℕ → List ℕ → List ℕ
remove_at n [] = []
remove_at zero (x ∷ xs) = xs
remove_at (suc n) (x ∷ xs) = x ∷ remove_at n xs

-- the element at an index, if it is in range
unfoldable pub vm_at : ℕ → List ℕ → Option ℕ
vm_at n [] = none
vm_at zero (x ∷ xs) = some x
vm_at (suc n) (x ∷ xs) = vm_at n xs

module _ {N : Type 0} where
  -- NewCoordinator
  unfoldable pub new_coordinator : Coordinator N
  new_coordinator = record { vms = []; global_variables = [] }

  -- registerVM
  unfoldable pub register_vm : ℕ → Coordinator N → Coordinator N
  register_vm vm c = record c { vms = c.vms ++ vm ∷ [] }

  -- remove
  unfoldable pub remove : ℕ → Coordinator N → Coordinator N
  unfolding remove_at
  remove idx c = record c { vms = remove_at idx c.vms }

  -- GetVariable
  unfoldable pub get_variable : Text → Coordinator N → Option (Variable N)
  get_variable name c = lookup (to_lower name) c.global_variables

  -- SetVariable
  unfoldable pub set_variable : Text → Variable N → Coordinator N → Coordinator N
  set_variable name value c = record c {
    global_variables = insert (to_lower name) value c.global_variables;
  }

-- the rest of a pass, with the VM whose turn it was
abbrev pub offer : ℕ → List ℕ × List ℕ → List ℕ × List ℕ
offer vm r = (vm ∷ r.0, r.1)

-- one turn: a VM that leaves is removed from the slices, and the next index follows in each case
abbrev pub take_turn : ℕ → Turn → (ℕ → List ℕ → List ℕ × List ℕ) → ℕ → List ℕ → List ℕ × List ℕ
take_turn vm ran rest i vms = offer vm (rest (suc i) vms)
take_turn vm left_before rest i vms = offer vm (rest (suc i) (remove_at i vms))
take_turn vm left_after rest i vms = offer vm (rest (suc i) (remove_at i vms))

-- one round of the inner loop, which ends behind the last index
abbrev pub pass_at :
    Option ℕ → (ℕ → Turn) → (ℕ → List ℕ → List ℕ × List ℕ) → ℕ → List ℕ → List ℕ × List ℕ
pass_at none turn rest i vms = ([], vms)
pass_at (some vm) turn rest i vms = take_turn vm (turn vm) rest i vms

-- The inner loop of run from an index, on fuel: the VMs that were offered the permission, and those
-- that are left.
unfoldable pub pass : ℕ → (ℕ → Turn) → ℕ → List ℕ → List ℕ × List ℕ
unfolding vm_at remove_at
pass zero turn i vms = ([], vms)
pass (suc fuel) turn i vms = pass_at (vm_at i vms) turn (pass fuel turn) i vms

-- the end of the outer loop: it returns when no VM is left
abbrev pub go_on : List ℕ → List ℕ → Option (List (List ℕ)) → Option (List (List ℕ))
go_on offered [] rest = some (offered ∷ [])
go_on offered (vm ∷ others) rest = Option.map (λ (passes : List (List ℕ)). offered ∷ passes) rest

-- The loop of run, on fuel, where `turns` gives what happens at each pass; the result is the VMs that
-- were offered the permission, pass by pass.
unfoldable pub run : ℕ → (ℕ → ℕ → Turn) → List ℕ → Option (List (List ℕ))
unfolding pass
run zero turns vms = none
run (suc fuel) turns vms =
    let (offered, left) = pass (length vms) (turns 0) 0 vms in
    let rest = run fuel (λ n. turns (suc n)) left in go_on offered left rest
