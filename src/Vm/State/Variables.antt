-- ===== src/Vm/State/Variables.antt =====
-- pkg/vm/vm.go: the variables of a VM (getVariable, setVariable), local and global.
use yodk.Common.{◌≡◌, refl, Option, none, some, if◌then◌else◌, arith}
use yodk.Text.{Text, to_lower, text_eq}
use yodk.Text.Laws.{eq_of_text_eq}
use yodk.Text.Map.{Map, lookup-insert}
use yodk.Vm.Variable.{Variable}
use yodk.Vm.State.{Vm, get_variable, set_variable}

module _ {N : Type 0} where
  set_global :
      (c : Option (Map (Variable N))) (a b : Text) (x : Variable N) (v : Vm N)
      → v.coordinator ≡ c
      → get_variable a (set_variable b x v)
        ≡ (if text_eq (to_lower b) (to_lower a) then some x else get_variable a v)
  unfolding get_variable set_variable
  set_global none a b x v h = rw h (lookup-insert (to_lower b) (to_lower a) x v.variables)
  set_global (some globals) a b x v h = rw h (
      ground (
        arith,
        lookup-insert (to_lower b) (to_lower a) x v.variables,
        lookup-insert (to_lower b) (to_lower a) x globals,
        eq_of_text_eq (to_lower b) (to_lower a),
      ))

  -- After an assignment to `b`, the names that are `b` but for their case have the new value, and
  -- all others have the value they had, with a coordinator and without one.
  pub get_variable-set_variable :
      (a b : Text) (x : Variable N) (v : Vm N)
      → get_variable a (set_variable b x v)
        ≡ (if text_eq (to_lower b) (to_lower a) then some x else get_variable a v)
  get_variable-set_variable a b x v = set_global v.coordinator a b x v refl
