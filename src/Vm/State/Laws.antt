-- ===== src/Vm/State/Laws.antt =====
-- Inversion of the computations of the VM that succeed.
use yodk.Common.{◌≡◌, refl}
use yodk.Vm.Operations.{Result, ok, err}
use yodk.Vm.State.{Vm, M, Outcome, done, failed, killed, waiting, and_then, lift}

module _ {N : Type 0} where
  pub and_then-done :
      {A B : Type 0} (o : Outcome N A) (f : A → M N B) {b : B} {v' : Vm N}
      → and_then o f ≡ done b v'
      → (a : A) × (v₁ : Vm N) × (o ≡ done a v₁) × (f a v₁ ≡ done b v')
  and_then-done (done a v₁) f h = (a, v₁, refl, h)
  and_then-done (failed e v₁) f h = cc
  and_then-done (killed v₁) f h = cc
  and_then-done (waiting v₁) f h = cc

  pub lift-done :
      {A : Type 0} (r : Result A) {a : A} {v v' : Vm N}
      → lift r v ≡ done a v'
      → (r ≡ ok a) × (v ≡ v')
  lift-done (ok a) h = (cc, cc)
  lift-done (err e) h = cc
