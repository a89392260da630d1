-- ===== src/Vm/Control/Pausing.antt =====
-- pkg/vm/vm.go: the states that pause and changeState leave the VM in.
use yodk.Common.{◌≡◌, refl, ◌⊎◌, inl, inr, List, [], ◌∷◌, Option, none, some}
use yodk.Vm.State.{
  Vm, VmState, paused, running, stepping, terminated, Outcome, done, failed, killed, waiting,
}
use yodk.Vm.Control.{await_request, pause, change_state, receive_from, receive_state}

module _ {N : Type 0} where
  -- Where a computation that was asked to change the state stops or goes on: it goes on running or
  -- stepping, it blocks paused, it ends terminated, and it makes no error.
  abbrev pub Settled : Outcome N (Unit {0}) → Type 0
  Settled (done a w) = (w.state ≡ running) ⊎ (w.state ≡ stepping)
  Settled (failed e w) = ⊥
  Settled (killed w) = w.state ≡ terminated
  Settled (waiting w) = w.state ≡ paused

  await_request-Settled :
      (rs : List (Option VmState)) (v : Vm N) → v.state ≡ paused → Settled (await_request rs v)
  unfolding await_request
  await_request-Settled [] v h = h
  await_request-Settled (none ∷ rs) v h = await_request-Settled rs v h
  await_request-Settled (some paused ∷ rs) v h = await_request-Settled rs v h
  await_request-Settled (some terminated ∷ rs) v h = refl
  await_request-Settled (some running ∷ rs) v h = inl refl
  await_request-Settled (some stepping ∷ rs) v h = inr refl

  pause-Settled : (v : Vm N) → Settled (pause v)
  unfolding pause
  pause-Settled v = await_request-Settled v.requests (record v { state = paused }) refl

  change_state-Settled : (s : VmState) (v : Vm N) → Settled (change_state s v)
  unfolding change_state
  change_state-Settled terminated v = refl
  change_state-Settled paused v = pause-Settled (record v { state = paused })
  change_state-Settled running v = inl refl
  change_state-Settled stepping v = inr refl

  receive_from-Settled :
      (rs : List (Option VmState)) (v : Vm N)
      → (v.state ≡ running) ⊎ (v.state ≡ stepping)
      → Settled (receive_from rs v)
  receive_from-Settled [] v h = h
  receive_from-Settled (none ∷ rs) v h = h
  receive_from-Settled (some s ∷ rs) v h = change_state-Settled s (record v { requests = rs })

  -- From any state of a VM, pause makes no error and leaves the VM running or stepping, or blocked in
  -- the paused state, or ended in the terminated state; so does changeState to any state. So does
  -- receiveState, of a VM that runs or steps.
  pub pause-Settled_all :
      (v active : Vm N) (s : VmState)
      → (active.state ≡ running) ⊎ (active.state ≡ stepping)
      → Settled (pause v) × Settled (change_state s v) × Settled (receive_state active)
  unfolding receive_state
  pause-Settled_all v active s h =
      (pause-Settled v, change_state-Settled s v, receive_from-Settled active.requests active h)
