-- ===== src/Coordination/Turns.antt =====
-- pkg/vm/coordinator.go: whose turn it is in a pass, and who is left.
use yodk.Common.{
  ◌≡◌, refl, ℕ, zero, suc, ◌≤◌, List, [], ◌∷◌, ◌++◌, length, arith, append_assoc, ap, ap₂, sym, ◌∙◌,
  none, some, append-nil,
}
use yodk.Coordination.{
  Turn, ran, left_before, left_after, pass, vm_at, remove_at, offer, take_turn, pass_at,
}

-- The VMs that are offered the permission, and those that are left, without indices: the VM behind
-- one that leaves has no turn.
unfoldable pub turns_of : (ℕ → Turn) → List ℕ → List ℕ × List ℕ
turns_of turn [] = ([], [])
turns_of turn (x ∷ []) = elim (turn x) [
  | ran ↦ (x ∷ [], x ∷ [])
  | left_before ↦ (x ∷ [], [])
  | left_after ↦ (x ∷ [], [])
]
turns_of turn (x ∷ y ∷ ys) =
    let kept = turns_of turn (y ∷ ys) in
    let skipped = turns_of turn ys in
    elim (turn x) [
      | ran ↦ (x ∷ kept.0, x ∷ kept.1)
      | left_before ↦ (x ∷ skipped.0, y ∷ skipped.1)
      | left_after ↦ (x ∷ skipped.0, y ∷ skipped.1)
    ]

vm_at-append : (done : List ℕ) (x : ℕ) (xs : List ℕ) → vm_at (length done) (done ++ x ∷ xs) ≡ some x
unfolding vm_at
vm_at-append [] x xs = refl
vm_at-append (y ∷ done) x xs = vm_at-append done x xs

vm_at-end : (done : List ℕ) → vm_at (length done) (done ++ []) ≡ none
unfolding vm_at
vm_at-end [] = refl
vm_at-end (y ∷ done) = vm_at-end done

remove_at-append :
    (done : List ℕ) (x : ℕ) (xs : List ℕ) → remove_at (length done) (done ++ x ∷ xs) ≡ done ++ xs
unfolding remove_at
remove_at-append [] x xs = refl
remove_at-append (y ∷ done) x xs = ap (λ (r : List ℕ). y ∷ r) (remove_at-append done x xs)

vm_at_past : (i : ℕ) (xs : List ℕ) → length xs ≤ i → vm_at i xs ≡ none
unfolding vm_at
vm_at_past i [] h = refl
vm_at_past zero (x ∷ xs) h = absurd (omega arith)
vm_at_past (suc i) (x ∷ xs) h = vm_at_past i xs (omega arith)

pass_end :
    (fuel : ℕ) (turn : ℕ → Turn) (i : ℕ) (xs : List ℕ)
    → length xs ≤ i
    → pass fuel turn i xs ≡ ([], xs)
unfolding pass
pass_end zero turn i xs h = refl
pass_end (suc fuel) turn i xs h = ap (λ o. pass_at o turn (pass fuel turn) i xs) (vm_at_past i xs h)

length-snoc : (done : List ℕ) (x : ℕ) → length (done ++ x ∷ []) ≡ suc (length done)
length-snoc [] x = refl
length-snoc (y ∷ done) x = ap (λ (n : ℕ). suc n) (length-snoc done x)

-- the pass from an index on, when the VMs before it had their turn
abbrev Spec : ℕ → (ℕ → Turn) → List ℕ → Type 0
Spec fuel turn xs =
    (done : List ℕ)
    → pass fuel turn (length done) (done ++ xs)
      ≡ ((turns_of turn xs).0, done ++ (turns_of turn xs).1)

pass_next :
    (fuel : ℕ) (turn : ℕ → Turn) (xs done : List ℕ) (x : ℕ)
    → Spec fuel turn xs
    → pass fuel turn (suc (length done)) (done ++ x ∷ xs)
      ≡ ((turns_of turn xs).0, done ++ x ∷ (turns_of turn xs).1)
pass_next fuel turn xs done x ih =
    ap₂ (λ (i : ℕ) (l : List ℕ). pass fuel turn i l) (sym (length-snoc done x))
      (sym (append_assoc done (x ∷ []) xs))
    ∙ ih (done ++ x ∷ [])
    ∙ ap (λ (l : List ℕ). ((turns_of turn xs).0, l))
        (append_assoc done (x ∷ []) (turns_of turn xs).1)

pass_turn :
    (fuel : ℕ) (turn : ℕ → Turn) (done : List ℕ) (x : ℕ) (xs : List ℕ)
    → pass (suc fuel) turn (length done) (done ++ x ∷ xs)
      ≡ take_turn x (turn x) (pass fuel turn) (length done) (done ++ x ∷ xs)
unfolding pass
pass_turn fuel turn done x xs =
    ap (λ o. pass_at o turn (pass fuel turn) (length done) (done ++ x ∷ xs))
      (vm_at-append done x xs)

-- the VM behind one that leaves is passed over
pass_skip :
    (fuel : ℕ) (turn : ℕ → Turn) (x y : ℕ) (ys done : List ℕ)
    → Spec fuel turn ys
    → pass fuel turn (suc (length done)) (remove_at (length done) (done ++ x ∷ y ∷ ys))
      ≡ ((turns_of turn ys).0, done ++ y ∷ (turns_of turn ys).1)
pass_skip fuel turn x y ys done ih =
    ap (pass fuel turn (suc (length done))) (remove_at-append done x (y ∷ ys))
    ∙ pass_next fuel turn ys done y ih

pass_last :
    (fuel : ℕ) (turn : ℕ → Turn) (x : ℕ) (done : List ℕ)
    → pass fuel turn (suc (length done)) (remove_at (length done) (done ++ x ∷ []))
      ≡ ([], done ++ [])
pass_last fuel turn x done =
    ap (pass fuel turn (suc (length done))) (remove_at-append done x [])
    ∙ pass_end fuel turn (suc (length done)) (done ++ [])
        (omega (arith, ap length (append-nil done)))

one_turn :
    (fuel : ℕ) (turn : ℕ → Turn) (x : ℕ) (done : List ℕ) (t : Turn)
    → turn x ≡ t
    → Spec fuel turn []
    → take_turn x t (pass fuel turn) (length done) (done ++ x ∷ [])
      ≡ ((turns_of turn (x ∷ [])).0, done ++ (turns_of turn (x ∷ [])).1)
unfolding turns_of
one_turn fuel turn x done ran e ih =
    rw (e, turns_of) (ap (offer x) (pass_next fuel turn [] done x ih))
one_turn fuel turn x done left_before e ih =
    rw (e, turns_of) (ap (offer x) (pass_last fuel turn x done))
one_turn fuel turn x done left_after e ih =
    rw (e, turns_of) (ap (offer x) (pass_last fuel turn x done))

first_turn :
    (fuel : ℕ) (turn : ℕ → Turn) (x y : ℕ) (ys done : List ℕ) (t : Turn)
    → turn x ≡ t
    → Spec fuel turn (y ∷ ys)
    → Spec fuel turn ys
    → take_turn x t (pass fuel turn) (length done) (done ++ x ∷ y ∷ ys)
      ≡ ((turns_of turn (x ∷ y ∷ ys)).0, done ++ (turns_of turn (x ∷ y ∷ ys)).1)
unfolding turns_of
first_turn fuel turn x y ys done ran e ih ih' =
    rw (e, turns_of) (ap (offer x) (pass_next fuel turn (y ∷ ys) done x ih))
first_turn fuel turn x y ys done left_before e ih ih' =
    rw (e, turns_of) (ap (offer x) (pass_skip fuel turn x y ys done ih'))
first_turn fuel turn x y ys done left_after e ih ih' =
    rw (e, turns_of) (ap (offer x) (pass_skip fuel turn x y ys done ih'))

pass_from : (fuel : ℕ) (turn : ℕ → Turn) (xs : List ℕ) → length xs ≤ fuel → Spec fuel turn xs
unfolding turns_of
pass_from fuel turn [] h done =
    pass_end fuel turn (length done) (done ++ []) (omega (arith, ap length (append-nil done)))
pass_from zero turn (x ∷ xs) h done = absurd (omega arith)
pass_from (suc fuel) turn (x ∷ []) h done =
    pass_turn fuel turn done x []
    ∙ one_turn fuel turn x done (turn x) refl (pass_from fuel turn [] (omega arith))
pass_from (suc fuel) turn (x ∷ y ∷ ys) h done =
    pass_turn fuel turn done x (y ∷ ys)
    ∙ first_turn fuel turn x y ys done (turn x) refl (pass_from fuel turn (y ∷ ys) (omega arith))
        (pass_from fuel turn ys (omega arith))

-- A pass of the coordinator offers the permission to each VM in order, except that the VM directly
-- behind one that leaves is passed over; those that leave are removed, and all others stay in order.
pub pass-turns_of :
    (turn : ℕ → Turn) (vms : List ℕ) → pass (length vms) turn 0 vms ≡ turns_of turn vms
pass-turns_of turn vms = pass_from (length vms) turn vms (omega arith) []
