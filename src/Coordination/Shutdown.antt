-- ===== src/Coordination/Shutdown.antt =====
-- pkg/vm/coordinator.go: the end of the coordinator's goroutine.
use yodk.Common.{
  ◌≡◌, ◌≢◌, refl, ℕ, zero, suc, ◌≤◌, List, [], ◌∷◌, length, arith, ap, Option, some, ◌∙◌,
}
use yodk.Coordination.{Turn, ran, left_before, left_after, run, go_on}
use yodk.Coordination.Turns.{turns_of, pass-turns_of}

abbrev left_of : (ℕ → Turn) → List ℕ → List ℕ
left_of turn xs = (turns_of turn xs).1

shorter_one :
    (turn : ℕ → Turn) (x : ℕ) (t : Turn) → turn x ≡ t → t ≢ ran → length (left_of turn (x ∷ [])) ≡ 0
unfolding turns_of
shorter_one turn x ran e h = absurd (h refl)
shorter_one turn x left_before e h = ground (arith, e)
shorter_one turn x left_after e h = ground (arith, e)

shorter_more :
    (turn : ℕ → Turn) (x y : ℕ) (ys : List ℕ) (t : Turn)
    → turn x ≡ t
    → t ≢ ran
    → length (left_of turn (x ∷ y ∷ ys)) ≡ suc (length (left_of turn ys))
unfolding turns_of
shorter_more turn x y ys ran e h = absurd (h refl)
shorter_more turn x y ys left_before e h = ground (arith, e)
shorter_more turn x y ys left_after e h = ground (arith, e)

length-left_of :
    (turn : ℕ → Turn) (xs : List ℕ)
    → ((vm : ℕ) → turn vm ≢ ran)
    → length (left_of turn xs) ≤ length xs
unfolding turns_of
length-left_of turn [] h = omega arith
length-left_of turn (x ∷ []) h = omega (arith, shorter_one turn x (turn x) refl (h x))
length-left_of turn (x ∷ y ∷ ys) h =
    omega (arith, shorter_more turn x y ys (turn x) refl (h x), length-left_of turn ys h)

length-left_of-lt :
    (turn : ℕ → Turn) (x : ℕ) (xs : List ℕ)
    → ((vm : ℕ) → turn vm ≢ ran)
    → length (left_of turn (x ∷ xs)) ≤ length xs
length-left_of-lt turn x [] h = omega (arith, shorter_one turn x (turn x) refl (h x))
length-left_of-lt turn x (y ∷ ys) h =
    omega (arith, shorter_more turn x y ys (turn x) refl (h x), length-left_of turn ys h)

-- a pass, and the rest of the passes
run-suc :
    (fuel : ℕ) (turns : ℕ → ℕ → Turn) (vms : List ℕ)
    → run (suc fuel) turns vms
      ≡ go_on
          (turns_of (turns 0) vms).0
          (left_of (turns 0) vms)
          (run fuel (λ n. turns (suc n)) (left_of (turns 0) vms))
unfolding run
run-suc fuel turns vms =
    ap (λ (r : List ℕ × List ℕ). go_on r.0 r.1 (run fuel (λ n. turns (suc n)) r.1))
      (pass-turns_of (turns 0) vms)

go_on-returns :
    (offered left : List ℕ) (rest : Option (List (List ℕ)))
    → (1 ≤ length left → (all : List (List ℕ)) × (rest ≡ some all))
    → (all : List (List ℕ)) × (go_on offered left rest ≡ some all)
go_on-returns offered [] rest h = (offered ∷ [], refl)
go_on-returns offered (vm ∷ others) rest h =
    let (all, e) = h (omega arith) in (offered ∷ all, rw e refl)

returns_from :
    (fuel : ℕ) (turns : ℕ → ℕ → Turn) (vms : List ℕ)
    → ((n vm : ℕ) → turns n vm ≢ ran)
    → length vms ≤ fuel
    → (all : List (List ℕ)) × (run (suc fuel) turns vms ≡ some all)
unfolding turns_of
returns_from fuel turns [] h k = (_, run-suc fuel turns [])
returns_from zero turns (x ∷ xs) h k = absurd (omega arith)
returns_from (suc fuel) turns (x ∷ xs) h k =
    let (all, e) =
      go_on-returns (turns_of (turns 0) (x ∷ xs)).0 (left_of (turns 0) (x ∷ xs)) _ (λ n.
        returns_from fuel (λ i. turns (suc i)) (left_of (turns 0) (x ∷ xs)) (λ i. h (suc i))
          (omega (arith, length-left_of-lt (turns 0) x xs (h 0)))) in
    (all, run-suc (suc fuel) turns (x ∷ xs) ∙ e)

-- When each VM leaves at its turn, as a VM that terminates does, the goroutine of the coordinator
-- returns, after at most one pass more than there are VMs.
pub run-returns :
    (turns : ℕ → ℕ → Turn) (vms : List ℕ)
    → ((n vm : ℕ) → turns n vm ≢ ran)
    → (all : List (List ℕ)) × (run (suc (length vms)) turns vms ≡ some all)
run-returns turns vms h = returns_from (length vms) turns vms h (omega arith)
