-- ===== src/Examples/Other.antt =====
-- The theorems on the coordinator and on the validator, applied.
use yodk.Common.{◌≡◌, refl, ℕ, List, [], ◌∷◌, some, if◌then◌else◌, ◌==◌}
use yodk.Coordination.{Turn, ran, left_before, left_after, pass, run}
use yodk.Coordination.Turns.{turns_of, pass-turns_of}
use yodk.Coordination.Shutdown.{run-returns}

-- the VM 1 leaves
abbrev leaving : ℕ → Turn
leaving vm = if vm == 1 then left_after else ran

pass-turns_of_example : pass 3 leaving 0 (1 ∷ 2 ∷ 3 ∷ []) ≡ turns_of leaving (1 ∷ 2 ∷ 3 ∷ [])
pass-turns_of_example = pass-turns_of leaving (1 ∷ 2 ∷ 3 ∷ [])

-- so it is the VM 3 whose turn is next
skipped : turns_of leaving (1 ∷ 2 ∷ 3 ∷ []) ≡ (1 ∷ 3 ∷ [], 2 ∷ 3 ∷ [])
unfolding turns_of
skipped = refl

run-returns_example :
    (all : List (List ℕ)) × (run 4 (λ n vm. left_before) (1 ∷ 2 ∷ 3 ∷ []) ≡ some all)
run-returns_example = run-returns (λ n vm. left_before) (1 ∷ 2 ∷ 3 ∷ []) (λ n vm. cc)
