-- ===== src/Vm/State/Breakpoints.antt =====
-- pkg/vm/vm.go: the set of breakpoints (AddBreakpoint, RemoveBreakpoint).
use yodk.Common.{◌≡◌, ℕ, List, [], ◌∷◌, not, ◌&&◌, ◌||◌, ◌==◌, arith}
use yodk.Vm.State.{Vm, has_line, remove_line, add_breakpoint, remove_breakpoint}

has_line-remove_line :
    (m n : ℕ) (lines : List ℕ)
    → has_line m (remove_line n lines) ≡ (not (m == n) && has_line m lines)
unfolding has_line remove_line
has_line-remove_line m n [] = ground arith
has_line-remove_line m n (l ∷ lines) = ground (arith, has_line-remove_line m n lines)

has_line-add_breakpoint :
    {N : Type 0} (m n : ℕ) (v : Vm N)
    → has_line m (add_breakpoint n v).breakpoints ≡ ((m == n) || has_line m v.breakpoints)
unfolding has_line add_breakpoint
has_line-add_breakpoint m n v = ground arith

-- The breakpoints are a set of lines: a line has one exactly if it was added last, or had one and
-- was not removed last.
pub has_line-breakpoints :
    {N : Type 0} (m n : ℕ) (v : Vm N)
    → (has_line m (add_breakpoint n v).breakpoints ≡ ((m == n) || has_line m v.breakpoints))
      × (has_line m (remove_breakpoint n v).breakpoints
          ≡ (not (m == n) && has_line m v.breakpoints))
unfolding remove_breakpoint
has_line-breakpoints m n v = (has_line-add_breakpoint m n v, has_line-remove_line m n v.breakpoints)
