-- ===== src/Optimizers/Compound.antt =====
-- pkg/optimizers/optimizer.go and comments.go: the optimizer of whole programs.
use yodk.Common.{[]}
use yodk.Text.{Text}
use yodk.Ast.{Program}
use yodk.Ast.Visitor.{Accepted, accepted, rejected, exhausted, accepted_then, accept_program}
use yodk.Vm.Decimals.{Decimals}
use yodk.Optimizers.Static
use yodk.Optimizers.Static.{height}
use yodk.Optimizers.Inversion
use yodk.Optimizers.Names
use yodk.Optimizers.Names.{VariableNameOptimizer}

-- a program and its error, without the state of the visitor
abbrev keep_names :
    VariableNameOptimizer → Accepted (Unit {0}) Program → Accepted VariableNameOptimizer Program
keep_names o (accepted p s) = accepted p o
keep_names o (rejected t) = rejected t
keep_names o exhausted = exhausted

abbrev pub leave_variable : Text → Unit {0} → Text × Unit {0}
leave_variable variable s = (variable, s)

abbrev pub leave_comment : Text → Text
leave_comment comment = comment

-- CommentOptimizer.Optimize
unfoldable pub remove_comments : Program → Accepted (Unit {0}) Program
unfolding accept_program
remove_comments prog = accept_program (λ e s. accepted e s) leave_variable (λ _. []) prog tt

-- ExpressionInversionOptimizer.Optimize
unfoldable pub invert_expressions : Program → Accepted (Unit {0}) Program
unfolding accept_program Inversion.optimize_expression
invert_expressions prog =
    accept_program (λ e s. Inversion.optimize_expression e) leave_variable leave_comment prog tt

module _ {N : Type 0} (D : Decimals N) where
  -- StaticExpressionOptimizer.Optimize
  unfoldable pub evaluate_static : Program → Accepted (Unit {0}) Program
  unfolding accept_program Static.optimize_expression
  evaluate_static prog =
      accept_program (λ e s. Static.optimize_expression D e) leave_variable leave_comment prog tt

  -- CompoundOptimizer.Optimize
  unfoldable pub optimize : Program → VariableNameOptimizer → Accepted VariableNameOptimizer Program
  unfolding evaluate_static remove_comments invert_expressions Names.optimize
  optimize prog o = accepted_then (keep_names o (evaluate_static prog)) (λ p₁ o₁.
      accepted_then (keep_names o₁ (remove_comments p₁)) (λ p₂ o₂.
        accepted_then (keep_names o₂ (invert_expressions p₂)) (λ p₃ o₃. Names.optimize p₃ o₃)))
