-- ===== src/Optimizers/Programs/Lines.antt =====
-- pkg/optimizers: what the optimizers of constant expressions and of comments do to whole programs.
use yodk.Common.{◌≡◌, refl, List, [], ◌∷◌, map}
use mathlib.Core.Path.{fun_ext}
use yodk.Ast.{
  Expression, Line, Program, Statement, Statements, ElseBlock, assignment, if_statement,
  goto_statement, deref_statement, nil, cons, no_else, else_block,
}
use yodk.Ast.Visitor.{accepted, accept_program}
use yodk.Vm.Decimals.{Decimals, DecimalLaws}
use yodk.Optimizers.Static
use yodk.Optimizers.Static.Meaning.{LiteralsParse, Returns, optimize_expression-keeps_meaning}
use yodk.Optimizers.Compound.{evaluate_static, remove_comments, leave_comment}
use yodk.Optimizers.Programs.{AllStatement, AllBlock, AllElse, AllLines, RunAlike, keeps_lines}

module _ {N : Type 0} (D : Decimals N) (L : DecimalLaws D) where
  -- Optimize of the static expression optimizer returns a program, for every program whose number
  -- literals are those that NewFromString reads, and in which every operation on operands of a constant
  -- value returns, that is, no function of decimal panics there. The result has as many lines, and each
  -- of them runs as the original line does, from every state of the VM: to the same end, state and
  -- messages.
  pub evaluate_static-keeps_lines :
      (p : Program)
      → AllLines (λ e. LiteralsParse D e × Returns D e) p.lines
      → (lines' : List Line) × (evaluate_static D p ≡ accepted (record { lines = lines' }) tt)
        × RunAlike D p.lines lines'
  unfolding evaluate_static accept_program
  evaluate_static-keeps_lines p g =
      let (lines', a, c, h) =
        keeps_lines D (λ e s. Static.optimize_expression D e) leave_comment
          (λ e. LiteralsParse D e × Returns D e)
          (λ e good.
            let (e', a, r, s) = optimize_expression-keeps_meaning D L e good.0 good.1 in
            (e', a, fun_ext r))
          p.lines g in
      (lines', rw a refl, h)

-- the condition that asks nothing
abbrev Anything : Expression → Type 0
Anything e = Unit

mutual
  unfolding AllStatement

  any_statement : (s : Statement) → AllStatement Anything s
  any_statement (assignment position variable operator value) = tt
  any_statement (if_statement position condition if_block else_part) =
      (tt, any_block if_block, any_else else_part)
  any_statement (goto_statement position line) = tt
  any_statement (deref_statement d) = tt

  any_block : (b : Statements) → AllBlock Anything b
  any_block nil = tt
  any_block (cons s b) = (any_statement s, any_block b)

  any_else : (o : ElseBlock) → AllElse Anything o
  any_else no_else = tt
  any_else (else_block b) = any_block b

any_lines : (lines : List Line) → AllLines Anything lines
any_lines [] = tt
any_lines (line ∷ rest) = (any_block line.statements, any_lines rest)

module _ {N : Type 0} (D : Decimals N) where
  -- Optimize of the comment optimizer returns a program with as many lines, all without a comment, each
  -- of which runs as the original line does, from every state of the VM.
  pub remove_comments-keeps_lines :
      (p : Program)
      → (lines' : List Line) × (remove_comments p ≡ accepted (record { lines = lines' }) tt)
        × (map Line.comment lines' ≡ map (λ line. []) p.lines)
        × RunAlike D p.lines lines'
  unfolding remove_comments accept_program
  remove_comments-keeps_lines p =
      let (lines', a, c, h) =
        keeps_lines D (λ e s. accepted e s) (λ _. []) Anything (λ e good. (e, refl, refl)) p.lines
          (any_lines p.lines) in
      (lines', rw a refl, c, h)
