-- ===== src/Ast/Visitor.antt =====
-- pkg/parser/ast/visitor.go: the traversal of the tree by a visitor, with node replacement.
-- A visitor changes its own state and the visited node, and may ask for a replacement of the node.
-- Replacements are of expressions: no visitor modelled here replaces a statement or a line.
use yodk.Common.{ℕ, zero, suc, List, [], ◌∷◌}
use yodk.Text.{Text}
use yodk.Ast.{
  Expression, unary_operation, binary_operation, Statement, Statements, ElseBlock, assignment,
  if_statement, goto_statement, deref_statement, nil, cons, no_else, else_block, Line, Program,
}

-- PreVisit, PostVisit, SingleVisit, InterVisit1
pub data Visit : Type 0 where
  pre_visit post_visit single_visit inter_visit1 : Visit

-- What Visit returns: nil with the node as it now is, a NodeReplacement (to be visited again, or
-- with Skip), or another error.
pub data Verdict : Type 0 where
  keep : Expression → Verdict
  replace : Expression → Verdict
  replace_skip : Expression → Verdict
  refuse : Text → Verdict

-- Visitor, over a state S
abbrev pub Visitor : Type 0 → Type 0
Visitor S = Visit → Expression → S → Verdict × S

-- What Accept returns for an expression. `unfinished`: the fuel ran out below.
pub data Visited (S : Type 0) : Type 0 where
  kept : Expression → S → Visited S
  replaced : Expression → S → Visited S
  replaced_skip : Expression → S → Visited S
  stopped : Text → Visited S
  unfinished : Visited S

-- What AcceptChild returns for a node: the node that stands there now, or an error.
pub data Accepted (S T : Type 0) : Type 0 where
  accepted : T → S → Accepted S T
  rejected : Text → Accepted S T
  exhausted : Accepted S T

module _ {S : Type 0} where
  abbrev pub visited : Verdict × S → Visited S
  visited (keep e, s) = kept e s
  visited (replace e, s) = replaced e s
  visited (replace_skip e, s) = replaced_skip e s
  visited (refuse t, s) = stopped t

  -- `if err != nil { return err }` behind the visit of a child
  abbrev pub after_child : Accepted S Expression → (Expression → S → Visited S) → Visited S
  after_child (accepted e s) k = k e s
  after_child (rejected t) k = stopped t
  after_child exhausted k = unfinished

  abbrev pub after_visit : Verdict × S → (Expression → S → Visited S) → Visited S
  after_visit (keep e, s) k = k e s
  after_visit (replace e, s) k = replaced e s
  after_visit (replace_skip e, s) k = replaced_skip e s
  after_visit (refuse t, s) k = stopped t

  module _ (visit : Visitor S) where
    -- Accept behind the PreVisit: the children, then the PostVisit. What InterVisit1 of a binary
    -- operation returns is overwritten by the result of its second child.
    unfoldable pub accept_rest :
        (Expression → S → Accepted S Expression) → Expression → S → Visited S
    accept_rest child (unary_operation position operator exp) s =
        after_child (child exp s)
          (λ exp' s'. visited (visit post_visit (unary_operation position operator exp') s'))
    accept_rest child (binary_operation operator exp1 exp2) s =
        after_child (child exp1 s) (λ exp1' s₁.
          let s₂ = (visit inter_visit1 (binary_operation operator exp1' exp2) s₁).1 in
          after_child (child exp2 s₂)
            (λ exp2' s₃. visited (visit post_visit (binary_operation operator exp1' exp2') s₃)))
    accept_rest child leaf s = kept leaf s

    -- Accept of the expression nodes, with AcceptChild for the children
    unfoldable pub accept : (Expression → S → Accepted S Expression) → Expression → S → Visited S
    unfolding accept_rest
    accept child (unary_operation position operator exp) s =
        after_visit (visit pre_visit (unary_operation position operator exp) s) (accept_rest child)
    accept child (binary_operation operator exp1 exp2) s =
        after_visit (visit pre_visit (binary_operation operator exp1 exp2) s) (accept_rest child)
    accept child leaf s = visited (visit single_visit leaf s)

    -- AcceptChild: visit a replacement again, unless it says Skip
    unfoldable pub accept_child : ℕ → Expression → S → Accepted S Expression
    unfolding accept
    accept_child zero e s = exhausted
    accept_child (suc fuel) e s = elim (accept (accept_child fuel) e s) [
      | kept e' s' ↦ accepted e' s'
      | replaced e' s' ↦ accept_child fuel e' s'
      | replaced_skip e' s' ↦ accepted e' s'
      | stopped t ↦ rejected t
      | unfinished ↦ exhausted
    ]

module _ {S T U : Type 0} where
  abbrev pub accepted_then : Accepted S T → (T → S → Accepted S U) → Accepted S U
  accepted_then (accepted t s) k = k t s
  accepted_then (rejected m) k = rejected m
  accepted_then exhausted k = exhausted

-- Accept of statements, lines and the program, for a visitor that at most changes the variable of an
-- assignment or of a dereference (`rename`, at PreVisit and SingleVisit) and the comment of a line
-- (`comment_of`). AcceptChildStatements and AcceptChildLines are the loops.
module _ {S : Type 0} (child : Expression → S → Accepted S Expression)
    (rename : Text → S → Text × S) (comment_of : Text → Text) where
  unfoldable mutual
    pub accept_statement : Statement → S → Accepted S Statement
    accept_statement (assignment position variable operator value) s =
        let (variable', s₁) = rename variable s in
        accepted_then (child value s₁)
          (λ value' s'. accepted (assignment position variable' operator value') s')
    accept_statement (if_statement position condition if_block else_part) s =
        accepted_then (child condition s) (λ condition' s₁.
          accepted_then (accept_statements if_block s₁) (λ if_block' s₂.
            accepted_then (accept_else else_part s₂) (λ else_part' s₃.
              accepted (if_statement position condition' if_block' else_part') s₃)))
    accept_statement (goto_statement position line) s =
        accepted_then (child line s) (λ line' s'. accepted (goto_statement position line') s')
    accept_statement (deref_statement d) s =
        let (variable', s') = rename d.variable s in
        accepted (deref_statement (record d { variable = variable' })) s'

    pub accept_statements : Statements → S → Accepted S Statements
    accept_statements nil s = accepted nil s
    accept_statements (cons statement rest) s =
        accepted_then (accept_statement statement s) (λ statement' s₁.
          accepted_then (accept_statements rest s₁)
            (λ rest' s₂. accepted (cons statement' rest') s₂))

    pub accept_else : ElseBlock → S → Accepted S ElseBlock
    accept_else no_else s = accepted no_else s
    accept_else (else_block statements) s =
        accepted_then (accept_statements statements s) (λ b s'. accepted (else_block b) s')

  unfoldable pub accept_lines : List Line → S → Accepted S (List Line)
  unfolding accept_statement
  accept_lines [] s = accepted [] s
  accept_lines (line ∷ rest) s =
      accepted_then (accept_statements line.statements s) (λ statements' s₁.
        accepted_then (accept_lines rest s₁) (λ rest' s₂.
          accepted
            (record line { statements = statements'; comment = comment_of line.comment } ∷ rest')
            s₂))

  unfoldable pub accept_program : Program → S → Accepted S Program
  unfolding accept_lines
  accept_program p s =
      accepted_then (accept_lines p.lines s) (λ lines' s'. accepted (record { lines = lines' }) s')
