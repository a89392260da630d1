-- ===== src/Optimizers/Programs.antt =====
-- pkg/optimizers: from expressions to programs, for a visitor that rewrites expressions.
pub mod Lines
use yodk.Common.{
  ◌≡◌, refl, ap, sym, ◌∙◌, List, [], ◌∷◌, Bool, true, false, Option, none, some, inl, inr,
  Bool-cases, if◌then◌else◌, map,
}
use mathlib.Core.Path.{fun_ext}
use yodk.Text.{Text, is}
use yodk.Text.Map.{Map}
use yodk.Ast.{
  Position, Dereference, Expression, Statement, Statements, ElseBlock, assignment, if_statement,
  goto_statement, deref_statement, nil, cons, no_else, else_block, Line, Program, dereference,
  absent,
}
use yodk.Ast.Positions.{statement_start}
use yodk.Ast.Visitor.{
  Accepted, accepted, accepted_then, accept_statement, accept_lines, accept_program,
  accept_statements, accept_else,
}
use yodk.Vm.Decimals.{Decimals, DecimalLaws}
use yodk.Vm.Variable.{Variable}
use yodk.Vm.State.{Vm, M, ◌>>=◌, ◌>>◌, lift, modify, set_variable}
use yodk.Vm.Expressions.{run_expr}
use yodk.Vm.Expressions.Laws.{run_binary_cong}
use yodk.Vm.Control.{check_source_line_changed, source_line_changed, aquire_coordinator_permission}
use yodk.Vm.Statements.{
  enter_statement, assigned_expression, run_assignment, condition_holds, jump_to, run_stmt,
  run_block, run_else, run_line_of, run_statements, run_under, run_line, run_coordinated,
  report_done, end_line,
}
use yodk.Optimizers.Static.Meaning.{LiteralsParse, optimize_expression-keeps_meaning}
use yodk.Optimizers.Compound.{evaluate_static, leave_variable, leave_comment}
use yodk.Optimizers.Static

module _ (Good : Expression → Type 0) where
  -- Every expression of the code is a good one.
  unfoldable mutual
    pub AllStatement : Statement → Type 0
    AllStatement (assignment position variable operator value) = Good value
    AllStatement (if_statement position condition if_block else_part) =
        Good condition × AllBlock if_block × AllElse else_part
    AllStatement (goto_statement position line) = Good line
    AllStatement (deref_statement d) = Unit

    pub AllBlock : Statements → Type 0
    AllBlock nil = Unit
    AllBlock (cons statement rest) = AllStatement statement × AllBlock rest

    pub AllElse : ElseBlock → Type 0
    AllElse no_else = Unit
    AllElse (else_block statements) = AllBlock statements

  abbrev pub AllLines : List Line → Type 0
  AllLines [] = Unit
  AllLines (line ∷ rest) = AllBlock line.statements × AllLines rest

module _ {N : Type 0} (D : Decimals N) where
  assigned_cong :
      (p : Position) (x op : Text) (e e' : Expression)
      → run_expr D e' ≡ run_expr D e
      → run_expr D (assigned_expression D p x op e') ≡ run_expr D (assigned_expression D p x op e)
  unfolding assigned_expression
  assigned_cong p x op e e' h = elim (Bool-cases (is op "=")) [
    | inl b ↦ rw b h
    | inr b ↦ rw b (run_binary_cong D _ _ _ _ _ refl h)
  ]

  run_assignment_cong :
      (p : Position) (x op : Text) (e e' : Expression)
      → run_expr D e' ≡ run_expr D e
      → run_stmt D (assignment p x op e') ≡ run_stmt D (assignment p x op e)
  unfolding run_stmt run_assignment enter_statement check_source_line_changed statement_start
  run_assignment_cong p x op e e' h =
      ap
        (λ (m : M N (Variable N)).
          enter_statement (assignment p x op e)
          >> (m >>= λ new_value. modify (set_variable x new_value)))
        (assigned_cong p x op e e' h)

  run_goto_cong :
      (p : Position) (e e' : Expression)
      → run_expr D e' ≡ run_expr D e
      → run_stmt D (goto_statement p e') ≡ run_stmt D (goto_statement p e)
  unfolding run_stmt enter_statement check_source_line_changed statement_start
  run_goto_cong p e e' h =
      ap
        (λ (m : M N (Variable N)).
          enter_statement (goto_statement p e) >> (m >>= λ target. jump_to D target))
        h

  run_if_cong :
      (p : Position) (e e' : Expression) (a a' : Statements) (b b' : ElseBlock)
      → run_expr D e' ≡ run_expr D e
      → run_block D a' ≡ run_block D a
      → run_else D b' ≡ run_else D b
      → run_stmt D (if_statement p e' a' b') ≡ run_stmt D (if_statement p e a b)
  unfolding run_stmt enter_statement check_source_line_changed statement_start
  run_if_cong p e e' a a' b b' h ha hb =
      ap (λ m. choose m (run_block D a') (run_else D b')) h
      ∙ ap (λ m. choose (run_expr D e) m (run_else D b')) ha
      ∙ ap (λ m. choose (run_expr D e) (run_block D a) m) hb
    where
      choose : M N (Variable N) → M N (Unit {0}) → M N (Unit {0}) → M N (Unit {0})
      choose m then_branch else_branch =
          enter_statement (if_statement p e a b)
          >> (m >>= λ result. lift (condition_holds D result) >>= λ holds.
              if holds then then_branch else else_branch)

  -- Two lists of lines that run alike, line by line.
  abbrev pub RunAlike : List Line → List Line → Type 0
  RunAlike [] [] = Unit
  RunAlike (line ∷ rest) (line' ∷ rest') =
      (run_line D line' ≡ run_line D line) × RunAlike rest rest'
  RunAlike _ _ = ⊥

  run_block_cong :
      (s s' : Statement) (b b' : Statements)
      → run_stmt D s' ≡ run_stmt D s
      → run_block D b' ≡ run_block D b
      → run_block D (cons s' b') ≡ run_block D (cons s b)
  unfolding run_block
  run_block_cong s s' b b' h k =
      ap (λ (m : M N (Unit {0})). m >> run_block D b') h
      ∙ ap (λ (m : M N (Unit {0})). run_stmt D s >> m) k

  run_under_cong :
      (c : Option (Map (Variable N))) (line line' : Line)
      → run_statements D line' ≡ run_statements D line
      → run_under D c line' ≡ run_under D c line
  unfolding run_under run_coordinated
  run_under_cong none line line' h = h
  run_under_cong (some globals) line line' h =
      ap
        (λ (m : M N (Unit {0})).
          aquire_coordinator_permission >>= λ (_ : Unit {0}). λ (v : Vm N). report_done (m v))
        h

  run_line_cong :
      (line line' : Line)
      → run_statements D line' ≡ run_statements D line
      → run_line D line' ≡ run_line D line
  unfolding run_line
  run_line_cong line line' h =
      fun_ext (λ v. ap (λ (m : M N (Unit {0})). m v) (run_under_cong v.coordinator line line' h))

  module _ (child : Expression → Unit {0} → Accepted (Unit {0}) Expression)
      (comment_of : Text → Text) (Good : Expression → Type 0)
      (keeps : (e : Expression)
        → Good e
        → (e' : Expression) × (child e tt ≡ accepted e' tt) × (run_expr D e' ≡ run_expr D e)) where
    mutual
      unfolding accept_statement run_block AllStatement

      keeps_statement :
          (s : Statement)
          → AllStatement Good s
          → (s' : Statement) × (accept_statement child leave_variable comment_of s tt
              ≡ accepted s' tt)
            × (run_stmt D s' ≡ run_stmt D s)
      keeps_statement (assignment p x op e) g =
          let (e', a, h) = keeps e g in
          (assignment p x op e', rw a refl, run_assignment_cong p x op e e' h)
      keeps_statement (if_statement p e b o) (g, gb, go) =
          let (e', a, h) = keeps e g in
          let (b', ab, hb) = keeps_block b gb in
          let (o', ao, ho) = keeps_else o go in
          (if_statement p e' b' o', rw (a, ab, ao) refl, run_if_cong p e e' b b' o o' h hb ho)
      keeps_statement (goto_statement p e) g =
          let (e', a, h) = keeps e g in (goto_statement p e', rw a refl, run_goto_cong p e e' h)
      keeps_statement (deref_statement d) g = (deref_statement d, refl, refl)

      keeps_block :
          (b : Statements)
          → AllBlock Good b
          → (b' : Statements) × (accept_statements child leave_variable comment_of b tt
              ≡ accepted b' tt)
            × (run_block D b' ≡ run_block D b)
      keeps_block nil g = (nil, refl, refl)
      keeps_block (cons s b) (g, gb) =
          let (s', a, h) = keeps_statement s g in
          let (b', ab, hb) = keeps_block b gb in
          (cons s' b', rw (a, ab) refl, run_block_cong s s' b b' h hb)

      keeps_else :
          (o : ElseBlock)
          → AllElse Good o
          → (o' : ElseBlock) × (accept_else child leave_variable comment_of o tt ≡ accepted o' tt)
            × (run_else D o' ≡ run_else D o)
      keeps_else no_else g = (no_else, refl, refl)
      keeps_else (else_block b) g =
          let (b', ab, hb) = keeps_block b g in (else_block b', rw ab refl, hb)

    keeps_line :
        (position : Position) (b : Statements) (comment comment' : Text)
        → AllBlock Good b
        → (b' : Statements) × (accept_statements child leave_variable comment_of b tt
            ≡ accepted b' tt)
          × (run_line D (record { position = position; statements = b'; comment = comment' })
              ≡ run_line D (record { position = position; statements = b; comment = comment }))
    unfolding accept_statement run_statements run_line_of AllBlock
    keeps_line position nil comment comment' g = (nil, refl, run_line_cong _ _ refl)
    keeps_line position (cons s b) comment comment' (g, gb) =
        let (s', a, h) = keeps_statement s g in
        let (b', ab, hb) = keeps_block b gb in
        (
          cons s' b',
          rw (a, ab) refl,
          run_line_cong _ _ (
              ap (λ (m : M N (Unit {0})). λ (v : Vm N). end_line (m v))
                (run_block_cong s s' b b' h hb)),
        )

    pub keeps_lines :
        (lines : List Line)
        → AllLines Good lines
        → (lines' : List Line) × (accept_lines child leave_variable comment_of lines tt
            ≡ accepted lines' tt)
          × (map Line.comment lines' ≡ map (λ line. comment_of (Line.comment line)) lines)
          × RunAlike lines lines'
    unfolding accept_lines
    keeps_lines [] g = ([], refl, refl, tt)
    keeps_lines (line ∷ rest) (g, gs) =
        let (b', a, h) =
          keeps_line line.position line.statements line.comment (comment_of line.comment) g in
        let (rest', more, cs, hs) = keeps_lines rest gs in
        (
          record line { statements = b'; comment = comment_of line.comment } ∷ rest',
          rw (a, more) refl,
          ap (λ (r : List Text). comment_of line.comment ∷ r) cs,
          (h, hs),
        )
