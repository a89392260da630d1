-- ===== src/Parsing/Printer/Plain/Programs.antt =====
-- pkg/parser/printer.go: what Print writes for statements, lines and programs.
use yodk.Common.{
  ◌≡◌, refl, sym, ℕ, suc, ◌+◌, Bool, true, false, not, ◌&&◌, ◌||◌, List, [], ◌∷◌, ◌++◌,
  append_assoc, if◌then◌else◌, ◌==◌, length, arith,
}
use mathlib.Core.Path.{subst}
use yodk.Text.{Text, codes, remove_byte}
use yodk.Ast.{
  Expression, Statement, Statements, ElseBlock, assignment, if_statement, goto_statement,
  deref_statement, nil, cons, no_else, else_block, Line, Program,
}
use yodk.Parsing.Printer.{
  PrinterMode, Printer, pre_visit, post_visit, inter_visit1, inter_visit2, child_visit, write,
  space, optional_space, newline, separate, print_if, print_deref, print_expression,
  print_statement, print_statements, print_else, no_statements, no_comment, print_comment,
  print_line, print_lines, print,
}
use yodk.Parsing.Printer.Squeezed.{
  squeeze, squeeze-append, Adds, Adds-then, Adds-write, Adds-space, Adds-if, Adds-nothing,
  Adds-behind, Adds-before, Adds-cast, Adds-optional_space, Adds-separate, Adds-spaced,
  Adds-print_deref_as,
}
use yodk.Parsing.Printer.Plain.{
  plain_expression, plain_statement, plain_statements, plain_else, plain_line, plain_lines,
}
use yodk.Parsing.Printer.Plain.Expressions.{Adds-print_expression}

regroup_if :
    (a c t b e d : Text) → ((((a ++ c) ++ t) ++ b) ++ e) ++ d ≡ a ++ (c ++ (t ++ (b ++ (e ++ d))))
regroup_if a c t b e d = simp append_assoc refl

Adds-print_assignment :
    (variable operator : Text)
    → Adds
        (squeeze variable ++ squeeze operator)
        (λ p. optional_space (write operator (optional_space (write variable p))))
Adds-print_assignment variable operator =
    Adds-behind (squeeze variable ++ squeeze operator)
      (λ p. write operator (optional_space (write variable p))) optional_space
      (Adds-then (squeeze variable) (squeeze operator) (λ p. optional_space (write variable p))
        (write operator)
        (Adds-behind (squeeze variable) (write variable) optional_space (Adds-write variable)
          Adds-optional_space)
        (Adds-write operator))
      Adds-optional_space

Adds-word : (s : Text) → Adds (squeeze s) (λ p. space (write s p))
Adds-word s = Adds-behind (squeeze s) (write s) space (Adds-write s) Adds-space

Adds-if_parts :
    (condition : Expression) (f g : Printer → Printer) (s t : Text)
    → Adds s f
    → Adds t g
    → Adds
        (codes "if" ++ (plain_expression condition ++ (codes "then" ++ (s ++ (t ++ codes "end")))))
        (λ p.
          print_if post_visit
            (g (f (print_if inter_visit1 (print_expression condition (print_if pre_visit p))))))
unfolding print_if remove_byte
Adds-if_parts condition f g s t h k =
    Adds-cast _ _
      (λ p.
        print_if post_visit
          (g (f (print_if inter_visit1 (print_expression condition (print_if pre_visit p))))))
      (regroup_if (codes "if") (plain_expression condition) (codes "then") s t (codes "end"))
      (Adds-then _ (codes "end")
        (λ p. g (f (print_if inter_visit1 (print_expression condition (print_if pre_visit p)))))
        (print_if post_visit)
        (Adds-then _ t
          (λ p. f (print_if inter_visit1 (print_expression condition (print_if pre_visit p)))) g
          (Adds-then _ s
            (λ p. print_if inter_visit1 (print_expression condition (print_if pre_visit p))) f
            (Adds-then _ (codes "then") (λ p. print_expression condition (print_if pre_visit p))
              (print_if inter_visit1)
              (Adds-then (codes "if") (plain_expression condition) (print_if pre_visit)
                (print_expression condition) (Adds-word (codes "if"))
                (Adds-print_expression condition))
              (Adds-spaced (codes "then")))
            h)
          k)
        (Adds-before (codes "end") space (write (codes "end")) Adds-space
          (Adds-write (codes "end"))))

mutual
  unfolding plain_statement print_statement print_if print_deref remove_byte

  Adds-print_statement : (s : Statement) → Adds (plain_statement s) (print_statement s)
  Adds-print_statement (assignment position variable operator value) =
      Adds-cast _ _ (print_statement (assignment position variable operator value))
        (append_assoc (squeeze variable) (squeeze operator) (plain_expression value))
        (Adds-then (squeeze variable ++ squeeze operator) (plain_expression value)
          (λ p. optional_space (write operator (optional_space (write variable p))))
          (print_expression value) (Adds-print_assignment variable operator)
          (Adds-print_expression value))
  Adds-print_statement (if_statement position condition if_block else_part) =
      Adds-if_parts condition (print_statements (λ i. print_if (child_visit i)) 0 if_block)
        (print_else else_part) _ _
        (Adds-print_statements (λ i. print_if (child_visit i)) Adds-separate 0 if_block)
        (Adds-print_else else_part)
  Adds-print_statement (goto_statement position line) =
      Adds-then (codes "goto") (plain_expression line) (λ p. space (write (codes "goto") p))
        (print_expression line) (Adds-word (codes "goto")) (Adds-print_expression line)
  Adds-print_statement (deref_statement d) = Adds-print_deref_as d.pre_post d.variable d.operator

  Adds-print_statements :
      (parent : ℕ → Printer → Printer)
      → ((i : ℕ) → Adds [] (parent i))
      → (i : ℕ) (b : Statements) → Adds (plain_statements b) (print_statements parent i b)
  Adds-print_statements parent h i nil = Adds-nothing
  Adds-print_statements parent h i (cons s rest) =
      Adds-then (plain_statement s) (plain_statements rest) (λ p. print_statement s (parent i p))
        (print_statements parent (suc i) rest)
        (Adds-before (plain_statement s) (parent i) (print_statement s) (h i)
          (Adds-print_statement s))
        (Adds-print_statements parent h (suc i) rest)

  Adds-print_else : (e : ElseBlock) → Adds (plain_else e) (print_else e)
  Adds-print_else no_else = Adds-nothing
  Adds-print_else (else_block b) =
      Adds-then (codes "else") (plain_statements b) (print_if inter_visit2)
        (print_statements (λ i. print_if (child_visit i)) 0 b) (Adds-spaced (codes "else"))
        (Adds-print_statements (λ i. print_if (child_visit i)) Adds-separate 0 b)

Adds-newline : Adds (10 ∷ []) newline
unfolding newline remove_byte
Adds-newline p = squeeze-append p.text (10 ∷ [])

squeeze-empty : (s : Text) → (length s == 0) ≡ true → squeeze s ≡ []
unfolding remove_byte
squeeze-empty [] h = refl
squeeze-empty (c ∷ s) h = absurd (ground (arith, h))

Adds-print_comment : (line : Line) → Adds (squeeze line.comment) (print_comment line)
unfolding print_comment
Adds-print_comment line = comment_cases (no_comment line) refl
  where
    comment_cases :
        (b : Bool)
        → no_comment line ≡ b
        → Adds (squeeze line.comment) (λ p.
          if b
          then p
          else write line.comment (if no_statements line.statements then p else space p))
    comment_cases true e =
        Adds-cast [] (squeeze line.comment) (λ p. p) (sym (squeeze-empty line.comment e))
          Adds-nothing
    comment_cases false e =
        Adds-before (squeeze line.comment)
          (λ p. if no_statements line.statements then p else space p) (write line.comment)
          (Adds-if (λ p. no_statements line.statements) [] (λ p. p) space Adds-nothing Adds-space)
          (Adds-write line.comment)

Adds-newline_if : (b : Bool) → Adds (if b then 10 ∷ [] else []) (λ p. if b then newline p else p)
Adds-newline_if true = Adds-newline
Adds-newline_if false = Adds-nothing

Adds-print_line :
    (is_last : Bool) (line : Line) → Adds (plain_line is_last line) (print_line is_last line)
unfolding print_line
Adds-print_line is_last line =
    let ends : Bool = not is_last || (no_statements line.statements && no_comment line) in
    Adds-then (plain_statements line.statements ++ squeeze line.comment)
      (if ends then 10 ∷ [] else [])
      (λ p. print_comment line (print_statements separate 0 line.statements p))
      (λ p. if ends then newline p else p)
      (Adds-then (plain_statements line.statements) (squeeze line.comment)
        (print_statements separate 0 line.statements) (print_comment line)
        (Adds-print_statements separate Adds-separate 0 line.statements) (Adds-print_comment line))
      (Adds-newline_if ends)

Adds-print_lines :
    (n c : ℕ) (lines : List Line)
    → c + length lines ≡ n
    → Adds (plain_lines lines) (print_lines n c lines)
unfolding print_lines plain_lines
Adds-print_lines n c [] h = Adds-nothing
Adds-print_lines n c (line ∷ []) h =
    let last : (c + 1 == n) ≡ true = ground (arith, h) in rw last (Adds-print_line true line)
Adds-print_lines n c (line ∷ next ∷ rest) h =
    let more : (c + 1 == n) ≡ false = ground (arith, h) in
    Adds-then (plain_line false line) (plain_lines (next ∷ rest)) (print_line (c + 1 == n) line)
      (print_lines n (c + 1) (next ∷ rest))
      (subst (λ b. Adds (plain_line false line) (print_line b line)) (sym more)
        (Adds-print_line false line))
      (Adds-print_lines n (c + 1) (next ∷ rest) (omega (arith, h)))

-- Without its spaces, the code that Print writes for a program is the code of its lines, in both modes:
-- each operator, name, constant, comment and keyword in its place, parentheses around a left operand whose
-- operator binds less and around a right one whose operator does not bind more, and a line feed behind every line but the last one, unless that is empty.
pub squeeze-print :
    (mode : PrinterMode) (prog : Program) → squeeze (print mode prog) ≡ plain_lines prog.lines
unfolding print remove_byte
squeeze-print mode prog =
    Adds-print_lines (length prog.lines) 0 prog.lines (omega arith)
      (record { mode = mode; text = []; last_was_space = false })
