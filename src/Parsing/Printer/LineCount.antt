-- ===== src/Parsing/Printer/LineCount.antt =====
-- pkg/parser/printer.go: how many lines the code has that Print writes.
use mathlib.Core.Path.{subst}
use yodk.Common.{
  ◌≡◌, refl, ap, ◌∙◌, ℕ, suc, ◌+◌, Bool, true, false, not, ◌&&◌, ◌||◌, List, [], ◌∷◌, ◌++◌,
  if◌then◌else◌, length, arith,
}
use yodk.Text.{Text, codes}
use yodk.Ast.{
  Dereference, PrePost, absent, pre, post, Expression, string_constant, number_constant,
  dereference, unary_operation, binary_operation, Statement, Statements, ElseBlock, assignment,
  if_statement, goto_statement, deref_statement, nil, cons, no_else, else_block, Line, Program,
}
use yodk.Parsing.Tokenizer.Escapes.{escaped, insert_escapes-escaped}
use yodk.Parsing.Printer.{PrinterMode, is_binary, no_statements, no_comment, print}
use yodk.Parsing.Printer.Levels.{binds_less, binds_no_more}
use yodk.Parsing.Printer.Squeezed.{squeeze, parenthesised, squeezed_deref}
use yodk.Parsing.Printer.Plain.{
  plain_expression, plain_statement, plain_statements, plain_else, plain_line, plain_lines,
}
use yodk.Parsing.Printer.Plain.Programs.{squeeze-print}
use yodk.Validators.{split_lines}
use yodk.Parsing.Printer.Breaks.{
  breaks, breaks-append, breaks-squeeze, breaks-insert_escapes, length-split_lines,
}

abbrev pub OneLine : Text → Type 0
OneLine s = breaks s ≡ 0

-- The texts of a tree, but for string constants, have no line feed: as those of the tokenizer.
abbrev pub CleanDereference : Dereference → Type 0
CleanDereference d = OneLine d.variable × OneLine d.operator

abbrev pub CleanExpression : Expression → Type 0
CleanExpression (string_constant position value) = Unit
CleanExpression (number_constant position value) = OneLine value
CleanExpression (dereference d) = CleanDereference d
CleanExpression (unary_operation position operator exp) = OneLine operator × CleanExpression exp
CleanExpression (binary_operation operator exp1 exp2) =
    OneLine operator × (CleanExpression exp1 × CleanExpression exp2)

unfoldable mutual
  pub CleanStatement : Statement → Type 0
  CleanStatement (assignment position variable operator value) =
      OneLine variable × (OneLine operator × CleanExpression value)
  CleanStatement (if_statement position condition if_block else_part) =
      CleanExpression condition × (CleanStatements if_block × CleanElse else_part)
  CleanStatement (goto_statement position line) = CleanExpression line
  CleanStatement (deref_statement d) = CleanDereference d

  pub CleanStatements : Statements → Type 0
  CleanStatements nil = Unit
  CleanStatements (cons statement rest) = CleanStatement statement × CleanStatements rest

  pub CleanElse : ElseBlock → Type 0
  CleanElse no_else = Unit
  CleanElse (else_block statements) = CleanStatements statements

abbrev pub CleanLines : List Line → Type 0
CleanLines [] = Unit
CleanLines (line ∷ rest) =
    (CleanStatements line.statements × OneLine line.comment) × CleanLines rest

join-OneLine : (s t : Text) → OneLine s → OneLine t → OneLine (s ++ t)
join-OneLine s t h k = omega (arith, breaks-append s t, h, k)

squeeze-OneLine : (s : Text) → OneLine s → OneLine (squeeze s)
squeeze-OneLine s h = breaks-squeeze s ∙ h

parenthesised-OneLine : (b : Bool) (t : Text) → OneLine t → OneLine (parenthesised b t)
unfolding breaks
parenthesised-OneLine true t h =
    join-OneLine (codes "(") (t ++ codes ")") refl (join-OneLine t (codes ")") h refl)
parenthesised-OneLine false t h = join-OneLine t [] h refl

squeezed_deref-OneLine :
    (q : PrePost) (variable operator : Text)
    → OneLine variable
    → OneLine operator
    → OneLine (squeezed_deref q variable operator)
squeezed_deref-OneLine absent variable operator h k = squeeze-OneLine variable h
squeezed_deref-OneLine pre variable operator h k =
    join-OneLine (squeeze operator) (squeeze variable) (squeeze-OneLine operator k)
      (squeeze-OneLine variable h)
squeezed_deref-OneLine post variable operator h k =
    join-OneLine (squeeze variable) (squeeze operator) (squeeze-OneLine variable h)
      (squeeze-OneLine operator k)

plain_expression-OneLine : (e : Expression) → CleanExpression e → OneLine (plain_expression e)
unfolding plain_expression breaks
plain_expression-OneLine (string_constant position value) h =
    squeeze-OneLine (codes "\"" ++ (escaped value ++ codes "\"")) (
      join-OneLine (codes "\"") (escaped value ++ codes "\"") refl (
        join-OneLine (escaped value) (codes "\"")
          (subst (λ r. breaks r ≡ 0) (insert_escapes-escaped value) (breaks-insert_escapes value))
          refl))
plain_expression-OneLine (number_constant position value) h = squeeze-OneLine value h
plain_expression-OneLine (dereference d) (h, k) =
    squeezed_deref-OneLine d.pre_post d.variable d.operator h k
plain_expression-OneLine (unary_operation position operator exp) (h, k) =
    join-OneLine (squeeze operator) (parenthesised (is_binary exp) (plain_expression exp))
      (squeeze-OneLine operator h)
      (parenthesised-OneLine (is_binary exp) (plain_expression exp)
        (plain_expression-OneLine exp k))
plain_expression-OneLine (binary_operation operator exp1 exp2) (h, (k, l)) =
    join-OneLine (parenthesised (binds_less operator exp1) (plain_expression exp1))
      (squeeze operator ++ parenthesised (binds_no_more operator exp2) (plain_expression exp2))
      (parenthesised-OneLine (binds_less operator exp1) (plain_expression exp1)
        (plain_expression-OneLine exp1 k))
      (join-OneLine (squeeze operator)
        (parenthesised (binds_no_more operator exp2) (plain_expression exp2))
        (squeeze-OneLine operator h)
        (parenthesised-OneLine (binds_no_more operator exp2) (plain_expression exp2)
          (plain_expression-OneLine exp2 l)))

mutual
  unfolding plain_statement CleanStatement breaks

  plain_statement-OneLine : (s : Statement) → CleanStatement s → OneLine (plain_statement s)
  plain_statement-OneLine (assignment position variable operator value) (h, (k, l)) =
      join-OneLine (squeeze variable) (squeeze operator ++ plain_expression value)
        (squeeze-OneLine variable h)
        (join-OneLine (squeeze operator) (plain_expression value) (squeeze-OneLine operator k)
          (plain_expression-OneLine value l))
  plain_statement-OneLine (if_statement position condition if_block else_part) (h, (k, l)) =
      let e = plain_else else_part ++ codes "end" in
      let b = plain_statements if_block ++ e in
      join-OneLine (codes "if") (plain_expression condition ++ (codes "then" ++ b)) refl (
        join-OneLine (plain_expression condition) (codes "then" ++ b)
          (plain_expression-OneLine condition h)
          (join-OneLine (codes "then") b refl (
            join-OneLine (plain_statements if_block) e (plain_statements-OneLine if_block k) (
              join-OneLine (plain_else else_part) (codes "end") (plain_else-OneLine else_part l)
                refl))))
  plain_statement-OneLine (goto_statement position line) h =
      join-OneLine (codes "goto") (plain_expression line) refl (plain_expression-OneLine line h)
  plain_statement-OneLine (deref_statement d) (h, k) =
      squeezed_deref-OneLine d.pre_post d.variable d.operator h k

  plain_statements-OneLine : (b : Statements) → CleanStatements b → OneLine (plain_statements b)
  plain_statements-OneLine nil h = refl
  plain_statements-OneLine (cons s rest) (h, k) =
      join-OneLine (plain_statement s) (plain_statements rest) (plain_statement-OneLine s h)
        (plain_statements-OneLine rest k)

  plain_else-OneLine : (e : ElseBlock) → CleanElse e → OneLine (plain_else e)
  plain_else-OneLine no_else h = refl
  plain_else-OneLine (else_block b) h =
      join-OneLine (codes "else") (plain_statements b) refl (plain_statements-OneLine b h)

-- how many lines: one more when the last one is empty, since it has a line feed as well
abbrev pub printed_lines : List Line → ℕ
printed_lines [] = 1
printed_lines (line ∷ []) = if no_statements line.statements && no_comment line then 2 else 1
printed_lines (line ∷ next ∷ rest) = suc (printed_lines (next ∷ rest))

breaks-feed :
    (s : Text) (b : Bool)
    → OneLine s
    → breaks (s ++ (if b then 10 ∷ [] else [])) ≡ (if b then 1 else 0)
unfolding breaks
breaks-feed s true h = omega (arith, breaks-append s (10 ∷ []), h)
breaks-feed s false h = omega (arith, breaks-append s [], h)

breaks-plain_line :
    (is_last : Bool) (line : Line)
    → CleanStatements line.statements × OneLine line.comment
    → breaks (plain_line is_last line)
      ≡ (if not is_last || (no_statements line.statements && no_comment line) then 1 else 0)
breaks-plain_line is_last line (h, k) =
    breaks-feed (plain_statements line.statements ++ squeeze line.comment)
      (not is_last || (no_statements line.statements && no_comment line))
      (join-OneLine (plain_statements line.statements) (squeeze line.comment)
        (plain_statements-OneLine line.statements h) (squeeze-OneLine line.comment k))

breaks-plain_lines :
    (lines : List Line) → CleanLines lines → breaks (plain_lines lines) + 1 ≡ printed_lines lines
unfolding plain_lines breaks
breaks-plain_lines [] h = refl
breaks-plain_lines (line ∷ []) (h, k) = ground (arith, breaks-plain_line true line h)
breaks-plain_lines (line ∷ next ∷ rest) (h, k) = omega (
  arith,
  breaks-append (plain_line false line) (plain_lines (next ∷ rest)),
  breaks-plain_line false line h,
  breaks-plain_lines (next ∷ rest) k,
)

-- Print keeps the lines: in both modes the code of a program, whose texts but for string constants have
-- no line feed, has as many lines as the program, and one more if the last one is empty.
pub length-print :
    (mode : PrinterMode) (prog : Program)
    → CleanLines prog.lines
    → length (split_lines (print mode prog)) ≡ printed_lines prog.lines
length-print mode prog h = omega (
  arith,
  length-split_lines (print mode prog),
  breaks-squeeze (print mode prog),
  ap breaks (squeeze-print mode prog),
  breaks-plain_lines prog.lines h,
)
