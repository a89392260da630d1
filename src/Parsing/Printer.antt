-- ===== src/Parsing/Printer.antt =====
-- pkg/parser/printer.go: printing a syntax tree as code. Print is a visitor that replaces nothing: the
-- traversal calls it as Accept of the nodes does. Positions for debugging and the handler for nodes of
-- other languages are left out.
pub mod Squeezed
pub mod Levels
pub mod Plain
pub mod Breaks
pub mod LineCount
use yodk.Common.{
  ℕ, zero, suc, ◌+◌, Bool, true, false, not, ◌&&◌, ◌||◌, List, [], ◌∷◌, ◌++◌, if◌then◌else◌, ltb,
  leb, ◌==◌, length,
}
use yodk.Text.{Text, codes, is, text_eq, has_prefix}
use yodk.Ast.{
  Dereference, PrePost, absent, pre, post, Expression, string_constant, number_constant,
  dereference, unary_operation, binary_operation, Statement, Statements, ElseBlock, assignment,
  if_statement, goto_statement, deref_statement, nil, cons, no_else, else_block, Line, Program,
}
use yodk.Parsing.Tokenizer.Escapes.{insert_escapes}

-- Printermode
pub data PrinterMode : Type 0 where
  readable compact : PrinterMode

-- Printer
pub record Printer : Type 0 where
  pub mode : PrinterMode
  pub text : Text
  pub last_was_space : Bool

-- the visit types that the printer asks for; `child_visit` is the index of a child
pub data VisitType : Type 0 where
  pre_visit post_visit inter_visit1 inter_visit2 : VisitType
  child_visit : ℕ → VisitType

-- operatorPriority
abbrev pub operator_priorities : List (Text × ℕ)
operator_priorities =
    (codes "or", 0)
    ∷ (codes "and", 0)
    ∷ (codes "==", 1)
    ∷ (codes "!=", 1)
    ∷ (codes ">=", 1)
    ∷ (codes "<=", 1)
    ∷ (codes ">", 1)
    ∷ (codes "<", 1)
    ∷ (codes "+", 2)
    ∷ (codes "-", 2)
    ∷ (codes "*", 3)
    ∷ (codes "/", 3)
    ∷ (codes "^", 3)
    ∷ (codes "%", 3)
    ∷ (codes "not", 4)
    ∷ []

-- the map at a key; it is 0 at a key that is missing
unfoldable pub priority_in : List (Text × ℕ) → Text → ℕ
priority_in [] operator = 0
priority_in ((name, priority) ∷ rest) operator =
    if text_eq name operator then priority else priority_in rest operator

-- priorityForExpression
unfoldable pub priority_for_expression : Expression → ℕ
unfolding priority_in
priority_for_expression (binary_operation operator exp1 exp2) =
    priority_in operator_priorities operator
priority_for_expression e = 10

abbrev pub is_binary : Expression → Bool
is_binary (binary_operation operator exp1 exp2) = true
is_binary e = false

-- Write
unfoldable pub write : Text → Printer → Printer
write content p = record p { text = p.text ++ content; last_was_space = false }

-- Space
unfoldable pub space : Printer → Printer
space p = record p {
  text = if p.last_was_space then p.text else p.text ++ codes " ";
  last_was_space = true;
}

abbrev pub is_readable : PrinterMode → Bool
is_readable readable = true
is_readable compact = false

-- OptionalSpace
unfoldable pub optional_space : Printer → Printer
unfolding space
optional_space p = if is_readable p.mode then space p else p

-- StatementSeparator
unfoldable pub statement_separator : Printer → Printer
unfolding write space
statement_separator p = if is_readable p.mode then space (write (codes " ") p) else space p

-- Newline
unfoldable pub newline : Printer → Printer
newline p = record p { text = p.text ++ 10 ∷ []; last_was_space = false }

-- `if b { p.Write(content) }`
abbrev pub write_if : Bool → Text → Printer → Printer
write_if b content p = if b then write content p else p

-- `if visitType > 0 { p.StatementSeparator() }`
unfoldable pub separate : ℕ → Printer → Printer
unfolding statement_separator
separate i p = if ltb 0 i then statement_separator p else p

-- the two ways to write an operator
abbrev pub write_operator : Text → Printer → Printer
write_operator operator p =
    if is operator "and" || is operator "or"
    then space (write operator (space p))
    else optional_space (write operator (optional_space p))

-- the tests for parentheses
abbrev pub left_parentheses : Text → Expression → Expression → Bool
left_parentheses operator exp1 exp2 =
    ltb (priority_for_expression exp1)
      (priority_for_expression (binary_operation operator exp1 exp2))

abbrev pub right_parentheses : Text → Expression → Expression → Bool
right_parentheses operator exp1 exp2 =
    is_binary exp2
    && leb (priority_for_expression exp2)
        (priority_for_expression (binary_operation operator exp1 exp2))

-- printBinaryOperation
unfoldable pub print_binary_operation :
    VisitType → Text → Expression → Expression → Printer → Printer
unfolding priority_for_expression write space optional_space
print_binary_operation pre_visit operator exp1 exp2 p =
    write_if (left_parentheses operator exp1 exp2) (codes "(") p
print_binary_operation inter_visit1 operator exp1 exp2 p =
    write_if (right_parentheses operator exp1 exp2) (codes "(")
      (write_operator operator (write_if (left_parentheses operator exp1 exp2) (codes ")") p))
print_binary_operation post_visit operator exp1 exp2 p =
    write_if (right_parentheses operator exp1 exp2) (codes ")") p
print_binary_operation _ operator exp1 exp2 p = p

-- printIf
unfoldable pub print_if : VisitType → Printer → Printer
unfolding write space separate
print_if pre_visit p = space (write (codes "if") p)
print_if inter_visit1 p = space (write (codes "then") (space p))
print_if inter_visit2 p = space (write (codes "else") (space p))
print_if post_visit p = write (codes "end") (space p)
print_if (child_visit i) p = separate i p

-- printDeref
abbrev pub print_deref_as : PrePost → Text → Text → Printer → Printer
print_deref_as absent variable operator p = write variable p
print_deref_as pre variable operator p = write variable (write operator (space p))
print_deref_as post variable operator p = space (write operator (write variable p))

unfoldable pub print_deref : Dereference → Printer → Printer
unfolding write space
print_deref d p = print_deref_as d.pre_post d.variable d.operator p

-- the cases of Print for a unary operation
unfoldable pub print_unary_operation : VisitType → Text → Expression → Printer → Printer
unfolding write space
print_unary_operation pre_visit operator exp p =
    write_if (is_binary exp) (codes "(")
      (if is operator "-" then write operator (space p) else space (write operator p))
print_unary_operation post_visit operator exp p = write_if (is_binary exp) (codes ")") p
print_unary_operation _ operator exp p = p

-- Print of the expressions
unfoldable pub print_expression : Expression → Printer → Printer
unfolding write space print_deref print_unary_operation print_binary_operation insert_escapes
print_expression (string_constant position value) p =
    write (codes "\"" ++ (insert_escapes value ++ codes "\"")) p
print_expression (number_constant position value) p =
    write value (if has_prefix value (codes "-") then space p else p)
print_expression (dereference d) p = print_deref d p
print_expression (unary_operation position operator exp) p =
    print_unary_operation post_visit operator exp
      (print_expression exp (print_unary_operation pre_visit operator exp p))
print_expression (binary_operation operator exp1 exp2) p =
    print_binary_operation post_visit operator exp1 exp2 (
      print_expression exp2 (
        print_binary_operation inter_visit1 operator exp1 exp2
          (print_expression exp1 (print_binary_operation pre_visit operator exp1 exp2 p))))

-- Print of the statements. The parent of a list of statements, an if or a line, is visited at each index.
unfoldable mutual
  unfolding write space optional_space print_expression print_if print_deref

  pub print_statement : Statement → Printer → Printer
  print_statement (assignment position variable operator value) p =
      print_expression value (optional_space (write operator (optional_space (write variable p))))
  print_statement (if_statement position condition if_block else_part) p = print_if post_visit (
      print_else else_part (
        print_statements (λ i. print_if (child_visit i)) 0 if_block
          (print_if inter_visit1 (print_expression condition (print_if pre_visit p)))))
  print_statement (goto_statement position line) p =
      print_expression line (space (write (codes "goto") p))
  print_statement (deref_statement d) p = print_deref d p

  pub print_statements : (ℕ → Printer → Printer) → ℕ → Statements → Printer → Printer
  print_statements parent i nil p = p
  print_statements parent i (cons statement rest) p =
      print_statements parent (suc i) rest (print_statement statement (parent i p))

  pub print_else : ElseBlock → Printer → Printer
  print_else no_else p = p
  print_else (else_block statements) p =
      print_statements (λ i. print_if (child_visit i)) 0 statements (print_if inter_visit2 p)

abbrev pub no_statements : Statements → Bool
no_statements nil = true
no_statements (cons statement rest) = false

abbrev pub no_comment : Line → Bool
no_comment line = length line.comment == 0

-- the comment of a line
unfoldable pub print_comment : Line → Printer → Printer
unfolding write space
print_comment line p =
    if no_comment line
    then p
    else write line.comment (if no_statements line.statements then p else space p)

-- a line, the last one or not
unfoldable pub print_line : Bool → Line → Printer → Printer
unfolding separate print_statement print_comment newline
print_line is_last line p =
    let q : Printer = print_comment line (print_statements separate 0 line.statements p) in
    if not is_last || (no_statements line.statements && no_comment line) then newline q else q

-- the loop over the lines, with `numberoflines` and `currentline`
unfoldable pub print_lines : ℕ → ℕ → List Line → Printer → Printer
unfolding print_line
print_lines number_of_lines current_line [] p = p
print_lines number_of_lines current_line (line ∷ rest) p =
    print_lines number_of_lines (current_line + 1) rest
      (print_line (current_line + 1 == number_of_lines) line p)

-- Print, of a program
unfoldable pub print : PrinterMode → Program → Text
unfolding print_lines
print mode prog = Printer.text (
    print_lines (length prog.lines) 0 prog.lines
      (record { mode = mode; text = []; last_was_space = false }))
