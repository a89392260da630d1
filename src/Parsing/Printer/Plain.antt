-- ===== src/Parsing/Printer/Plain.antt =====
-- pkg/parser/printer.go: the code of a tree as a text without spaces, apart from the way it is written.
pub mod Expressions
pub mod Programs
use yodk.Common.{
  ◌≡◌, refl, sym, ◌∙◌, ℕ, suc, ◌+◌, Bool, true, false, not, ◌&&◌, ◌||◌, List, [], ◌∷◌, ◌++◌,
  append_assoc, if◌then◌else◌, ◌==◌, length, arith,
}
use mathlib.Core.Path.{subst}
use yodk.Text.{Text, codes, is, has_prefix, remove_byte}
use yodk.Ast.{
  Expression, string_constant, number_constant, dereference, unary_operation, binary_operation,
  Statement, Statements, ElseBlock, assignment, if_statement, goto_statement, deref_statement, nil,
  cons, no_else, else_block, Line, Program,
}
use yodk.Parsing.Tokenizer.Escapes.{escaped}
use yodk.Parsing.Printer.{
  PrinterMode, Printer, pre_visit, post_visit, inter_visit1, inter_visit2, child_visit, is_binary,
  write, space, optional_space, newline, write_if, separate, write_operator, left_parentheses,
  right_parentheses, print_binary_operation, print_if, print_deref, print_unary_operation,
  print_expression, print_statement, print_statements, print_else, no_statements, no_comment,
  print_comment, print_line, print_lines, print,
}
use yodk.Parsing.Printer.Levels.{binds_less, binds_no_more}
use yodk.Parsing.Printer.Squeezed.{
  squeeze, squeeze-append, Adds, Adds-then, Adds-write, Adds-space, Adds-if, Adds-nothing,
  Adds-behind, Adds-before, Adds-cast, Adds-optional_space, Adds-separate, opening, closing,
  parenthesised, Adds-opening, Adds-closing, squeezed_deref, Adds-spaced, Adds-write_operator,
  Adds-print_deref_as,
}

-- An expression. Of a string each line feed, tab and quote stands as its escape. A left operand stands in
-- parentheses when its operator binds less, and a right one when its operator does not bind more; so does
-- each operation with two operands behind a unary operator.
unfoldable pub plain_expression : Expression → Text
unfolding binds_less binds_no_more
plain_expression (string_constant position value) =
    squeeze (codes "\"" ++ (escaped value ++ codes "\""))
plain_expression (number_constant position value) = squeeze value
plain_expression (dereference d) = squeezed_deref d.pre_post d.variable d.operator
plain_expression (unary_operation position operator exp) =
    squeeze operator ++ parenthesised (is_binary exp) (plain_expression exp)
plain_expression (binary_operation operator exp1 exp2) =
    parenthesised (binds_less operator exp1) (plain_expression exp1)
    ++ (squeeze operator ++ parenthesised (binds_no_more operator exp2) (plain_expression exp2))

-- Statements, one behind the other.
unfoldable mutual
  unfolding plain_expression

  pub plain_statement : Statement → Text
  plain_statement (assignment position variable operator value) =
      squeeze variable ++ (squeeze operator ++ plain_expression value)
  plain_statement (if_statement position condition if_block else_part) =
      codes "if"
      ++ (plain_expression condition
          ++ (codes "then" ++ (plain_statements if_block ++ (plain_else else_part ++ codes "end"))))
  plain_statement (goto_statement position line) = codes "goto" ++ plain_expression line
  plain_statement (deref_statement d) = squeezed_deref d.pre_post d.variable d.operator

  pub plain_statements : Statements → Text
  plain_statements nil = []
  plain_statements (cons statement rest) = plain_statement statement ++ plain_statements rest

  pub plain_else : ElseBlock → Text
  plain_else no_else = []
  plain_else (else_block statements) = codes "else" ++ plain_statements statements

-- A line, with a line feed behind it unless it is the last one and not empty.
abbrev pub plain_line : Bool → Line → Text
plain_line is_last line =
    (plain_statements line.statements ++ squeeze line.comment)
    ++ (if not is_last || (no_statements line.statements && no_comment line) then 10 ∷ [] else [])

unfoldable pub plain_lines : List Line → Text
unfolding plain_statement
plain_lines [] = []
plain_lines (line ∷ []) = plain_line true line
plain_lines (line ∷ next ∷ rest) = plain_line false line ++ plain_lines (next ∷ rest)
