-- ===== src/Ast/Positions.antt =====
-- pkg/parser/ast/ast.go: the methods Start and End of each node. The end of an if without
-- statements is an index out of range in the code, and `none` here.
use yodk.Common.{◌+◌, Option, none, some, if◌then◌else◌, length, List, [], ◌∷◌}
use yodk.Ast.{
  Position, unknown_position, add, before, Dereference, Expression, string_constant,
  number_constant, dereference, unary_operation, binary_operation, Statement, Statements,
  assignment, if_statement, goto_statement, deref_statement, nil, cons, no_else, else_block, Line,
  Program,
}
use mathlib.Core.Option

-- Dereference.End
unfoldable pub dereference_end : Dereference → Position
unfolding add
dereference_end n = add n.position (length n.variable + length n.operator)

-- Start of the expression nodes
unfoldable pub start : Expression → Position
start (string_constant position value) = position
start (number_constant position value) = position
start (dereference n) = n.position
start (unary_operation position operator exp) = position
start (binary_operation operator exp1 exp2) = start exp1

-- End of the expression nodes
unfoldable pub end_of : Expression → Position
unfolding add dereference_end
end_of (string_constant position value) = add position (length value + 2)
end_of (number_constant position value) = add position (length value)
end_of (dereference n) = dereference_end n
end_of (unary_operation position operator exp) = end_of exp
end_of (binary_operation operator exp1 exp2) = end_of exp2

-- Start of the statement nodes
unfoldable pub statement_start : Statement → Position
statement_start (assignment position variable operator value) = position
statement_start (if_statement position condition if_block else_part) = position
statement_start (goto_statement position line) = position
statement_start (deref_statement n) = n.position

-- End of the statement nodes
unfoldable mutual
  unfolding add before end_of dereference_end

  pub statement_end : Statement → Option Position
  statement_end (assignment position variable operator value) =
      some (if before (end_of value) position then add position 70 else end_of value)
  statement_end (if_statement position condition if_block no_else) =
      Option.map (λ p. add p 3) (last_end if_block)
  statement_end (if_statement position condition if_block (else_block statements)) =
      Option.map (λ p. add p 3) (last_end statements)
  statement_end (goto_statement position line) = some (end_of line)
  statement_end (deref_statement n) = some (dereference_end n)

  -- the end of the last statement of a block, `block[len(block)-1].End()`
  pub last_end : Statements → Option Position
  last_end nil = none
  last_end (cons statement nil) = statement_end statement
  last_end (cons statement (cons next rest)) = last_end (cons next rest)

-- Line.End
unfoldable pub line_end : Line → Option Position
unfolding add
line_end n = elim n.statements [
  | nil ↦ some (add n.position (length n.comment))
  | cons statement rest ↦
      Option.map (λ p. add p (length n.comment + 1)) (last_end (cons statement rest))
]

-- Program.Start
unfoldable pub program_start : Program → Position
program_start n = elim n.lines [ [] ↦ unknown_position | line ∷ rest ↦ line.position ]

-- the end of the last line, `n.Lines[len(n.Lines)-1].End()`
unfoldable pub last_line_end : List Line → Option Position
last_line_end [] = some unknown_position
last_line_end (line ∷ []) = line_end line
last_line_end (line ∷ next ∷ rest) = last_line_end (next ∷ rest)

-- Program.End
unfoldable pub program_end : Program → Option Position
unfolding last_line_end line_end
program_end n = last_line_end n.lines
