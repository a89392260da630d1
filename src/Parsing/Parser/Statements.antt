-- ===== src/Parsing/Parser/Statements.antt =====
-- pkg/parser/parser.go: the parsing functions of statements, lines and programs, and Parse. A nil
-- statement, behind an error, is left out: Parse then returns no program.
pub mod Blocks
pub mod Reading
pub mod Ends
pub mod Contract
use yodk.Common.{
  ℕ, zero, suc, ◌+◌, Bool, true, false, not, ◌&&◌, ◌||◌, List, [], ◌∷◌, ◌++◌, Option, none, some,
  if◌then◌else◌, length,
}
use yodk.Text.{Text, codes, is}
use yodk.Ast.{
  Position, Dereference, Expression, string_constant, Statement, Statements, ElseBlock, assignment,
  if_statement, goto_statement, deref_statement, nil, cons, no_else, else_block, Line, Program,
}
use yodk.Parsing.Tokenizer.{Token, Tokenizer, id, keyword, newline, eof, comment, load}
use yodk.Parsing.Tokenizer.Next.{tokens_from}
use yodk.Parsing.Parser.{
  Parser, ParserError, is_current_type, is_current, contains, has_next, advance, skip_whitespace,
  error, error_current, expect, Parsed, Parse, end_token,
}
use yodk.Parsing.Parser.Expressions.{
  missing, or_missing, check, after, parse_pre_op, parse_post_op, parse_expression,
}

-- append(block, stmt)
unfoldable pub append_statement : Statements → Statement → Statements
append_statement nil stmt = cons stmt nil
append_statement (cons s rest) stmt = cons s (append_statement rest stmt)

-- a block of the first statement, if there is one
abbrev pub block_of : Option Statement → Statements
block_of none = nil
block_of (some stmt) = cons stmt nil

-- a dereference as a statement, or what another function finds
abbrev pub or_deref :
    Option Dereference × Parser → Option Statement × Parser → Option Statement × Parser
or_deref (some d, p) rest = (some (deref_statement (record d { is_statement = true })), p)
or_deref (none, p) rest = rest

-- ParsePreOrPostOperation
unfoldable pub parse_pre_or_post : Parser → Option Statement × Parser
unfolding parse_pre_op parse_post_op
parse_pre_or_post p = or_deref (parse_pre_op p) (or_deref (parse_post_op p) (none, p))

-- the two errors of ParseGoto
abbrev pub check_goto : Option Expression → Position → Parser → Parser
check_goto none start p = error (codes "Goto must be followed by an expression") start start p
check_goto (some (string_constant position value)) start p =
    error (codes "Can not go to a string") start start p
check_goto (some e) start p = p

-- ParseGoto
unfoldable pub parse_goto : Parse Expression → Parse Statement
unfolding is_current advance error
parse_goto expression p =
    let start : Position = p.current_token.position in
    if is_current keyword (codes "goto") p
    then after (expression (advance p))
        (λ line p₁. some (some (goto_statement start (or_missing line)), check_goto line start p₁))
    else some (none, p)

abbrev pub assignment_operators : List Text
assignment_operators =
    codes "=" ∷ codes "+=" ∷ codes "-=" ∷ codes "*=" ∷ codes "/=" ∷ codes "%=" ∷ []

-- ParseAssignment
unfoldable pub parse_assignment : Parse Expression → Parse Statement
unfolding is_current_type contains advance error_current
parse_assignment expression p =
    let p₁ : Parser = advance p in
    if not (is_current_type id p) || not (contains assignment_operators p.next_token.value)
    then some (none, p)
    else after (expression (advance p₁)) (λ exp p₂. some (
      some (
          assignment p.current_token.position p.current_token.value p₁.current_token.value
            (or_missing exp)),
      check exp (codes "Expected expression on right side of assignment") p₂,
    ))

-- the loop of ParseIf over the statements of the if-block, on fuel
unfoldable pub if_block_loop :
    ℕ → Parse Statement → Statements → Parser → Option (Statements × Parser)
unfolding append_statement
if_block_loop zero statement if_block p = none
if_block_loop (suc fuel) statement if_block p = elim (statement p) [
  | none ↦ none
  | some (none, p₁) ↦ some (if_block, p₁)
  | some (some stmt2, p₁) ↦ if_block_loop fuel statement (append_statement if_block stmt2) p₁
]

-- the loop of ParseIf over the statements of the else-block: it appends to the if-block
unfoldable pub else_block_loop :
    ℕ → Parse Statement → Statements → Statements → Parser → Option (Statements × Parser)
unfolding append_statement
else_block_loop zero statement if_block block p = none
else_block_loop (suc fuel) statement if_block block p = elim (statement p) [
  | none ↦ none
  | some (none, p₁) ↦ some (block, p₁)
  | some (some stmt2, p₁) ↦
      else_block_loop fuel statement if_block (append_statement if_block stmt2) p₁
]

-- the rest behind a block
abbrev pub with_block :
    {B : Type 0} → Option (Statements × Parser) → (Statements → Parser → Option B) → Option B
with_block none k = none
with_block (some (b, p)) k = k b p

-- `else` and its statements
unfoldable pub parse_else : ℕ → Parse Statement → Statements → Parser → Option (ElseBlock × Parser)
unfolding is_current advance else_block_loop error_current
parse_else fuel statement if_block p =
    if is_current keyword (codes "else") p
    then after (statement (advance p)) (λ stmt p₁.
      with_block
        (else_block_loop fuel statement if_block (block_of stmt)
          (check stmt (codes "Else-block needs at least one statement") p₁))
        (λ block p₂. some (else_block block, p₂)))
    else some (no_else, p)

-- the end of ParseIf
abbrev pub end_if :
    Position → Option Expression → Statements → Option (ElseBlock × Parser) → Parsed Statement
end_if start condition if_block none = none
end_if start condition if_block (some (else_part, p)) = some (
  some (if_statement start (or_missing condition) if_block else_part),
  expect keyword (codes "end") p,
)

-- ParseIf behind the condition
unfoldable pub parse_then : ℕ → Parse Statement → Position → Option Expression → Parse Statement
unfolding expect error_current if_block_loop parse_else
parse_then fuel statement start condition p =
    after
      (statement (
        expect keyword (codes "then")
          (check condition (codes "No expression found as if-condition") p)))
      (λ stmt p₁.
        with_block
          (if_block_loop fuel statement (block_of stmt)
            (check stmt (codes "If-block needs at least one statement") p₁))
          (λ if_block p₂. end_if start condition if_block (parse_else fuel statement if_block p₂)))

-- ParseIf
unfoldable pub parse_if : ℕ → Parse Expression → Parse Statement → Parse Statement
unfolding is_current advance parse_then
parse_if fuel expression statement p =
    if is_current keyword (codes "if") p
    then after (expression (advance p))
        (λ condition p₁. parse_then fuel statement p.current_token.position condition p₁)
    else some (none, p)

-- the next parsing function, if one returns nil
abbrev pub or_next : Parsed Statement → Parse Statement → Parsed Statement
or_next none next = none
or_next (some (none, p)) next = next p
or_next (some (some stmt, p)) next = some (some stmt, p)

-- ParseStatement, on fuel; each level of ifs costs one
unfoldable pub parse_statement : ℕ → Parse Statement
unfolding parse_assignment parse_if parse_goto parse_pre_or_post parse_expression
parse_statement zero p = none
parse_statement (suc fuel) p =
    let expression = parse_expression (suc fuel) in
    or_next (parse_assignment expression p) (λ p₁.
      or_next (parse_if (suc fuel) expression (parse_statement fuel) p₁)
        (λ p₂. or_next (parse_goto expression p₂) (λ p₃. some (parse_pre_or_post p₃))))
