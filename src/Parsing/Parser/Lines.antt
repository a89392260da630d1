-- ===== src/Parsing/Parser/Lines.antt =====
-- pkg/parser/parser.go: ParseLine, ParseProgram and Parse.
pub mod Ends
use yodk.Common.{
  ℕ, zero, suc, ◌+◌, Bool, true, false, not, ◌||◌, List, [], ◌∷◌, ◌++◌, Option, none, some,
  if◌then◌else◌, length,
}
use yodk.Text.{Text, codes}
use yodk.Ast.{Position, Statement, Statements, nil, Line, Program}
use yodk.Parsing.Tokenizer.{Token, newline, eof, comment, load}
use yodk.Parsing.Tokenizer.Next.{tokens_from}
use yodk.Parsing.Parser.{
  Parser, ParserError, is_current_type, has_next, advance, skip_whitespace, error_current, Parse,
}
use yodk.Parsing.Parser.Expressions.{after}
use yodk.Parsing.Parser.Statements.{append_statement, parse_statement}

-- `if p.IsCurrentType(ast.TypeComment)`
unfoldable pub take_comment : Line → Parser → Line × Parser
unfolding is_current_type advance
take_comment ret p =
    if is_current_type comment p
    then (record ret { comment = p.current_token.value }, advance p)
    else (ret, p)

unfoldable pub at_line_end : Parser → Bool
unfolding is_current_type
at_line_end p = is_current_type newline p || is_current_type eof p

-- the statement of a round of the loop of ParseLine; a token that begins none is skipped
unfoldable pub add_statement : Line → Option Statement → Parser → Line × Parser
unfolding advance error_current append_statement
add_statement ret none p = (ret, advance (error_current (codes "Expected a statement") p))
add_statement ret (some stmt) p =
    (record ret { statements = append_statement ret.statements stmt }, p)

-- the error of a statement that follows without a space
unfoldable pub check_space : Parser → Parser
unfolding error_current
check_space p =
    if p.skipped_whitespace
    then p
    else error_current (codes "Statements must be followed by space or newline") p

-- the end of a round: the line ends here, or the loop goes on
abbrev pub end_round :
    Line × Parser → (Line → Parser → Option (Line × Parser)) → Option (Line × Parser)
end_round (ret, p) loop = if at_line_end p then some (ret, advance p) else loop ret (check_space p)

-- The loop of ParseLine, on fuel. It is left without a line end only at the end of file, so that its
-- error for a missing newline is never logged.
unfoldable pub line_loop : ℕ → Parse Statement → Line → Parser → Option (Line × Parser)
unfolding has_next add_statement take_comment at_line_end check_space
line_loop zero statement ret p = none
line_loop (suc fuel) statement ret p =
    let round = after (statement p) (λ stmt p₁.
      let (ret₂, p₂) = add_statement ret stmt p₁ in
      end_round (take_comment ret₂ p₂) (line_loop fuel statement)) in
    if has_next p then round else some (ret, p)

-- the start of ParseLine
abbrev pub begin_line : ℕ → Parse Statement → Line × Parser → Option (Line × Parser)
begin_line fuel statement (ret, p) =
    if at_line_end p then some (ret, advance p) else line_loop fuel statement ret p

-- ParseLine
unfoldable pub parse_line : ℕ → Parser → Option (Line × Parser)
unfolding take_comment at_line_end line_loop parse_statement
parse_line fuel p = begin_line fuel (parse_statement fuel) (
    take_comment (record { position = p.current_token.position; statements = nil; comment = [] }) p)

-- the rest behind a line
abbrev pub behind_line :
    {B : Type 0} → Option (Line × Parser) → (Line → Parser → Option B) → Option B
behind_line none k = none
behind_line (some (line, p)) k = k line p

-- the loop of ParseProgram, on fuel
unfoldable pub program_loop : ℕ → ℕ → List Line → Parser → Option (List Line × Parser)
unfolding parse_line has_next
program_loop line_fuel zero lines p = none
program_loop line_fuel (suc fuel) lines p =
    let more =
      behind_line (parse_line line_fuel p)
        (λ line p₁. program_loop line_fuel fuel (lines ++ line ∷ []) p₁) in
    if has_next p then more else some (lines, p)

-- the parser behind the two calls of Advance in Parse
unfoldable pub start_parser : Bool → List Token → Parser
unfolding skip_whitespace
start_parser all_errors tokens =
    let (first, skipped, rest) = skip_whitespace tokens false in
    let (second, would_be, upcoming) = skip_whitespace rest false in
    record {
      upcoming = upcoming;
      current_token = first;
      next_token = second;
      prev_token = none;
      next_would_be_whitespace = would_be;
      skipped_whitespace = skipped;
      errors = [];
      all_errors = all_errors;
    }

-- what Parse returns: a program, or the errors
pub data ParseResult : Type 0 where
  parsed : Program → ParseResult
  failed : List ParserError → ParseResult

abbrev pub result_of : List Line → List ParserError → ParseResult
result_of lines [] = parsed (record { lines = lines })
result_of lines (e ∷ errors) = failed (e ∷ errors)

-- ParseProgram, at the tokens of the code
unfoldable pub parse_tokens : Bool → List Token → Option ParseResult
unfolding program_loop start_parser
parse_tokens all_errors tokens =
    let fuel : ℕ = length tokens + 3 in
    elim (program_loop fuel fuel [] (start_parser all_errors tokens)) [
      | none ↦ none
      | some (lines, p) ↦ some (result_of lines p.errors)
    ]

-- Parse
unfoldable pub parse : Bool → Text → Option ParseResult
unfolding tokens_from load parse_tokens
parse all_errors prog = elim (tokens_from (length prog + 1) (load [] prog)) [
  | none ↦ none
  | some tokens ↦ parse_tokens all_errors tokens
]
