-- ===== src/Nolol/Parser/Statements.antt =====
-- pkg/nolol/parser.go: the parsing functions of statements, lines of statements and wait directives.
pub mod Ends
pub mod Lines
use yodk.Common.{
  ℕ, zero, suc, Bool, true, false, not, ◌&&◌, ◌||◌, List, [], ◌∷◌, Option, none, some,
  if◌then◌else◌,
}
use yodk.Text.{Text, codes, is, to_lower}
use yodk.Ast.{Position, Dereference}
use yodk.Parsing.Tokenizer.{id, symbol, keyword, newline, eof, comment}
use yodk.Parsing.Parser.{
  Parser, same_type, is_current_type, is_current, contains, advance, error_current, expect, Parsed,
  Parse,
}
use yodk.Parsing.Parser.Expressions.{check, after, parse_pre_op, parse_post_op}
use yodk.Parsing.Parser.Statements.{assignment_operators}
use yodk.Nolol.Ast.{
  NololExpression, NololStatement, nolol_assignment, nolol_dereference, nolol_goto, break_statement,
  continue_statement,
}
use yodk.Nolol.Syntax.{SourceElement, source_line, source_wait}
use yodk.Nolol.Parser.{with_result, end_of_line}
use yodk.Nolol.Parser.Expressions.{or_missing_nolol, parse_nolol_expression}

-- ParseBreak
unfoldable pub parse_break : Parser → Option NololStatement × Parser
unfolding is_current advance
parse_break p =
    if is_current keyword (codes "break") p
    then (some (break_statement p.current_token.position), advance p)
    else (none, p)

-- ParseContinue
unfoldable pub parse_continue : Parser → Option NololStatement × Parser
unfolding is_current advance
parse_continue p =
    if is_current keyword (codes "continue") p
    then (some (continue_statement p.current_token.position), advance p)
    else (none, p)

-- ParseGoto
unfoldable pub parse_nolol_goto : Parser → Option NololStatement × Parser
unfolding is_current is_current_type advance error_current
parse_nolol_goto p =
    let p₁ : Parser = advance p in
    if is_current keyword (codes "goto") p
    then (
      some (nolol_goto p₁.current_token.position (to_lower p₁.current_token.value)),
      (if is_current_type id p₁
          then advance p₁
          else error_current (codes "Goto must be followed by an identifier") p₁),
    )
    else (none, p)

-- ParseAssignment
unfoldable pub parse_nolol_assignment : Parse NololExpression → Parse NololStatement
unfolding is_current_type contains advance error_current
parse_nolol_assignment expression p =
    let p₁ : Parser = advance p in
    if not (is_current_type id p) || not (contains assignment_operators p.next_token.value)
    then some (none, p)
    else after (expression (advance p₁)) (λ exp p₂. some (
      some (
          nolol_assignment p.current_token.position p.current_token.value p₁.current_token.value
            (or_missing_nolol exp)),
      check exp (codes "Expected expression on right side of assignment") p₂,
    ))

-- a dereference as a statement, or what another function finds
abbrev pub or_change :
    Option Dereference × Parser → Option NololStatement × Parser → Option NololStatement × Parser
or_change (some d, p) rest = (some (nolol_dereference (record d { is_statement = true })), p)
or_change (none, p) rest = rest

-- ParsePreOrPostOperation
unfoldable pub parse_nolol_pre_or_post : Parser → Option NololStatement × Parser
unfolding parse_pre_op parse_post_op
parse_nolol_pre_or_post p = or_change (parse_pre_op p) (or_change (parse_post_op p) (none, p))

-- the next parsing function, if one returns nil
abbrev pub or_other : {A : Type 0} → Parsed A → Parse A → Parsed A
or_other none next = none
or_other (some (none, p)) next = next p
or_other (some (some a, p)) next = some (some a, p)

-- ParseStatement; ParseIf, which returns nil, is left out
unfoldable pub parse_nolol_statement : ℕ → Parse NololStatement
unfolding parse_break parse_continue parse_nolol_assignment parse_nolol_goto parse_nolol_pre_or_post
    parse_nolol_expression
parse_nolol_statement fuel p = or_other (some (parse_break p)) (λ p₁.
    or_other (some (parse_continue p₁)) (λ p₂.
      or_other (parse_nolol_assignment (parse_nolol_expression fuel) p₂)
        (λ p₃. or_other (some (parse_nolol_goto p₃)) (λ p₄. some (parse_nolol_pre_or_post p₄)))))

abbrev pub add_found : Option NololStatement → List NololStatement → List NololStatement
add_found none rest = rest
add_found (some stmt) rest = stmt ∷ rest

-- the loops over the statements behind `;`, on fuel
unfoldable pub statement_loop :
    ℕ → Parse NololStatement → Parser → Option (List NololStatement × Parser)
unfolding is_current advance error_current
statement_loop zero statement p = none
statement_loop (suc fuel) statement p =
    let more = after (statement (advance p)) (λ stmt p₁.
      with_result
        (statement_loop fuel statement (check stmt (codes "Expected a statement after ';'") p₁))
        (λ rest p₂. some (add_found stmt rest, p₂))) in
    if is_current symbol (codes ";") p then more else some ([], p)

-- the label of a line
unfoldable pub take_label : Parser → Text × Parser
unfolding is_current_type same_type advance
take_label p =
    if is_current_type id p
      && (same_type p.next_token.token_type symbol && is p.next_token.value ">")
    then (to_lower p.current_token.value, advance (advance p))
    else ([], p)

-- a comment, with the one that was there before
unfoldable pub take_line_comment : Text → Parser → Text × Parser
unfolding is_current_type advance
take_line_comment before p =
    if is_current_type comment p then (p.current_token.value, advance p) else (before, p)

-- HasBOL and HasEOL
unfoldable pub take_dollar : Parser → Bool × Parser
unfolding is_current advance
take_dollar p = if is_current symbol (codes "$") p then (true, advance p) else (false, p)

abbrev pub made_source : Position → Text → Text → Bool → Bool → List NololStatement → SourceElement
made_source position label text bol eol statements =
    source_line
      (record {
        statements = statements;
        has_bol = bol;
        has_eol = eol;
        label = label;
        position = position;
      })
      text

-- a line without statements
unfoldable pub empty_line : Position → Text → Text → Bool → Parser → Parsed SourceElement
unfolding is_current_type advance
empty_line position label text bol p = some (
  some (
      made_source position label (if is_current_type comment p then p.current_token.value else text)
        bol bol []),
  advance p,
)

-- the end of a line behind its statements
unfoldable pub full_line :
    Position → Text → Text → Bool → List NololStatement → Parser → Parsed SourceElement
unfolding take_dollar take_line_comment end_of_line
full_line position label text bol statements p =
    let (eol, p₁) = take_dollar p in
    let (text', p₂) = take_line_comment text p₁ in
    some (some (made_source position label text' bol eol statements), end_of_line p₂)

-- the statements of a line; with no first one the line ends
unfoldable pub statements_of_line :
    ℕ → Parse NololStatement → Position → Text → Text → Bool → Parser → Parsed SourceElement
unfolding statement_loop full_line advance error_current
statements_of_line fuel statement position label text bol p = after (statement p) (λ stmt p₁.
    elim stmt [
      | none ↦ some (
        some (made_source position label text bol false []),
        advance (error_current (codes "Expected a statement") p₁),
      )
      | some first ↦
          with_result (statement_loop fuel statement p₁)
            (λ rest p₂. full_line position label text bol (first ∷ rest) p₂)
    ])

-- ParseStatementLine
unfoldable pub parse_statement_line : ℕ → Parse SourceElement
unfolding take_label take_line_comment take_dollar is_current_type empty_line statements_of_line
    parse_nolol_statement
parse_statement_line fuel p =
    let (label, p₁) = take_label p in
    let (text, p₂) = take_line_comment [] p₁ in
    let (bol, p₃) = take_dollar p₂ in
    if is_current_type eof p₃ || (is_current_type newline p₃ || is_current_type comment p₃)
    then empty_line p.current_token.position label text bol p₃
    else statements_of_line fuel (parse_nolol_statement fuel) p.current_token.position label text
        bol p₃

-- the statements of a wait directive behind `then`; with no first one it ends
unfoldable pub parse_wait_statements :
    ℕ → Parse NololStatement → Position → NololExpression → Parser → Parsed SourceElement
unfolding statement_loop advance error_current expect
parse_wait_statements fuel statement position condition p = after (statement p) (λ stmt p₁.
    elim stmt [
      | none ↦ some (
        some (source_wait position condition []),
        advance (error_current (codes "Expected a statement") p₁),
      )
      | some first ↦ with_result (statement_loop fuel statement p₁) (λ rest p₂.
          some
            (some (source_wait position condition (first ∷ rest)), expect keyword (codes "end") p₂))
    ])

-- ParseWaitDirective; the position is that of the token behind `wait`
unfoldable pub parse_wait_directive : ℕ → Parse SourceElement
unfolding is_current advance error_current parse_wait_statements parse_nolol_statement
    parse_nolol_expression
parse_wait_directive fuel p =
    let p₁ : Parser = advance p in
    let position : Position = p₁.current_token.position in
    if is_current keyword (codes "wait") p
    then after (parse_nolol_expression fuel p₁) (λ condition p₂.
      let p₃ : Parser = check condition (codes "Expected an expression after 'block'") p₂ in
      if is_current keyword (codes "then") p₃
      then parse_wait_statements fuel (parse_nolol_statement fuel) position
          (or_missing_nolol condition) (advance p₃)
      else some (some (source_wait position (or_missing_nolol condition) []), p₃))
    else some (none, p)
