-- ===== src/Parsing/Parser.antt =====
-- pkg/parser/parser.go: the state of the parser, the tests on its current token, and its errors. The
-- tokenizer of the parser is the list of what its Next will return; it ends with the end of file, and
-- an empty list stands for more of it.
pub mod Size
pub mod Expressions
pub mod Statements
pub mod Lines
use yodk.Common.{
  ℕ, zero, suc, ◌+◌, Bool, true, false, not, ◌&&◌, ◌||◌, List, [], ◌∷◌, ◌++◌, Option, none, some,
  if◌then◌else◌, ◌==◌, length,
}
use yodk.Text.{Text, codes, is, text_eq, to_lower}
use yodk.Ast.{Position, unknown_position}
use yodk.Parsing.Tokenizer.{
  Token, TokenType, id, symbol, str, keyword, number, newline, eof, comment, whitespace, unknown,
}

-- the constants, as the texts that they are
abbrev pub type_name : TokenType → Text
type_name id = codes "ID"
type_name number = codes "Number"
type_name str = codes "String"
type_name keyword = codes "Keyword"
type_name symbol = codes "Symbol"
type_name newline = codes "Newline"
type_name eof = codes "EOF"
type_name comment = codes "Comment"
type_name whitespace = codes "Whitespace"
type_name unknown = codes "Unknown"

-- t.Type == "..."
unfoldable pub same_type : TokenType → TokenType → Bool
same_type id id = true
same_type number number = true
same_type str str = true
same_type keyword keyword = true
same_type symbol symbol = true
same_type newline newline = true
same_type eof eof = true
same_type comment comment = true
same_type whitespace whitespace = true
same_type unknown unknown = true
same_type _ _ = false

-- Error of pkg/parser/error.go
pub record ParserError : Type 0 where
  pub message : Text
  pub start_position : Position
  pub end_position : Position

-- Parser, after the two calls of Advance in Parse
pub record Parser : Type 0 where
  pub upcoming : List Token
  pub current_token : Token
  pub next_token : Token
  pub prev_token : Option Token
  pub next_would_be_whitespace : Bool
  pub skipped_whitespace : Bool
  pub errors : List ParserError
  pub all_errors : Bool

-- an end of file behind all others
abbrev pub end_token : Token
end_token = record { token_type = eof; value = []; position = unknown_position }

-- IsCurrentType
unfoldable pub is_current_type : TokenType → Parser → Bool
unfolding same_type
is_current_type typ p = same_type p.current_token.token_type typ

-- IsCurrentValue
unfoldable pub is_current_value : Text → Parser → Bool
is_current_value val p = text_eq (to_lower p.current_token.value) (to_lower val)

-- IsCurrent
unfoldable pub is_current : TokenType → Text → Parser → Bool
unfolding is_current_type is_current_value
is_current typ val p = is_current_type typ p && is_current_value val p

-- IsCurrentValueIn
unfoldable pub is_current_value_in : List Text → Parser → Bool
unfolding is_current_value
is_current_value_in [] p = false
is_current_value_in (val ∷ values) p = is_current_value val p || is_current_value_in values p

-- contains
unfoldable pub contains : List Text → Text → Bool
contains [] val = false
contains (v ∷ values) val = text_eq v val || contains values val

-- HasNext
unfoldable pub has_next : Parser → Bool
unfolding is_current_type
has_next p = not (is_current_type eof p)

-- the next token that is no whitespace, whether whitespace was skipped, and the rest
unfoldable pub skip_whitespace : List Token → Bool → Token × Bool × List Token
unfolding same_type
skip_whitespace [] skipped = (end_token, skipped, [])
skip_whitespace (token ∷ rest) skipped =
    if same_type token.token_type whitespace
    then skip_whitespace rest true
    else (token, skipped, rest)

-- the body of Advance
abbrev pub shift : Token × Bool × List Token → Parser → Parser
shift (token, skipped, rest) p = record p {
  prev_token = some p.current_token;
  current_token = p.next_token;
  next_token = token;
  skipped_whitespace = p.next_would_be_whitespace;
  next_would_be_whitespace = skipped;
  upcoming = rest;
}

-- Advance
unfoldable pub advance : Parser → Parser
unfolding has_next skip_whitespace
advance p = if has_next p then shift (skip_whitespace p.upcoming false) p else p

-- the start position of the last error
abbrev pub last_error_line : List ParserError → Option ℕ
last_error_line [] = none
last_error_line (e ∷ []) = some e.start_position.line
last_error_line (e ∷ more ∷ rest) = last_error_line (more ∷ rest)

abbrev pub on_line : Option ℕ → ℕ → Bool
on_line none line = false
on_line (some n) line = n == line

-- Error
unfoldable pub error : Text → Position → Position → Parser → Parser
error msg start end p =
    if not p.all_errors && on_line (last_error_line p.errors) start.line then p else record p {
      errors =
          p.errors
          ++ record {
            message =
                msg
                ++ (codes ". Found Token: '"
                    ++ (p.current_token.value
                        ++ (codes "'(" ++ (type_name p.current_token.token_type ++ codes ")"))));
            start_position = start;
            end_position = end;
          }
            ∷ [];
    }

-- ErrorCurrent
unfoldable pub error_current : Text → Parser → Parser
unfolding error
error_current msg p = error msg p.current_token.position p.current_token.position p

-- the message of Expect
abbrev pub message : TokenType → Text → Text
message typ val =
    if same_type typ newline
    then codes "Expected newline"
    else codes "Expected token '" ++ (val ++ (codes "'(" ++ (type_name typ ++ codes ")")))

-- Expect; its result, the position of the token, is used nowhere in this parser
unfoldable pub expect : TokenType → Text → Parser → Parser
unfolding is_current error_current advance
expect typ val p = advance (if is_current typ val p then p else error_current (message typ val) p)

-- What a parsing function returns, where `none` is nil, with the parser that it leaves.
abbrev pub Parsed : Type 0 → Type 0
Parsed A = Option (Option A × Parser)

-- A parsing function; `none` is that the fuel of the model ran out.
abbrev pub Parse : Type 0 → Type 0
Parse A = Parser → Parsed A
