-- ===== src/Parsing/Tokenizer/Next.antt =====
-- pkg/parser/ast/tokenizer.go: string constants, and Next. pkg/nolol/nast/tokenizer.go.
use yodk.Common.{
  ℕ, zero, suc, ◌+◌, Bool, true, false, not, ◌&&◌, List, [], ◌∷◌, ◌++◌, Option, none, some,
  if◌then◌else◌, ltb, ◌==◌, length, take,
}
use mathlib.Core.Option
use yodk.Text.{Text, codes, to_lower}
use yodk.Parsing.Tokenizer.{
  Token, TokenType, id, symbol, keyword, number, newline, eof, comment, whitespace, unknown,
  Tokenizer, find_whitespace, find_comment, find_identifier, find_number, find_keyword, find_symbol,
  load, new_token, advance, token_of, yolol_symbols,
}

-- What a byte does in the loop of getStringConstant: it ends the string, or the loop goes on with
-- another value of `escaped`, and with a text behind the string.
pub data StringStep : Type 0 where
  ends : StringStep
  goes_on : Bool → Text → StringStep

unfoldable pub string_step : ℕ → Bool → StringStep
string_step b escaped =
    if b == b'\\'
    then goes_on true []
    else if escaped && (b == b'n')
    then goes_on false (10 ∷ [])
    else if escaped && (b == b't')
    then goes_on false (9 ∷ [])
    else if escaped && (b == b'"')
    then goes_on false (b ∷ [])
    else if b == b'"'
    then ends
    else goes_on escaped (b ∷ [])

-- The loop of getStringConstant over the bytes behind the first quote: the index of the last quote,
-- and the string.
unfoldable pub scan_string : Text → Bool → Text → ℕ → Option (ℕ × Text)
unfolding string_step
scan_string [] escaped string i = none
scan_string (b ∷ s) escaped string i = elim (string_step b escaped) [
  | ends ↦ some (i, string)
  | goes_on escaped' more ↦ scan_string s escaped' (string ++ more) (suc i)
]

abbrev pub scanned : Tokenizer → Option (ℕ × Text) → Option (Token × Tokenizer)
scanned t none = none
scanned t (some (i, string)) = some (new_token t TokenType.str string, advance (i + 2) t)

-- a string, if the code begins with a quote
unfoldable pub quoted : Tokenizer → Text → Option (Token × Tokenizer)
unfolding scan_string
quoted t [] = none
quoted t (c ∷ s) =
    if not (ltb (length (c ∷ s)) 2) && (c == b'"')
    then scanned t (scan_string s false [] 0)
    else none

-- getStringConstant
unfoldable pub get_string_constant : Tokenizer → Option (Token × Tokenizer)
unfolding quoted
get_string_constant t = quoted t t.remaining

-- getWhitespace, getComment, getIdentifier, getNumberConstant, getSymbol
unfoldable pub get_whitespace : Tokenizer → Option (Token × Tokenizer)
get_whitespace t = token_of whitespace t (find_whitespace t.remaining)

unfoldable pub get_comment : Tokenizer → Option (Token × Tokenizer)
get_comment t = token_of comment t (find_comment t.remaining)

unfoldable pub get_identifier : Tokenizer → Option (Token × Tokenizer)
get_identifier t = token_of id t (find_identifier t.remaining)

unfoldable pub get_number_constant : Tokenizer → Option (Token × Tokenizer)
get_number_constant t = token_of number t (find_number t.remaining)

unfoldable pub get_symbol : Tokenizer → Option (Token × Tokenizer)
get_symbol t = token_of symbol t (find_symbol t.remaining t.symbols)

-- a keyword token has the keyword in lower case
abbrev pub lower_value : Token × Tokenizer → Token × Tokenizer
lower_value (token, t) = (record token { value = to_lower token.value }, t)

-- getKeyword
unfoldable pub get_keyword : Tokenizer → Option (Token × Tokenizer)
unfolding to_lower
get_keyword t = Option.map lower_value (token_of keyword t (find_keyword t.remaining t.keywords))

-- the deferred function of getNewline
abbrev pub next_line : Tokenizer → Tokenizer
next_line t = advance 1 (record t { line = t.line + 1; column = 0 })

-- getNewline, at the remaining code
abbrev pub newline_at : Tokenizer → Text → Option (Token × Tokenizer)
newline_at t [] = none
newline_at t (c ∷ s) = if c == 10 then some (new_token t newline [], next_line t) else none

unfoldable pub get_newline : Tokenizer → Option (Token × Tokenizer)
get_newline t = newline_at t t.remaining

-- `if token != nil { return token }`
abbrev pub or_else : Option (Token × Tokenizer) → Token × Tokenizer → Token × Tokenizer
or_else none rest = rest
or_else (some found) rest = found

-- the last case of Next: a byte that nothing else takes
abbrev pub unknown_token : Tokenizer → Token × Tokenizer
unknown_token t = (new_token t unknown (take 1 t.remaining), advance 1 t)

-- Next behind the test for a comment
unfoldable pub next_of : Tokenizer → Text → Token × Tokenizer
unfolding get_whitespace get_keyword get_newline get_symbol get_identifier get_string_constant
    get_number_constant
next_of t [] = (new_token t eof [], t)
next_of t (c ∷ s) = or_else (get_whitespace t) (
    or_else (get_keyword t) (
      or_else (get_newline t) (
        or_else (get_symbol t) (
          or_else (get_identifier t) (
            or_else (get_string_constant t) (or_else (get_number_constant t) (unknown_token t)))))))

-- Next
unfoldable pub next : Tokenizer → Token × Tokenizer
unfolding next_of get_comment
next t = or_else (get_comment t) (next_of t t.remaining)

abbrev pub collect : TokenType → Token → Option (List Token) → Option (List Token)
collect eof token rest = some (token ∷ [])
collect _ token rest = Option.map (λ (tokens : List Token). token ∷ tokens) rest

-- all that Next returns, up to the first end of file, on fuel
unfoldable pub tokens_from : ℕ → Tokenizer → Option (List Token)
unfolding next
tokens_from zero t = none
tokens_from (suc fuel) t =
    let rest = tokens_from fuel (next t).1 in collect (next t).0.token_type (next t).0 rest

-- NewNololTokenizer
unfoldable pub load_nolol : Text → Text → Tokenizer
unfolding load
load_nolol filename input = record (load filename input) {
  symbols = yolol_symbols ++ (codes ";" ∷ codes "$" ∷ []);
  keywords =
      codes "if"
      ∷ codes "else"
      ∷ codes "end"
      ∷ codes "then"
      ∷ codes "goto"
      ∷ codes "and"
      ∷ codes "or"
      ∷ codes "not"
      ∷ codes "define"
      ∷ codes "while"
      ∷ codes "do"
      ∷ codes "wait"
      ∷ codes "include"
      ∷ codes "macro"
      ∷ codes "insert"
      ∷ codes "break"
      ∷ codes "continue"
      ∷ [];
}
