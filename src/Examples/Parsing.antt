-- ===== src/Examples/Parsing.antt =====
-- Runs of the tokenizer and of the parser, and their theorems applied.
use yodk.Common.{
  ◌≡◌, ◌⊎◌, refl, ◌<◌, length, List, [], ◌∷◌, ◌++◌, Option, none, some, true, false, arith,
}
use yodk.Text.{Text, codes}
use yodk.Ast.{Statement, nil, assignment, number_constant, new_position}
use yodk.Parsing.Tokenizer.{
  Token, TokenType, Tokenizer, eof, load, new_token, yolol_symbols, yolol_keywords,
}
use yodk.Parsing.Tokenizer.Next.{next, tokens_from, get_string_constant}
use yodk.Parsing.Tokenizer.Progress.{next-Consumes, tokens_from-ends, Consumes, NoEof, AllNonempty}
use yodk.Parsing.Tokenizer.Escapes.{insert_escapes, get_string_constant-insert_escapes}
use yodk.Parsing.Parser.{Parser}
use yodk.Parsing.Parser.Statements.{parse_statement, else_block_loop}
use yodk.Parsing.Parser.Statements.Reading.{Reads}
use yodk.Parsing.Parser.Statements.Ends.{parse_statement-Reads}
use yodk.Parsing.Parser.Statements.Contract.{Untouched, parse_statement-Untouched}
use yodk.Parsing.Parser.Statements.Blocks.{
  Found, found_end, found_more, of_list, else_block_loop-Found,
}
use yodk.Parsing.Parser.Size.{size}
use yodk.Parsing.Parser.Lines.{parse, ParseResult, parsed, failed, start_parser}
use yodk.Parsing.Parser.Lines.Ends.{Returns, parse-Returns}

abbrev code : Text
code = codes "if a then x=1 else y=1 z=2 end goto 3\nx++ //c"

names-AllNonempty : AllNonempty yolol_symbols × AllNonempty yolol_keywords
names-AllNonempty = ground arith

next-Consumes_example :
    ((code ≡ []) × (next (load [] code) ≡ (new_token (load [] code) eof [], load [] code)))
    ⊎ ((0 < length code) × Consumes (load [] code) (next (load [] code)))
unfolding load
next-Consumes_example = next-Consumes (load [] code) names-AllNonempty.0 names-AllNonempty.1

tokens_from-ends_example :
    (tokens : List Token) × (last : Token) × (tokens_from 60 (load [] code)
      ≡ some (tokens ++ last ∷ []))
    × NoEof tokens
    × (last.token_type ≡ eof)
unfolding load
tokens_from-ends_example =
    tokens_from-ends 60 (load [] code) names-AllNonempty.0 names-AllNonempty.1 (omega arith)

-- a quote, a line feed and a tab in a string
abbrev marks : Text
marks = b'"' ∷ 10 ∷ b'x' ∷ 9 ∷ []

get_string_constant-insert_escapes_example :
    (t : Tokenizer) × (get_string_constant
        (load [] (b'"' ∷ insert_escapes marks ++ b'"' ∷ codes "+1"))
      ≡ some (
        new_token (load [] (b'"' ∷ insert_escapes marks ++ b'"' ∷ codes "+1")) TokenType.str marks,
        t,
      ))
    × (t.remaining ≡ codes "+1")
unfolding load
get_string_constant-insert_escapes_example =
    get_string_constant-insert_escapes marks (codes "+1")
      (load [] (b'"' ∷ insert_escapes marks ++ b'"' ∷ codes "+1"))
      (
        λ e. omega (arith, e),
        (λ e. omega (arith, e), (λ e. omega (arith, e), (λ e. omega (arith, e), tt))),
      )
      refl

parse-Returns_example : Returns (parse false code)
parse-Returns_example = parse-Returns false code

-- the errors of a text
abbrev errors_of : Option ParseResult → List Text
errors_of none = []
errors_of (some (parsed prog)) = []
errors_of (some (failed [])) = []
errors_of (some (failed (e ∷ es))) = e.message ∷ errors_of (some (failed es))

no_expression :
    errors_of (parse true (codes "goto"))
    ≡ codes "Goto must be followed by an expression. Found Token: ''(EOF)" ∷ []
unfolding parse yodk.Parsing.Tokenizer.find_comment yodk.Text.has_prefix
    yodk.Parsing.Tokenizer.find_whitespace yodk.Parsing.Tokenizer.find_keyword yodk.Text.text_eq
no_expression = refl

-- a parser before two assignments
abbrev name_token : Text → Token
name_token name = record { token_type = TokenType.id; value = name; position = new_position [] 1 1 }

abbrev symbol_token : Text → Token
symbol_token name = record {
  token_type = TokenType.symbol;
  value = name;
  position = new_position [] 1 2;
}

abbrev number_token : Text → Token
number_token name = record {
  token_type = TokenType.number;
  value = name;
  position = new_position [] 1 3;
}

abbrev end_token : Token
end_token = record { token_type = eof; value = []; position = new_position [] 1 4 }

abbrev two_assignments : Parser
two_assignments = start_parser false (
    name_token (codes "y")
    ∷ symbol_token (codes "=")
    ∷ number_token (codes "1")
    ∷ name_token (codes "z")
    ∷ symbol_token (codes "=")
    ∷ number_token (codes "2")
    ∷ end_token
    ∷ [])

abbrev behind : Option (Option Statement × Parser) → Parser
behind none = start_parser false []
behind (some (stmt, p)) = p

-- at the end of file there is no statement
abbrev at_end : Parser
at_end = start_parser false (end_token ∷ [])

parse_statement-Reads_example : Reads (size two_assignments) (parse_statement 9 two_assignments)
unfolding size start_parser
parse_statement-Reads_example = parse_statement-Reads 9 two_assignments (omega arith)

parse_statement-Untouched_example : Untouched at_end (parse_statement 9 at_end)
parse_statement-Untouched_example = parse_statement-Untouched 9 at_end

abbrev one : Text → Text → Statement
one name value =
    assignment (new_position [] 1 1) name (codes "=") (number_constant (new_position [] 1 3) value)

abbrev after_first : Parser
after_first = behind (parse_statement 2 two_assignments)

abbrev after_second : Parser
after_second = behind (parse_statement 2 after_first)

first_found :
    parse_statement 2 two_assignments ≡ some (some (one (codes "y") (codes "1")), after_first)
unfolding parse_statement start_parser yodk.Text.text_eq yodk.Text.to_lower
first_found = refl

second_found :
    parse_statement 2 after_first ≡ some (some (one (codes "z") (codes "2")), after_second)
unfolding parse_statement start_parser yodk.Text.text_eq yodk.Text.to_lower
second_found = refl

no_third : parse_statement 2 after_second ≡ some (none, after_second)
unfolding parse_statement start_parser yodk.Text.text_eq yodk.Text.to_lower
no_third = refl

two_Found :
    Found
      (parse_statement 2)
      (one (codes "y") (codes "1") ∷ one (codes "z") (codes "2") ∷ [])
      two_assignments
      after_second
two_Found = found_more first_found (found_more second_found (found_end no_third))

-- the else-block keeps the statement of the if-block and the last of its own
else_block_loop-Found_example :
    else_block_loop 3
      (parse_statement 2)
      (of_list (one (codes "x") (codes "0") ∷ []))
      nil
      two_assignments
    ≡ some (of_list (one (codes "x") (codes "0") ∷ one (codes "z") (codes "2") ∷ []), after_second)
else_block_loop-Found_example =
    else_block_loop-Found (parse_statement 2) 3 (one (codes "x") (codes "0") ∷ []) nil
      (one (codes "y") (codes "1")) (one (codes "z") (codes "2") ∷ []) two_assignments after_second
      two_Found (omega arith)
