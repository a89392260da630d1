-- ===== src/Nolol/Parser.antt =====
-- pkg/nolol/parser.go: the nolol parser, on the state and the tests of the parser of yolol. As there, fuel
-- that runs out is `none`, and a nil child, behind an error, is `missing` or left out.
pub mod Expressions
pub mod Statements
pub mod Elements
pub mod Programs
use yodk.Common.{[], Option, none, some, if◌then◌else◌}
use yodk.Parsing.Parser.{Parser, is_current_type, expect}
use yodk.Parsing.Tokenizer.{eof, newline}

-- the rest behind a result that is never nil
abbrev pub with_result : {A B : Type 0} → Option (A × Parser) → (A → Parser → Option B) → Option B
with_result none k = none
with_result (some (a, p)) k = k a p

-- `if !p.IsCurrentType(ast.TypeEOF) { p.Expect(ast.TypeNewline, "") }`
unfoldable pub end_of_line : Parser → Parser
unfolding is_current_type expect
end_of_line p = if is_current_type eof p then p else expect newline [] p
