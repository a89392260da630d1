-- ===== src/Examples/Sources.antt =====
-- A small nolol text, parsed, and the theorem that its parsing returns.
use yodk.Common.{◌≡◌, refl, ℕ, true, false, [], ◌∷◌, some, ◌++◌}
use yodk.Text.{Text, codes}
use yodk.Ast.{Position, absent}
use yodk.Nolol.Ast.{
  NololExpression, nolol_assignment, break_statement, variable, func_call, no_argument, argument,
}
use yodk.Nolol.Syntax.{SourceBlock, source_line, source_while, no_source, source}
use yodk.Parsing.Parser.Lines.Ends.{Returns}
use yodk.Nolol.Parser.Programs.{parsed, parse_source}
use yodk.Nolol.Parser.Programs.Ends.{parse_source-Returns}

abbrev loop_text : Text
loop_text =
    codes "while x do"
    ++ (10 ∷ (codes "Start> y=abs(x); break $" ++ (10 ∷ (codes "end" ++ (10 ∷ [])))))

abbrev at : ℕ → ℕ → Position
at line coloumn = record { file = []; line = line; coloumn = coloumn }

abbrev x_at : Position → NololExpression
x_at position = variable (record {
  position = position;
  variable = codes "x";
  operator = [];
  pre_post = absent;
  is_statement = false;
})

abbrev loop_tree : SourceBlock
loop_tree =
    source
      (source_while (at 1 1) (x_at (at 1 7)) (
        source
          (source_line
            (record {
              statements =
                  nolol_assignment (at 2 8) (codes "y") (codes "=")
                    (func_call (at 2 10) (codes "abs") (argument (x_at (at 2 14)) no_argument))
                  ∷ break_statement (at 2 18)
                  ∷ [];
              has_bol = false;
              has_eol = true;
              label = codes "start";
              position = at 2 1;
            })
            [])
          no_source))
      no_source

loop_parsed : parse_source false [] loop_text ≡ some (parsed loop_tree)
unfolding parse_source yodk.Parsing.Tokenizer.find_comment yodk.Text.has_prefix
    yodk.Parsing.Tokenizer.find_whitespace yodk.Parsing.Tokenizer.find_keyword
    yodk.Parsing.Tokenizer.find_symbol yodk.Parsing.Tokenizer.find_identifier yodk.Text.text_eq
loop_parsed = refl

parse_source-Returns_example : Returns (parse_source false [] loop_text)
parse_source-Returns_example = parse_source-Returns false [] loop_text
