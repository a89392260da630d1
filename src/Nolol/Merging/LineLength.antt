-- ===== src/Nolol/Merging/LineLength.antt =====
-- pkg/nolol/converter.go: getLengthOfLine, for the statements of yolol.
use yodk.Common.{ℕ, false, List, [], ◌∷◌, length}
use yodk.Ast.{Statement, Statements, nil, cons, unknown_position}
use yodk.Parsing.Printer.{Printer, compact, print_line}

abbrev pub statements_of : List Statement → Statements
statements_of [] = nil
statements_of (statement ∷ rest) = cons statement (statements_of rest)

-- getLengthOfLine. The line is printed by itself, so that it is never the last line of its program.
unfoldable pub get_length_of_line : List Statement → ℕ
unfolding print_line
get_length_of_line statements = length (
    Printer.text (
      print_line false
        (record {
          position = unknown_position;
          statements = statements_of statements;
          comment = [];
        })
        (record { mode = compact; text = []; last_was_space = false })))
