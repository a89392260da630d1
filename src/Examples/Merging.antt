-- ===== src/Examples/Merging.antt =====
-- Runs of the merging of lines and of the numbering of labels, and their theorems applied.
use yodk.Common.{◌≡◌, refl, length, List, [], ◌∷◌, false}
use yodk.Text.{Text, codes}
use yodk.Ast.{unknown_position, number_constant, Statement, assignment}
use yodk.Nolol.Labels.{find_jump_labels, duplicate}
use yodk.Nolol.Labels.Numbers.{Numbers}
use yodk.Nolol.Ast.{ConvertedLine, goto_label}
use yodk.Nolol.Merging.{StatementLine, merged, merge_statement_elements}
use yodk.Nolol.Merging.LineLength.{get_length_of_line}

abbrev digit : Text → Statement
digit name =
    assignment unknown_position name (codes "=") (number_constant unknown_position (codes "1"))

-- a line of one statement
abbrev one_line : Text → Text → StatementLine Statement
one_line label name = record {
  statements = digit name ∷ [];
  has_bol = false;
  has_eol = false;
  label = label;
  position = unknown_position;
}

-- a converted line of a goto
abbrev goto_line : Text → Text → ConvertedLine
goto_line label target = record {
  statements = goto_label unknown_position target ∷ [];
  has_bol = false;
  has_eol = false;
  label = label;
  position = unknown_position;
}

abbrev four_lines : List (StatementLine Statement)
four_lines =
    one_line [] (codes "a")
    ∷ one_line [] (codes "b")
    ∷ one_line (codes "loop") (codes "c")
    ∷ one_line [] (codes "d")
    ∷ []

-- the label begins a line
two_lines :
    merge_statement_elements length 70 four_lines
    ≡ merged (
        record (one_line [] (codes "a")) { statements = digit (codes "a") ∷ digit (codes "b") ∷ [] }
        ∷ record (one_line (codes "loop") (codes "c")) {
          statements = digit (codes "c") ∷ digit (codes "d") ∷ [];
        }
        ∷ [])
unfolding merge_statement_elements
two_lines = refl

-- the line feed behind a line is counted
counted_line_feed : get_length_of_line (digit (codes "a") ∷ []) ≡ 4
unfolding get_length_of_line yodk.Text.has_prefix
counted_line_feed = refl

-- two lines that are converted
abbrev two_gotos : List ConvertedLine
two_gotos = goto_line (codes "loop") (codes "end") ∷ goto_line [] (codes "loop") ∷ []

-- labels that differ in case are one
declared_twice :
    find_jump_labels
      (one_line (codes "loop") (codes "a") ∷ one_line (codes "Loop") (codes "b") ∷ [])
    ≡ duplicate (codes "Loop")
unfolding find_jump_labels yodk.Text.to_lower yodk.Text.text_eq
declared_twice = refl
