-- ===== src/Nolol/Merging.antt =====
-- pkg/nolol/converter.go: merging lines of statements into as few lines as possible. Statements are of
-- any type, since those of nolol are more than those of yolol; what getLengthOfLine gives for a list of
-- them is a parameter, and LineLength has it for yolol.
pub mod Groups
pub mod LineLength
pub mod Shorter
use yodk.Common.{
  ℕ, ◌+◌, Bool, true, false, not, ◌&&◌, List, [], ◌∷◌, ◌++◌, if◌then◌else◌, ltb, leb, ◌==◌, length,
}
use yodk.Text.{Text}
use yodk.Ast.{Position}

-- StatementLine; its comment plays no part here.
pub record StatementLine (S : Type 0) : Type 0 where
  pub statements : List S
  pub has_bol : Bool
  pub has_eol : Bool
  pub label : Text
  pub position : Position

-- What mergeStatementElements returns: the new elements, or these with the error at the last of them.
pub data Merged (S : Type 0) : Type 0 where
  merged : List (StatementLine S) → Merged S
  too_long : List (StatementLine S) → Merged S

-- maxLineLength
unfoldable pub max_line_length : Bool → ℕ
max_line_length uses_time_tracking = if uses_time_tracking then 66 else 70

module _ {S : Type 0} where
  -- the new line that a line begins
  abbrev pub new_line : StatementLine S → StatementLine S
  new_line line = record {
    statements = line.statements;
    has_bol = false;
    has_eol = line.has_eol;
    label = line.label;
    position = line.position;
  }

  -- append(current.Statements, nextline.Statements...)
  abbrev pub append_line : StatementLine S → StatementLine S → StatementLine S
  append_line current line = record current { statements = current.statements ++ line.statements }

  -- append(newElements, current), in front of what the rest gives
  abbrev pub after_line : StatementLine S → Merged S → Merged S
  after_line current (merged lines) = merged (current ∷ lines)
  after_line current (too_long lines) = too_long (current ∷ lines)

  module _ (line_length : List S → ℕ) (max : ℕ) where
    -- the test for appending the next line
    abbrev pub appends : StatementLine S → StatementLine S → Bool
    appends current line =
        (length line.label == 0)
        && (leb (line_length current.statements + line_length line.statements) max
            && not line.has_bol)

    -- The two loops, from a line to which others may be appended, unless it is closed: the inner loop
    -- has ended there at an end of line. The outer loop goes on at the first line that is not appended.
    unfoldable pub merge_from : StatementLine S → Bool → List (StatementLine S) → Merged S
    merge_from current closed [] = merged (current ∷ [])
    merge_from current closed (line ∷ rest) =
        let next_line = after_line current (merge_from (new_line line) line.has_eol rest) in
        let longer = merge_from (append_line current line) line.has_eol rest in
        if closed
        then next_line
        else if ltb max (line_length current.statements)
        then too_long (current ∷ [])
        else if appends current line
        then longer
        else next_line

    -- mergeStatementElements
    unfoldable pub merge_statement_elements : List (StatementLine S) → Merged S
    unfolding merge_from
    merge_statement_elements [] = merged []
    merge_statement_elements (line ∷ rest) = merge_from (new_line line) line.has_eol rest
