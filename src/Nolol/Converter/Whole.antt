-- ===== src/Nolol/Converter/Whole.antt =====
-- pkg/nolol/converter.go: Convert.
pub mod Jumps
use yodk.Common.{
  ℕ, Bool, true, false, List, [], ◌∷◌, ◌++◌, Option, none, some, if◌then◌else◌, ltb, length,
}
use yodk.Text.{Text, codes}
use yodk.Text.Map.{Map}
use yodk.Ast.{
  Position, unknown_position, post, Dereference, Statement, Statements, cons, deref_statement, Line,
  Program,
}
use yodk.Vm.Decimals.{Decimals}
use yodk.Nolol.Ast.{LabelStatement, Block, ConvertedLine}
use yodk.Nolol.Merging.{
  StatementLine, Merged, merged, too_long, merge_statement_elements, max_line_length,
}
use yodk.Nolol.Labels.{Labelled, labelled, duplicate, find_jump_labels}
use yodk.Nolol.Converter.{Converter, Converted, converted, failed, ◌>>=◌}
use yodk.Nolol.Converter.Expressions.{optimized_name, reserved_time_variable}
use yodk.Nolol.Converter.Gotos.{
  converted_length, remove_duplicate_gotos, remove_unused_labels, resolve_goto_chains, Linked,
  linked, unknown_label, replaced_gotos,
}
use yodk.Nolol.Converter.Elements.{convert_block, block_uses_time}

-- the errors of the steps of Convert
abbrev pub merged_elements : Merged LabelStatement → Converter → Converted (List ConvertedLine)
merged_elements (merged lines) c = converted lines c
merged_elements (too_long lines) c = failed (
    codes
      "The line is too long (>70 characters) to be converted to yolol, even after optimization.")

abbrev pub labelled_elements :
    Labelled LabelStatement → Converter → Converted (Map ℕ × List ConvertedLine)
labelled_elements (labelled labels lines) c = converted (labels, lines) c
labelled_elements (duplicate label) c =
    failed (codes "Duplicate declaration of jump-label: " ++ label)

abbrev pub linked_statements : Linked Statements → Converter → Converted Statements
linked_statements (linked statements) c = converted statements c
linked_statements (unknown_label label) c = failed (codes "Unknown jump-label: " ++ label)

abbrev pub line_counter : Text → Dereference
line_counter name = record {
  position = unknown_position;
  variable = name;
  operator = codes "++";
  pre_post = post;
  is_statement = true;
}

-- insertLineCounter, of a line
unfoldable pub insert_line_counter : Statements → Converter → Converted Statements
unfolding optimized_name
insert_line_counter statements c = do
  (name, c₁) ← optimized_name reserved_time_variable c
  converted (cons (deref_statement (line_counter name)) statements) c₁

-- replaceGotoLabels and insertLineCounter, and the lines of the program
unfoldable pub finished_lines : Map ℕ → List ConvertedLine → Converter → Converted (List Line)
unfolding replaced_gotos insert_line_counter
finished_lines labels [] c = converted [] c
finished_lines labels (line ∷ rest) c = do
  (statements, c₁) ← linked_statements (replaced_gotos labels line.statements) c
  (counted, c₂) ←
      (if c₁.uses_time_tracking then insert_line_counter statements c₁ else converted statements c₁)
  (more, c₃) ← finished_lines labels rest c₂
  converted (record { position = line.position; statements = counted; comment = [] } ∷ more) c₃

-- the test for the length of the program
abbrev pub checked_program : List Line → Converter → Converted Program
checked_program lines c =
    if ltb 20 (length lines)
    then failed (codes "Program is too large to be compiled into 20 lines of yolol.")
    else converted (record { lines = lines }) c

-- Convert behind convertNodes
unfoldable pub convert_lines : List ConvertedLine → Converter → Converted Program
unfolding resolve_goto_chains remove_unused_labels merge_statement_elements converted_length
    max_line_length remove_duplicate_gotos find_jump_labels finished_lines
convert_lines lines c = do
  (elements, c₁) ←
      merged_elements
        (merge_statement_elements converted_length (max_line_length c.uses_time_tracking)
          (remove_unused_labels (resolve_goto_chains lines)))
        c
  ((labels, kept), c₂) ←
      labelled_elements (find_jump_labels (remove_duplicate_gotos elements false)) c₁
  (program, c₃) ← finished_lines labels kept c₂
  checked_program program c₃

module _ {N : Type 0} (D : Decimals N) where
  -- Convert
  unfoldable pub convert : Block → Converter → Converted Program
  unfolding convert_block block_uses_time optimized_name convert_lines
  convert prog c = do
    (name, c₁) ←
        optimized_name reserved_time_variable
          (record c { uses_time_tracking = block_uses_time prog })
    (lines, c₂) ← convert_block D prog c₁
    convert_lines lines c₂
