-- ===== src/Nolol/Converter/Ifs.antt =====
-- pkg/nolol/converter_ifs.go: ifs of several lines become ifs of one line, or gotos around their blocks.
pub mod Blocks
pub mod Inlined
pub mod Cleaned
pub mod Jumped
pub mod Conditions
pub mod Meaning
use yodk.Common.{
  ℕ, zero, suc, ◌+◌, Bool, true, false, not, ◌&&◌, ◌||◌, List, [], ◌∷◌, ◌++◌, map, Option, none,
  some, if◌then◌else◌, ◌==◌, ltb, length,
}
use yodk.Text.{Text, codes}
use yodk.Ast.{Position, unknown_position, Expression, unary_operation}
use yodk.Optimizers.Inversion.{optimize_expression}
use yodk.Nolol.Ast.{
  LabelStatement, LabelStatements, assign, if_then, change, goto_label, ConvertedLine, block_of,
  statement, no_statement,
}
use yodk.Nolol.Merging.{
  StatementLine, Merged, merged, too_long, merge_statement_elements, max_line_length,
}
use yodk.Nolol.Converter.{
  Converter, Converted, converted, failed, ◌>>=◌, optimized, endif_label, skip_label,
}
use yodk.Nolol.Converter.Gotos.{converted_length, remove_duplicate_gotos, without_duplicates_in}

-- an entry of Positions, Conditions and Blocks, converted
pub record Branch : Type 0 where
  pub position : Position
  pub condition : Expression
  pub lines : List ConvertedLine

-- a line that the converter makes
abbrev pub made_line : Position → Text → List LabelStatement → ConvertedLine
made_line position label statements = record {
  statements = statements;
  has_bol = false;
  has_eol = false;
  label = label;
  position = position;
}

-- mergeNololNestableElements, whose error is not looked at: the elements are then nil
abbrev pub merged_or_nil : Merged LabelStatement → List ConvertedLine
merged_or_nil (merged lines) = lines
merged_or_nil (too_long lines) = []

unfoldable pub merge_nestable_elements : Converter → List ConvertedLine → List ConvertedLine
unfolding merge_statement_elements converted_length max_line_length
merge_nestable_elements c lines =
    merged_or_nil
      (merge_statement_elements converted_length (max_line_length c.uses_time_tracking) lines)

-- `if endlabel != ""`
abbrev pub goto_end : Text → List LabelStatement
goto_end endlabel = if length endlabel == 0 then [] else goto_label unknown_position endlabel ∷ []

-- the line with the if, without gotos behind gotos
unfoldable pub inline_line : Position → Expression → List LabelStatement → ConvertedLine
unfolding without_duplicates_in
inline_line position condition statements =
    made_line position []
      (if_then position condition (without_duplicates_in (block_of statements) false) ∷ [])

-- the statements of the block, if it is one line without a label
abbrev pub inline_statements : List ConvertedLine → Text → Option (List LabelStatement)
inline_statements [] endlabel = some []
inline_statements (line ∷ []) endlabel =
    if length line.label == 0 then some (line.statements ++ goto_end endlabel) else none
inline_statements (line ∷ next ∷ rest) endlabel = none

-- convertConditionInline: `none` is errInlineIfImpossible
unfoldable pub convert_condition_inline : Converter → Branch → Text → Option ConvertedLine
unfolding merge_nestable_elements inline_line converted_length max_line_length
convert_condition_inline c b endlabel =
    elim (inline_statements (merge_nestable_elements c b.lines) endlabel) [
      | none ↦ none
      | some statements ↦
          let line : ConvertedLine = inline_line b.position b.condition statements in
          if ltb (max_line_length c.uses_time_tracking) (converted_length line.statements)
          then none
          else some line
    ]

-- An inline if that became too long has removed gotos behind gotos in the ifs of the block.
abbrev pub cleaned : LabelStatement → LabelStatement
cleaned (if_then position condition block) =
    if_then position condition (without_duplicates_in block false)
cleaned s = s

abbrev pub cleaned_line : ConvertedLine → ConvertedLine
cleaned_line line = record line { statements = map cleaned line.statements }

-- the lines of the block behind a try to convert it to an inline if
unfoldable pub block_lines : Converter → Branch → List ConvertedLine
unfolding merge_nestable_elements without_duplicates_in
block_lines c b = elim (merge_nestable_elements c b.lines) [
  | [] ↦ b.lines
  | line ∷ [] ↦ if length line.label == 0 then map cleaned_line b.lines else b.lines
  | line ∷ next ∷ rest ↦ b.lines
]

-- `if endlabel != ""` of convertConditionMultiline
abbrev pub end_line : Text → List ConvertedLine
end_line endlabel =
    if length endlabel == 0
    then []
    else made_line unknown_position [] (goto_label unknown_position endlabel ∷ []) ∷ []

-- convertConditionMultiline
unfoldable pub convert_condition_multiline :
    Converter → Branch → ℕ → Text → Converted (List ConvertedLine)
unfolding optimize_expression block_lines
convert_condition_multiline c b index endlabel = do
  (condition, c₁) ←
      optimized (optimize_expression (unary_operation unknown_position (codes "not") b.condition)) c
  converted
      (made_line b.position [] (
          if_then b.position condition (block_of (goto_label b.position (skip_label c index) ∷ []))
          ∷ [])
        ∷ (block_lines c b
            ++ (end_line endlabel ++ made_line unknown_position (skip_label c index) [] ∷ [])))
      c₁

-- a condition and its block
unfoldable pub convert_condition : Converter → Branch → ℕ → Text → Converted (List ConvertedLine)
unfolding convert_condition_inline convert_condition_multiline
convert_condition c b index endlabel = elim (convert_condition_inline c b endlabel) [
  | some line ↦ converted (line ∷ []) c
  | none ↦ convert_condition_multiline c b index endlabel
]

-- `mlif.ElseBlock != nil || i < len(mlif.Conditions)-1`
abbrev pub end_label_of : Option (List ConvertedLine) → List Branch → Text → Text
end_label_of (some lines) rest endif = endif
end_label_of none [] endif = []
end_label_of none (b ∷ rest) endif = endif

-- the loop of convertIf, from an index
unfoldable pub convert_conditions :
    Option (List ConvertedLine) → ℕ → List Branch → Converter → Converted (List ConvertedLine)
unfolding convert_condition
convert_conditions else_block index [] c = converted [] c
convert_conditions else_block index (b ∷ rest) c = do
  (lines, c₁) ← convert_condition c b index (end_label_of else_block rest (endif_label c))
  (more, c₂) ← convert_conditions else_block (suc index) rest c₁
  converted (lines ++ more) c₂

abbrev pub else_lines : Option (List ConvertedLine) → List ConvertedLine
else_lines none = []
else_lines (some lines) = lines

-- convertIf
unfoldable pub convert_if :
    List Branch → Option (List ConvertedLine) → Converter → Converted (List ConvertedLine)
unfolding convert_conditions
convert_if branches else_block c = do
  (lines, c₁) ← convert_conditions else_block 0 branches c
  converted (lines ++ (else_lines else_block ++ made_line unknown_position (endif_label c) [] ∷ []))
      (record c₁ { iflabelcounter = suc c₁.iflabelcounter })
