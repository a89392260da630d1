-- ===== src/Nolol/Converter/Loops.antt =====
-- pkg/nolol/converter_loops.go and converter_builtins.go: while loops and wait directives.
pub mod Meaning
use yodk.Common.{
  ℕ, suc, ◌+◌, Bool, true, false, not, ◌&&◌, List, [], ◌∷◌, ◌++◌, Option, none, some, if◌then◌else◌,
  ◌==◌, ltb, length,
}
use yodk.Text.{Text, codes}
use yodk.Ast.{Position, unknown_position, Expression, number_constant, unary_operation}
use yodk.Ast.Positions.{start}
use yodk.Vm.Decimals.{Decimals}
use yodk.Vm.Variable.{variable_from_string, to_number}
use yodk.Optimizers.Static
use yodk.Optimizers.Inversion
use yodk.Nolol.Ast.{LabelStatement, if_then, goto_label, ConvertedLine, block_of}
use yodk.Nolol.Merging.{StatementLine, max_line_length}
use yodk.Nolol.Converter.{
  Converter, Converted, converted, failed, ◌>>=◌, optimized, wait_label, while_label,
  endwhile_label,
}
use yodk.Nolol.Converter.Gotos.{converted_length}
use yodk.Nolol.Converter.Ifs.{made_line}

-- the line of a wait directive
abbrev pub wait_line : Text → Position → Expression → List LabelStatement → ConvertedLine
wait_line label position condition statements = record {
  statements =
      if_then position condition (block_of (goto_label unknown_position label ∷ [])) ∷ statements;
  has_bol = false;
  has_eol = true;
  label = label;
  position = unknown_position;
}

-- convertWait; the counter of its label is not increased
unfoldable pub convert_wait :
    Position → Expression → List LabelStatement → Converter → Converted (List ConvertedLine)
unfolding converted_length max_line_length
convert_wait position condition statements c =
    let line : ConvertedLine = wait_line (wait_label c) position condition statements in
    if ltb (max_line_length c.uses_time_tracking) (converted_length line.statements)
    then failed (codes "The line is too long to be converted to yolol")
    else converted (line ∷ []) c

module _ {N : Type 0} (D : Decimals N) where
  -- conditionIsAlwaysTrue
  unfoldable pub is_always_true : Expression → Bool
  unfolding variable_from_string to_number
  is_always_true (number_constant position value) =
      not (D.equal (to_number D (variable_from_string D value)) D.zero_decimal)
  is_always_true e = false

  -- the statements of the first line: none, or the check of the condition
  unfoldable pub check_condition :
      Position → Position → Text → Expression → Converter → Converted (List LabelStatement)
  unfolding is_always_true Inversion.optimize_expression
  check_condition position condition_start end_label condition c =
      let checked = do
        (inverted, c₁) ←
            optimized
              (Inversion.optimize_expression
                (unary_operation (start condition) (codes "not") condition))
              c
        converted
            (if_then condition_start inverted (block_of (goto_label position end_label ∷ [])) ∷ [])
            c₁
      in if is_always_true condition then converted [] c else checked

  -- convertWhileLoop
  unfoldable pub convert_while_loop :
      ℕ → Position → Expression → List ConvertedLine → Converter → Converted (List ConvertedLine)
  unfolding check_condition Static.optimize_expression
  convert_while_loop loopnr position condition lines c = do
    (condition', c₁) ← optimized (Static.optimize_expression D condition) c
    (check, c₂) ← check_condition position (start condition) (endwhile_label loopnr) condition' c₁
    converted
        (made_line position (while_label loopnr) check
          ∷ (lines
              ++ (made_line unknown_position []
                    (goto_label unknown_position (while_label loopnr) ∷ [])
                  ∷ made_line position (endwhile_label loopnr) []
                  ∷ [])))
        c₂
