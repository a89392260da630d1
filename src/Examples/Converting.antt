-- ===== src/Examples/Converting.antt =====
-- Conversions of small nolol programs, and the theorems on the converter applied.
use yodk.Common.{◌≡◌, refl, ℕ, suc, Bool, false, not, List, [], ◌∷◌, Option, some, ltb}
use yodk.Text.{Text, codes, text_eq}
use yodk.Optimizers.Static
use yodk.Optimizers.Inversion
use yodk.Ast.{
  unknown_position, Expression, number_constant, unary_operation, Dereference, absent, cons, nil,
  assignment, if_statement, goto_statement, no_else, Line, Program,
}
use yodk.Nolol.Ast.{
  number_literal, func_call, argument, no_argument, variable, nolol_assignment, statement_line,
  while_loop, Block, no_element, element, NololStatement, LabelStatement, assign, goto_label,
  ConvertedLine,
}
use yodk.Nolol.Merging.{StatementLine}
use yodk.Nolol.Converter.{Converted, converted, failed, new_converter}
use yodk.Nolol.Converter.Ensured.{Ensures, Returns}
use yodk.Nolol.Converter.Gotos.{remove_duplicate_gotos, without_duplicates, without_duplicate}
use yodk.Nolol.Converter.Gotos.Duplicates.{remove_duplicate_gotos-run_rounds}
use yodk.Nolol.Converter.Running.{
  proceeds, run_lines, run_rounds, run_line, run_statements, run_statement,
}
use yodk.Nolol.Converter.Ifs.{Branch, convert_if, merge_nestable_elements}
use yodk.Nolol.Converter.Ifs.Conditions.{FitsIf, run_branches}
use yodk.Nolol.Converter.Ifs.Meaning.{convert_if-run}
use yodk.Nolol.Converter.Loops.{convert_while_loop, is_always_true}
use yodk.Nolol.Converter.Loops.Meaning.{FitsLoop, LoopRuns, convert_while_loop-run}
use yodk.Nolol.Converter.Elements.{convert_element, convert_block}
use yodk.Nolol.Converter.Elements.Levels.{numbered_loop, convert_block-Levels}
use yodk.Nolol.Converter.Stays.{StaysIn}
use yodk.Nolol.Converter.Whole.{convert}
use yodk.Nolol.Converter.Whole.Jumps.{IsProgram, convert-IsProgram}
use yodk.Examples.{tally, here, var}

abbrev nolol_line : List NololStatement → StatementLine NololStatement
nolol_line statements = record {
  statements = statements;
  has_bol = false;
  has_eol = false;
  label = [];
  position = here;
}

abbrev named : Text → Dereference
named name = record {
  position = here;
  variable = name;
  operator = [];
  pre_post = absent;
  is_statement = false;
}

-- while x do x=1 end
abbrev loop_program : Block
loop_program =
    element
      (while_loop here (variable (named (codes "x"))) (
        element
          (statement_line (
            nolol_line (
              nolol_assignment here (codes "x") (codes "=") (number_literal here (codes "1"))
              ∷ [])))
          no_element))
      no_element

abbrev program_of : Converted Program → List Line
program_of (converted program c) = program.lines
program_of (failed msg) = []

-- if not b then goto 2 end b=1 goto 1
abbrev loop_result : List Line
loop_result =
    record {
      position = here;
      statements =
          cons
            (if_statement here (unary_operation here (codes "not") (var (codes "b")))
              (cons (goto_statement here (number_constant here (codes "2"))) nil) no_else)
            (cons (assignment here (codes "b") (codes "=") (number_constant here (codes "1"))) (
              cons (goto_statement unknown_position (number_constant unknown_position (codes "1")))
                nil));
      comment = [];
    }
    ∷ []

looped : program_of (convert tally loop_program new_converter) ≡ loop_result
unfolding convert new_converter yodk.Text.has_prefix yodk.Text.to_lower
looped = refl

convert-IsProgram_example : Ensures IsProgram (convert tally loop_program new_converter)
convert-IsProgram_example = convert-IsProgram tally loop_program new_converter

-- y=abs(x) and z=x: x is b, and c where it is the argument of the function
abbrev function_program : Block
function_program =
    element
      (statement_line (
        nolol_line (
          nolol_assignment here (codes "y") (codes "=")
            (func_call here (codes "abs") (argument (variable (named (codes "x"))) no_argument))
          ∷ nolol_assignment here (codes "z") (codes "=") (variable (named (codes "x")))
          ∷ [])))
      no_element

renamed_twice :
    program_of (convert tally function_program new_converter)
    ≡ record {
      position = here;
      statements =
          cons
            (assignment here
              (codes "d")
              (codes "=")
              (unary_operation here (codes "abs") (var (codes "c"))))
            (cons (assignment here (codes "e") (codes "=") (var (codes "b"))) nil);
      comment = [];
    }
      ∷ []
unfolding convert new_converter yodk.Text.has_prefix yodk.Text.to_lower
renamed_twice = refl

-- Statements add one, and a variable holds below 3.
abbrev add_one : LabelStatement → ℕ → ℕ
add_one s n = suc n

unfoldable below_three : Expression → ℕ → Bool × ℕ
below_three (unary_operation p operator e) n = let t = below_three e n in (not t.0, t.1)
below_three _ n = (ltb n 3, n)

abbrev block_line : List LabelStatement → ConvertedLine
block_line statements = record {
  statements = statements;
  has_bol = false;
  has_eol = false;
  label = [];
  position = here;
}

abbrev one : LabelStatement
one = assign here (codes "x") (codes "=") (number_constant here (codes "1"))

-- goto a, behind a line that ends with it
abbrev jumping : List ConvertedLine
jumping =
    block_line (one ∷ goto_label here (codes "a") ∷ [])
    ∷ block_line (goto_label here (codes "b") ∷ one ∷ [])
    ∷ []

removed :
    remove_duplicate_gotos jumping false
    ≡ block_line (one ∷ goto_label here (codes "a") ∷ []) ∷ block_line (one ∷ []) ∷ []
unfolding remove_duplicate_gotos without_duplicates without_duplicate
removed = refl

remove_duplicate_gotos-run_rounds_example :
    run_rounds add_one below_three 2 (proceeds 0) (remove_duplicate_gotos jumping false)
    ≡ run_rounds add_one below_three 2 (proceeds 0) jumping
remove_duplicate_gotos-run_rounds_example =
    remove_duplicate_gotos-run_rounds add_one below_three 2 (proceeds 0) jumping

convert_block-Levels_example :
    StaysIn new_converter (convert_block tally loop_program new_converter)
    × (convert_element tally
          (while_loop here (variable (named (codes "x"))) loop_program)
          new_converter
        ≡ numbered_loop tally here (variable (named (codes "x"))) loop_program new_converter)
convert_block-Levels_example =
    convert_block-Levels tally here (variable (named (codes "x"))) loop_program new_converter

-- if x then x=1 else if y then x=1 goto z else x=1 end
abbrev two_branches : List Branch
two_branches =
    record { position = here; condition = var (codes "x"); lines = block_line (one ∷ []) ∷ [] }
    ∷ record {
      position = here;
      condition = var (codes "y");
      lines = block_line (one ∷ goto_label here (codes "z") ∷ []) ∷ [];
    }
    ∷ []

abbrev else_part : Option (List ConvertedLine)
else_part = some (block_line (one ∷ []) ∷ [])

two_branches-FitsIf : FitsIf add_one below_three new_converter 0 two_branches else_part
unfolding below_three new_converter merge_nestable_elements yodk.Text.has_prefix text_eq run_lines
    run_line run_statements run_statement Inversion.optimize_expression
two_branches-FitsIf = (
  record {
    merges = tt;
    inverts = (unary_operation unknown_position (codes "not") (var (codes "x")), refl, λ s. refl);
    no_endif = (refl, tt);
    no_skip = (refl, tt);
    leaves = λ s. tt;
  },
  (
    record {
      merges = tt;
      inverts = (unary_operation unknown_position (codes "not") (var (codes "y")), refl, λ s. refl);
      no_endif = (refl, tt);
      no_skip = (refl, tt);
      leaves = λ s. (refl, λ j. refl, (refl, tt));
    },
    ((refl, tt), λ s. tt),
  ),
)

convert_if-run_example :
    Returns
      (λ lines c'.
        (c' ≡ record new_converter { iflabelcounter = 1 })
        × ((s : ℕ)
            → run_lines add_one below_three (proceeds s) lines
              ≡ run_branches add_one below_three two_branches else_part s))
      (convert_if two_branches else_part new_converter)
unfolding new_converter
convert_if-run_example =
    convert_if-run add_one below_three new_converter two_branches else_part two_branches-FitsIf

x-FitsLoop :
    FitsLoop add_one below_three tally
      (var (codes "x"))
      (var (codes "x"))
      (unary_operation here (codes "not") (var (codes "x")))
unfolding below_three Static.optimize_expression Inversion.optimize_expression is_always_true
    text_eq
x-FitsLoop = record {
  folds = refl;
  same = λ s. refl;
  always = λ e. absurd (cc e);
  inverts = refl;
  negates = λ s. refl;
}

convert_while_loop-run_example :
    Returns
      (λ code c'.
        (c' ≡ new_converter)
        × LoopRuns add_one below_three 1 (var (codes "x")) (block_line (one ∷ []) ∷ []) code)
      (convert_while_loop tally 1 here (var (codes "x")) (block_line (one ∷ []) ∷ []) new_converter)
convert_while_loop-run_example =
    convert_while_loop-run add_one below_three tally 1 here (var (codes "x")) (var (codes "x"))
      (unary_operation here (codes "not") (var (codes "x"))) (block_line (one ∷ []) ∷ [])
      new_converter x-FitsLoop (refl, tt)
