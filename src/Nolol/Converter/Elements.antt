-- ===== src/Nolol/Converter/Elements.antt =====
-- pkg/nolol/converter.go: convertNodes, of the elements of a program and of blocks.
pub mod Levels
use yodk.Common.{
  ℕ, suc, Bool, true, false, ◌||◌, List, [], ◌∷◌, ◌++◌, Option, none, some, if◌then◌else◌,
}
use yodk.Text.{Text, codes, is}
use yodk.Ast.{Position, Expression}
use yodk.Vm.Decimals.{Decimals}
use yodk.Nolol.Ast.{
  NololExpression, string_literal, number_literal, variable, unary, binary, func_call, Arguments,
  no_argument, argument, NololStatement, nolol_assignment, nolol_dereference, nolol_goto,
  break_statement, continue_statement, LabelStatement, Element, statement_line, definition,
  wait_directive, multiline_if, while_loop, Block, no_element, element, Branches, no_branch, branch,
  ElseElements, no_else_elements, else_elements, ConvertedLine,
}
use yodk.Nolol.Merging.{StatementLine}
use yodk.Nolol.Converter.{Converter, Converted, converted, failed, ◌>>=◌, set_definition}
use yodk.Nolol.Converter.Expressions.{convert_expression, convert_statements}
use yodk.Nolol.Converter.Ifs.{Branch, convert_if}
use yodk.Nolol.Converter.Loops.{convert_wait, convert_while_loop}

-- the line with other statements
abbrev pub with_statements : StatementLine NololStatement → List LabelStatement → ConvertedLine
with_statements line statements = record {
  statements = statements;
  has_bol = line.has_bol;
  has_eol = line.has_eol;
  label = line.label;
  position = line.position;
}

-- the PreVisit of a WhileLoop
abbrev pub enter_loop : Converter → Converter
enter_loop c = record c {
  loopcounter = suc c.loopcounter;
  loop_level = suc c.loopcounter ∷ c.loop_level;
}

-- c.loopLevel[:len(c.loopLevel)-1]
abbrev pub leave_loop : Converter → Converter
leave_loop c = elim c.loop_level [ [] ↦ c | loopnr ∷ outer ↦ record c { loop_level = outer } ]

-- getCurrentLoopNumber and convertWhileLoop; behind the body of a loop there is one
abbrev pub in_loop : (ℕ → Converted (List ConvertedLine)) → List ℕ → Converted (List ConvertedLine)
in_loop convert [] = failed (codes "index out of range")
in_loop convert (loopnr ∷ outer) = convert loopnr

module _ {N : Type 0} (D : Decimals N) where
  unfoldable mutual
    unfolding convert_expression convert_statements convert_if convert_wait convert_while_loop
        set_definition

    -- the visits of an element, and what it is replaced by
    pub convert_element : Element → Converter → Converted (List ConvertedLine)
    convert_element (statement_line line) c = do
      (statements, c₁) ← convert_statements D line.statements c
      converted (with_statements line statements ∷ []) c₁
    convert_element (definition position name value) c = do
      (value', c₁) ← convert_expression D value c
      converted [] (set_definition name value' c₁)
    convert_element (wait_directive position condition statements) c = do
      (condition', c₁) ← convert_expression D condition c
      (statements', c₂) ← convert_statements D statements c₁
      convert_wait position condition' statements' c₂
    convert_element (multiline_if branches else_part) c = do
      (branches', c₁) ← convert_branches branches c
      (else_block, c₂) ← convert_else else_part c₁
      convert_if branches' else_block c₂
    convert_element (while_loop position condition block) c = do
      (condition', c₁) ← convert_expression D condition (enter_loop c)
      (lines, c₂) ← convert_block block c₁
      (result, c₃) ←
          in_loop (λ loopnr. convert_while_loop D loopnr position condition' lines c₂) c₂.loop_level
      converted result (leave_loop c₃)

    pub convert_block : Block → Converter → Converted (List ConvertedLine)
    convert_block no_element c = converted [] c
    convert_block (element e rest) c = do
      (lines, c₁) ← convert_element e c
      (more, c₂) ← convert_block rest c₁
      converted (lines ++ more) c₂

    pub convert_branches : Branches → Converter → Converted (List Branch)
    convert_branches no_branch c = converted [] c
    convert_branches (branch position condition block rest) c = do
      (condition', c₁) ← convert_expression D condition c
      (lines, c₂) ← convert_block block c₁
      (more, c₃) ← convert_branches rest c₂
      converted (record { position = position; condition = condition'; lines = lines } ∷ more) c₃

    pub convert_else : ElseElements → Converter → Converted (Option (List ConvertedLine))
    convert_else no_else_elements c = converted none c
    convert_else (else_elements block) c = do
      (lines, c₁) ← convert_block block c
      converted (some lines) c₁

-- usesTimeTracking; here the name is compared as it is written
unfoldable mutual
  pub uses_time : NololExpression → Bool
  uses_time (string_literal position value) = false
  uses_time (number_literal position value) = false
  uses_time (variable d) = false
  uses_time (unary position operator exp) = uses_time exp
  uses_time (binary operator exp1 exp2) = uses_time exp1 || uses_time exp2
  uses_time (func_call position function arguments) =
      is function "time" || argument_uses_time arguments

  pub argument_uses_time : Arguments → Bool
  argument_uses_time no_argument = false
  argument_uses_time (argument exp rest) = uses_time exp || argument_uses_time rest

unfoldable pub statements_use_time : List NololStatement → Bool
unfolding uses_time
statements_use_time [] = false
statements_use_time (nolol_assignment position name operator value ∷ rest) =
    uses_time value || statements_use_time rest
statements_use_time (s ∷ rest) = statements_use_time rest

unfoldable mutual
  unfolding uses_time statements_use_time

  pub element_uses_time : Element → Bool
  element_uses_time (statement_line line) = statements_use_time line.statements
  element_uses_time (definition position name value) = uses_time value
  element_uses_time (wait_directive position condition statements) =
      uses_time condition || statements_use_time statements
  element_uses_time (multiline_if branches else_part) =
      branch_uses_time branches || else_uses_time else_part
  element_uses_time (while_loop position condition block) =
      uses_time condition || block_uses_time block

  pub block_uses_time : Block → Bool
  block_uses_time no_element = false
  block_uses_time (element e rest) = element_uses_time e || block_uses_time rest

  pub branch_uses_time : Branches → Bool
  branch_uses_time no_branch = false
  branch_uses_time (branch position condition block rest) =
      uses_time condition || (block_uses_time block || branch_uses_time rest)

  pub else_uses_time : ElseElements → Bool
  else_uses_time no_else_elements = false
  else_uses_time (else_elements block) = block_uses_time block
