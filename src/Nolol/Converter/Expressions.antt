-- ===== src/Nolol/Converter/Expressions.antt =====
-- pkg/nolol/converter_definitions.go and converter_builtins.go: definitions and built-in functions, and
-- the conversion of expressions and statements by the visitor of convertNodes.
use yodk.Common.{
  ℕ, Bool, true, false, not, ◌&&◌, List, [], ◌∷◌, ◌++◌, none, some, if◌then◌else◌, ◌==◌, length,
}
use yodk.Text.{Text, codes, to_lower, is}
use yodk.Ast.{
  Position, unknown_position, absent, Dereference, Expression, string_constant, number_constant,
  dereference, unary_operation, binary_operation,
}
use yodk.Vm.Decimals.{Decimals}
use yodk.Optimizers.Names.{optimize_var_name}
use yodk.Optimizers.Static.{Folded, folded, unchanged, panics, optimize_expression_non_recursive}
use yodk.Parsing.Parser.{contains}
use yodk.Nolol.Ast.{
  NololExpression, string_literal, number_literal, variable, unary, binary, func_call, Arguments,
  no_argument, argument, NololStatement, nolol_assignment, nolol_dereference, nolol_goto,
  break_statement, continue_statement, LabelStatement, assign, change, goto_label,
}
use yodk.Nolol.Converter.{
  Converter, Converted, converted, failed, ◌>>=◌, get_definition, while_label, endwhile_label,
}

abbrev pub is_empty : Text → Bool
is_empty s = length s == 0

-- c.varnameOptimizer.OptimizeVarName
unfoldable pub optimized_name : Text → Converter → Converted Text
unfolding optimize_var_name
optimized_name name c =
    let (name', o) = optimize_var_name name c.varname_optimizer in
    converted name' (record c { varname_optimizer = o })

-- the cases of convertDereference for a definition; the copy is a value of its own
unfoldable pub replaced_dereference : Dereference → Expression → Converter → Converted Expression
replaced_dereference deref (dereference v) c =
    if not (is_empty deref.operator) && not (is_empty v.operator)
    then failed
        (codes "You can not use pre/post-operators on defitions that use the operator themselves")
    else if is_empty deref.operator
    then converted (dereference v) c
    else converted (dereference (record v { operator = deref.operator; pre_post = deref.pre_post }))
        c
replaced_dereference deref replacement c =
    if is_empty deref.operator
    then converted replacement c
    else failed (codes "Can not use pre/port-operators on expressions")

-- convertDereference
unfoldable pub convert_dereference : Dereference → Converter → Converted Expression
unfolding get_definition replaced_dereference optimized_name
convert_dereference deref c = elim (get_definition deref.variable c) [
  | some replacement ↦ replaced_dereference deref replacement c
  | none ↦ do
    (name, c₁) ← optimized_name deref.variable c
    converted (dereference (record deref { variable = name })) c₁
]

-- the assignment to a definition
unfoldable pub assign_definition :
    Position → Text → Expression → Expression → Converter → Converted LabelStatement
assign_definition position operator value (dereference v) c =
    if is_empty v.operator
    then converted (assign position v.variable operator value) c
    else failed
        (codes "Can not assign to a definition that is an expression (need a single variable name)")
assign_definition position operator value replacement c =
    failed
      (codes "Can not assign to a definition that is an expression (need a single variable name)")

-- convertAssignment
unfoldable pub convert_assignment :
    Position → Text → Text → Expression → Converter → Converted LabelStatement
unfolding get_definition assign_definition optimized_name
convert_assignment position name operator value c = elim (get_definition name c) [
  | some replacement ↦ assign_definition position operator value replacement c
  | none ↦ do
    (name', c₁) ← optimized_name name c
    converted (assign position name' operator value) c₁
]

abbrev pub unaryops : List Text
unaryops =
    codes "abs"
    ∷ codes "sqrt"
    ∷ codes "sin"
    ∷ codes "cos"
    ∷ codes "tan"
    ∷ codes "asin"
    ∷ codes "acos"
    ∷ codes "atan"
    ∷ []

abbrev pub reserved_time_variable : Text
reserved_time_variable = codes "_time"

abbrev pub time_dereference : Text → Dereference
time_dereference name = record {
  position = unknown_position;
  variable = name;
  operator = [];
  pre_post = absent;
  is_statement = false;
}

-- the case of time in convertFuncCall
unfoldable pub convert_time : Converter → Converted Expression
unfolding optimized_name
convert_time c = do
  (name, c₁) ← optimized_name reserved_time_variable c
  converted (dereference (time_dereference name)) c₁

module _ {N : Type 0} (D : Decimals N) where
  -- the case BinaryOperation of convertNodes
  unfoldable pub fold_operation : Expression → Folded → Converter → Converted Expression
  fold_operation node unchanged c = converted node c
  fold_operation node panics c = failed (codes "This should never happen")
  fold_operation node (folded repl) c = converted repl c

  -- The visit of an expression that is there already: a replacement without Skip is visited again.
  unfoldable pub convert_again : Expression → Converter → Converted Expression
  unfolding convert_dereference optimize_expression_non_recursive fold_operation
  convert_again (string_constant position value) c = converted (string_constant position value) c
  convert_again (number_constant position value) c = converted (number_constant position value) c
  convert_again (dereference d) c = convert_dereference d c
  convert_again (unary_operation position operator exp) c = do
    (exp', c₁) ← convert_again exp c
    converted (unary_operation position operator exp') c₁
  convert_again (binary_operation operator exp1 exp2) c = do
    (exp1', c₁) ← convert_again exp1 c
    (exp2', c₂) ← convert_again exp2 c₁
    fold_operation (binary_operation operator exp1' exp2')
        (optimize_expression_non_recursive D (binary_operation operator exp1' exp2')) c₂

  -- the unary functions of convertFuncCall, with what AcceptChild does with their replacement
  unfoldable pub convert_unary :
      Position → Text → List Expression → Converter → Converted Expression
  unfolding convert_again
  convert_unary position nfunc (exp ∷ []) c = convert_again (unary_operation position nfunc exp) c
  convert_unary position nfunc arguments c =
      failed (codes "The yolol-functions all take exactly one argument")

  -- convertFuncCall
  unfoldable pub convert_func_call :
      Position → Text → List Expression → Converter → Converted Expression
  unfolding convert_time convert_unary contains
  convert_func_call position function arguments c =
      let nfunc : Text = to_lower function in
      if is nfunc "time"
      then convert_time (record c { uses_time_tracking = true })
      else if contains unaryops nfunc
      then convert_unary position nfunc arguments c
      else failed (codes "Unknown function: " ++ function)

  -- convertNodes, of expressions
  unfoldable mutual
    unfolding convert_dereference convert_func_call fold_operation optimize_expression_non_recursive

    pub convert_expression : NololExpression → Converter → Converted Expression
    convert_expression (string_literal position value) c =
        converted (string_constant position value) c
    convert_expression (number_literal position value) c =
        converted (number_constant position value) c
    convert_expression (variable d) c = convert_dereference d c
    convert_expression (unary position operator exp) c = do
      (exp', c₁) ← convert_expression exp c
      converted (unary_operation position operator exp') c₁
    convert_expression (binary operator exp1 exp2) c = do
      (exp1', c₁) ← convert_expression exp1 c
      (exp2', c₂) ← convert_expression exp2 c₁
      fold_operation (binary_operation operator exp1' exp2')
          (optimize_expression_non_recursive D (binary_operation operator exp1' exp2')) c₂
    convert_expression (func_call position function arguments) c = do
      (arguments', c₁) ← convert_arguments arguments c
      convert_func_call position function arguments' c₁

    pub convert_arguments : Arguments → Converter → Converted (List Expression)
    convert_arguments no_argument c = converted [] c
    convert_arguments (argument exp rest) c = do
      (exp', c₁) ← convert_expression exp c
      (rest', c₂) ← convert_arguments rest c₁
      converted (exp' ∷ rest') c₂

  -- A replacement of a statement as a statement. In Go el.(ast.Statement) holds for every node, so that
  -- an expression of another kind would stand in the list of statements. LabelStatement has none of
  -- these, and the model fails here: it is for trees whose dereferences that are statements have an
  -- operator, as the parser makes them.
  abbrev pub as_statement : Expression → Converter → Converted LabelStatement
  as_statement (dereference d) c = converted (change d) c
  as_statement e c = failed (codes "interface conversion")

  -- convertBreakStatement and convertContinueStatement
  abbrev pub goto_of_loop :
      (ℕ → Text) → Text → Position → Converter → List ℕ → Converted LabelStatement
  goto_of_loop label msg position c [] = failed msg
  goto_of_loop label msg position c (loopnr ∷ outer) =
      converted (goto_label position (label loopnr)) c

  -- convertNodes, of statements
  unfoldable pub convert_statement : NololStatement → Converter → Converted LabelStatement
  unfolding convert_expression convert_assignment convert_dereference
  convert_statement (nolol_assignment position name operator value) c = do
    (value', c₁) ← convert_expression value c
    convert_assignment position name operator value' c₁
  convert_statement (nolol_dereference d) c = do
    (e, c₁) ← convert_dereference d c
    as_statement e c₁
  convert_statement (nolol_goto position label) c = converted (goto_label position label) c
  convert_statement (break_statement position) c =
      goto_of_loop endwhile_label (codes "The break keyword can only be used inside loops") position
        c c.loop_level
  convert_statement (continue_statement position) c =
      goto_of_loop while_label (codes "The continue keyword can only be used inside loops") position
        c c.loop_level

  unfoldable pub convert_statements :
      List NololStatement → Converter → Converted (List LabelStatement)
  unfolding convert_statement
  convert_statements [] c = converted [] c
  convert_statements (s ∷ rest) c = do
    (s', c₁) ← convert_statement s c
    (rest', c₂) ← convert_statements rest c₁
    converted (s' ∷ rest') c₂
