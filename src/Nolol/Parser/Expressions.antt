-- ===== src/Nolol/Parser/Expressions.antt =====
-- pkg/nolol/parser.go: the parsing functions of expressions. Those of pkg/parser/parser.go that it does not
-- override are here with the trees of nolol, since p.This leads from them to the overridden ones.
pub mod Ends
use yodk.Common.{ℕ, zero, suc, Bool, not, ◌||◌, [], Option, none, some, if◌then◌else◌}
use yodk.Text.{Text, codes, is}
use yodk.Ast.{
  unknown_position, Expression, string_constant, number_constant, dereference, unary_operation,
  binary_operation,
}
use yodk.Parsing.Tokenizer.{id, symbol, keyword}
use yodk.Parsing.Parser.{
  Parser, same_type, is_current_type, is_current, advance, error_current, expect, Parsed, Parse,
}
use yodk.Parsing.Parser.Expressions.{
  check, after, parse_single, at_unary_operator, no_operand, at_operator, prod_ops, sum_ops,
  compare_ops, logic_ops,
}
use yodk.Nolol.Ast.{
  NololExpression, string_literal, number_literal, variable, unary, binary, func_call, Arguments,
  no_argument, argument,
}
use yodk.Nolol.Syntax.{FuncCall}
use yodk.Nolol.Parser.{with_result}

abbrev pub missing_nolol : NololExpression
missing_nolol = string_literal unknown_position []

abbrev pub or_missing_nolol : Option NololExpression → NololExpression
or_missing_nolol none = missing_nolol
or_missing_nolol (some e) = e

-- an expression of yolol in a tree of nolol
unfoldable pub nolol_of : Expression → NololExpression
nolol_of (string_constant position value) = string_literal position value
nolol_of (number_constant position value) = number_literal position value
nolol_of (dereference d) = variable d
nolol_of (unary_operation position operator exp) = unary position operator (nolol_of exp)
nolol_of (binary_operation operator exp1 exp2) = binary operator (nolol_of exp1) (nolol_of exp2)

abbrev pub nolol_found : Option Expression × Parser → Parsed NololExpression
nolol_found (none, p) = some (none, p)
nolol_found (some e, p) = some (some (nolol_of e), p)

-- the body of the loop of ParseFuncCall behind the expression
abbrev pub next_argument :
    Option NololExpression → Parser → Option (Arguments × Parser) → Option (Arguments × Parser)
next_argument none p more =
    some (no_argument, error_current (codes "Expected expression(s) as arguments(s)") p)
next_argument (some exp) p more =
    if is_current symbol (codes ",") p
    then with_result more (λ rest p₁. some (argument exp rest, p₁))
    else some (argument exp no_argument, p)

-- the loop of ParseFuncCall, on fuel
unfoldable pub argument_loop : ℕ → Parse NololExpression → Parser → Option (Arguments × Parser)
unfolding is_current advance error_current
argument_loop zero expression p = none
argument_loop (suc fuel) expression p =
    let arguments =
      after (expression p)
        (λ exp p₁. next_argument exp p₁ (argument_loop fuel expression (advance p₁))) in
    if is_current symbol (codes ")") p then some (no_argument, p) else arguments

-- ParseFuncCall
unfoldable pub parse_func_call : ℕ → Parse NololExpression → Parse FuncCall
unfolding same_type is_current_type advance argument_loop expect
parse_func_call fuel expression p =
    if not (is_current_type id p)
      || (not (same_type p.next_token.token_type symbol) || not (is p.next_token.value "("))
    then some (none, p)
    else with_result (argument_loop fuel expression (advance (advance p))) (λ arguments p₁. some (
      some (record {
        position = p.current_token.position;
        function = p.current_token.value;
        arguments = arguments;
      }),
      expect symbol (codes ")") p₁,
    ))

abbrev pub call_or : Option FuncCall → Parser → Parsed NololExpression → Parsed NololExpression
call_or none p other = other
call_or (some call) p other = some (some (func_call call.position call.function call.arguments), p)

-- ParseSingleExpression
unfoldable pub parse_nolol_single : ℕ → Parse NololExpression → Parse NololExpression
unfolding parse_func_call parse_single nolol_of
parse_nolol_single fuel expression p =
    after (parse_func_call fuel expression p)
      (λ call p₁. call_or call p₁ (nolol_found (parse_single p₁)))

-- ParseBracketExpression
unfoldable pub parse_nolol_bracket : ℕ → Parse NololExpression → Parse NololExpression
unfolding parse_nolol_single is_current advance expect error_current
parse_nolol_bracket fuel expression p =
    if is_current symbol (codes "(") p
    then after (expression (advance p)) (λ inner p₁.
      some
        (inner, expect symbol (codes ")") (check inner (codes "Expected expression after '('") p₁)))
    else parse_nolol_single fuel expression p

-- ParseUnaryExpression, on fuel
unfoldable pub parse_nolol_unary : ℕ → Parse NololExpression → Parse NololExpression
unfolding parse_nolol_bracket at_unary_operator advance error_current
parse_nolol_unary zero expression p = none
parse_nolol_unary (suc fuel) expression p =
    let subexp = parse_nolol_unary fuel expression (advance p) in
    let op : Text = p.current_token.value in
    if at_unary_operator p
    then after subexp (λ e p₁.
      some
        (some (unary p.current_token.position op (or_missing_nolol e)), check e (no_operand op) p₁))
    else parse_nolol_bracket (suc fuel) expression p

-- the loop of the functions for `or`, for sums and for products, on fuel
unfoldable pub nolol_operator_loop :
    ℕ → (Parser → Bool) → Parse NololExpression → NololExpression → Parse NololExpression
unfolding advance error_current
nolol_operator_loop zero test operand exp p = none
nolol_operator_loop (suc fuel) test operand exp p =
    let op : Text = p.current_token.value in
    let more = after (operand (advance p)) (λ e p₁.
      nolol_operator_loop fuel test operand (binary op exp (or_missing_nolol e))
        (check e (no_operand op) p₁)) in
    if test p then more else some (some exp, p)

-- nil if the first operand is nil
abbrev pub nolol_and_loop :
    Parsed NololExpression → (NololExpression → Parse NololExpression) → Parsed NololExpression
nolol_and_loop none loop = none
nolol_and_loop (some (none, p)) loop = some (none, p)
nolol_and_loop (some (some e, p)) loop = loop e p

-- ParseProdExpression
unfoldable pub parse_nolol_prod : ℕ → Parse NololExpression → Parse NololExpression
unfolding parse_nolol_unary nolol_operator_loop at_operator
parse_nolol_prod fuel expression p =
    nolol_and_loop (parse_nolol_unary fuel expression p)
      (nolol_operator_loop fuel (at_operator symbol prod_ops) (parse_nolol_unary fuel expression))

-- ParseSumExpression
unfoldable pub parse_nolol_sum : ℕ → Parse NololExpression → Parse NololExpression
unfolding parse_nolol_prod nolol_operator_loop at_operator
parse_nolol_sum fuel expression p =
    nolol_and_loop (parse_nolol_prod fuel expression p)
      (nolol_operator_loop fuel (at_operator symbol sum_ops) (parse_nolol_prod fuel expression))

-- the second half of ParseCompareExpression
unfoldable pub nolol_compare_with : Parse NololExpression → NololExpression → Parse NololExpression
unfolding at_operator advance error_current
nolol_compare_with operand exp p =
    let op : Text = p.current_token.value in
    if at_operator symbol compare_ops p
    then after (operand (advance p))
        (λ e p₁. some (some (binary op exp (or_missing_nolol e)), check e (no_operand op) p₁))
    else some (some exp, p)

-- ParseCompareExpression
unfoldable pub parse_nolol_compare : ℕ → Parse NololExpression → Parse NololExpression
unfolding parse_nolol_sum nolol_compare_with
parse_nolol_compare fuel expression p =
    nolol_and_loop (parse_nolol_sum fuel expression p)
      (nolol_compare_with (parse_nolol_sum fuel expression))

-- ParseLogicExpression
unfoldable pub parse_nolol_logic : ℕ → Parse NololExpression → Parse NololExpression
unfolding parse_nolol_compare nolol_operator_loop at_operator
parse_nolol_logic fuel expression p =
    nolol_and_loop (parse_nolol_compare fuel expression p) (
      nolol_operator_loop fuel (at_operator keyword logic_ops)
        (parse_nolol_compare fuel expression))

-- ParseExpression, on fuel
unfoldable pub parse_nolol_expression : ℕ → Parse NololExpression
unfolding parse_nolol_logic
parse_nolol_expression zero p = none
parse_nolol_expression (suc fuel) p = parse_nolol_logic (suc fuel) (parse_nolol_expression fuel) p
