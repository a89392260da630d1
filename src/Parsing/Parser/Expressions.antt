-- ===== src/Parsing/Parser/Expressions.antt =====
-- pkg/parser/parser.go: the parsing functions of expressions. Each takes the functions that it calls;
-- p.This lets them call one another. A nil operand of an operation, behind an error, is `missing`:
-- Parse then returns no program.
pub mod Ends
use yodk.Common.{
  ℕ, zero, suc, Bool, true, false, ◌&&◌, ◌||◌, List, [], ◌∷◌, ◌++◌, Option, none, some,
  if◌then◌else◌,
}
use yodk.Text.{Text, codes, is}
use yodk.Ast.{
  Position, unknown_position, Dereference, pre, post, absent, Expression, string_constant,
  number_constant, dereference, unary_operation, binary_operation,
}
use yodk.Parsing.Tokenizer.{Token, TokenType, id, symbol, str, keyword, number}
use yodk.Parsing.Parser.{
  Parser, same_type, is_current_type, is_current_value, is_current, is_current_value_in, advance,
  error, error_current, expect, Parsed, Parse,
}

abbrev pub missing : Expression
missing = string_constant unknown_position []

abbrev pub or_missing : Option Expression → Expression
or_missing none = missing
or_missing (some e) = e

-- `if x == nil { p.ErrorCurrent(msg) }`
abbrev pub check : {A : Type 0} → Option A → Text → Parser → Parser
check none msg p = error_current msg p
check (some a) msg p = p

-- the rest of a function behind a call that may run out of fuel
abbrev pub after : {A B : Type 0} → Parsed A → (Option A → Parser → Option B) → Option B
after none k = none
after (some (a, p)) k = k a p

-- the test for the variable behind the operator
unfoldable pub check_variable : Position → Parser → Parser
unfolding is_current_type error
check_variable start p =
    if is_current_type id p
    then p
    else error (codes "Pre- Increment/Decrement must be followed by a variable") start start p

-- ParsePreOpExpression
unfoldable pub parse_pre_op : Parser → Option Dereference × Parser
unfolding is_current_type is_current_value advance check_variable
parse_pre_op p =
    if is_current_type symbol p
      && (is_current_value (codes "++") p || is_current_value (codes "--") p)
    then (
      some (record {
        position = p.current_token.position;
        variable =
            Token.value
              (Parser.current_token (check_variable p.current_token.position (advance p)));
        operator = p.current_token.value;
        pre_post = pre;
        is_statement = false;
      }),
      advance (check_variable p.current_token.position (advance p)),
    )
    else (none, p)

-- ParsePostOpExpression
unfoldable pub parse_post_op : Parser → Option Dereference × Parser
unfolding same_type is_current_type advance
parse_post_op p =
    if same_type p.next_token.token_type symbol
      && ((is p.next_token.value "++" || is p.next_token.value "--") && is_current_type id p)
    then (
      some (record {
        position = p.current_token.position;
        variable = p.current_token.value;
        operator = p.next_token.value;
        pre_post = post;
        is_statement = false;
      }),
      advance (advance p),
    )
    else (none, p)

-- the last three cases of ParseSingleExpression
unfoldable pub parse_constant : Parser → Option Expression × Parser
unfolding is_current_type advance
parse_constant p =
    if is_current_type id p
    then (
      some (
          dereference (record {
            position = p.current_token.position;
            variable = p.current_token.value;
            operator = [];
            pre_post = absent;
            is_statement = false;
          })),
      advance p,
    )
    else if is_current_type str p
    then (some (string_constant p.current_token.position p.current_token.value), advance p)
    else if is_current_type number p
    then (some (number_constant p.current_token.position p.current_token.value), advance p)
    else (none, p)

-- a dereference, or what another function finds
abbrev pub or_parse :
    Option Dereference × Parser → Option Expression × Parser → Option Expression × Parser
or_parse (some d, p) rest = (some (dereference d), p)
or_parse (none, p) rest = rest

-- ParseSingleExpression
unfoldable pub parse_single : Parser → Option Expression × Parser
unfolding parse_pre_op parse_post_op parse_constant
parse_single p = or_parse (parse_pre_op p) (or_parse (parse_post_op p) (parse_constant p))

-- ParseBracketExpression
unfoldable pub parse_bracket : Parse Expression → Parse Expression
unfolding parse_single is_current expect error_current
parse_bracket expression p =
    if is_current symbol (codes "(") p
    then after (expression (advance p)) (λ inner p₁.
      some
        (inner, expect symbol (codes ")") (check inner (codes "Expected expression after '('") p₁)))
    else some (parse_single p)

-- preUnaryOps
abbrev pub pre_unary_ops : List Text
pre_unary_ops =
    codes "not"
    ∷ codes "abs"
    ∷ codes "sqrt"
    ∷ codes "sin"
    ∷ codes "cos"
    ∷ codes "tan"
    ∷ codes "asin"
    ∷ codes "acos"
    ∷ codes "atan"
    ∷ []

unfoldable pub at_unary_operator : Parser → Bool
unfolding is_current_value_in is_current_type is_current
at_unary_operator p =
    (is_current_value_in pre_unary_ops p && is_current_type keyword p)
    || is_current symbol (codes "-") p

-- the message of an operator without an operand
abbrev pub no_operand : Text → Text
no_operand op = codes "Expected expression on right side of " ++ op

-- ParseUnaryExpression, on fuel
unfoldable pub parse_unary : ℕ → Parse Expression → Parse Expression
unfolding parse_bracket at_unary_operator
parse_unary zero expression p = none
parse_unary (suc fuel) expression p =
    let subexp = parse_unary fuel expression (advance p) in
    let op : Text = p.current_token.value in
    if at_unary_operator p
    then after subexp (λ e p₁. some (
      some (unary_operation p.current_token.position op (or_missing e)),
      check e (no_operand op) p₁,
    ))
    else parse_bracket expression p

-- The loop of the functions for `or`, for sums and for products, on fuel: while the current token is
-- an operator, it and the next operand are added to the expression.
unfoldable pub operator_loop :
    ℕ → (Parser → Bool) → Parse Expression → Expression → Parse Expression
operator_loop zero test operand exp p = none
operator_loop (suc fuel) test operand exp p =
    let op : Text = p.current_token.value in
    let more = after (operand (advance p)) (λ e p₁.
      operator_loop fuel test operand (binary_operation op exp (or_missing e))
        (check e (no_operand op) p₁)) in
    if test p then more else some (some exp, p)

-- nil if the first operand is nil
abbrev pub and_loop : Parsed Expression → (Expression → Parse Expression) → Parsed Expression
and_loop none loop = none
and_loop (some (none, p)) loop = some (none, p)
and_loop (some (some e, p)) loop = loop e p

unfoldable pub at_operator : TokenType → List Text → Parser → Bool
unfolding is_current_type is_current_value_in
at_operator typ ops p = is_current_type typ p && is_current_value_in ops p

abbrev pub prod_ops : List Text
prod_ops = codes "*" ∷ codes "/" ∷ codes "%" ∷ codes "^" ∷ []

-- ParseProdExpression
unfoldable pub parse_prod : ℕ → Parse Expression → Parse Expression
unfolding parse_unary operator_loop at_operator
parse_prod fuel expression p =
    and_loop (parse_unary fuel expression p)
      (operator_loop fuel (at_operator symbol prod_ops) (parse_unary fuel expression))

abbrev pub sum_ops : List Text
sum_ops = codes "+" ∷ codes "-" ∷ []

-- ParseSumExpression
unfoldable pub parse_sum : ℕ → Parse Expression → Parse Expression
unfolding parse_prod operator_loop at_operator
parse_sum fuel expression p =
    and_loop (parse_prod fuel expression p)
      (operator_loop fuel (at_operator symbol sum_ops) (parse_prod fuel expression))

abbrev pub compare_ops : List Text
compare_ops = codes "==" ∷ codes "!=" ∷ codes "<=" ∷ codes ">=" ∷ codes "<" ∷ codes ">" ∷ []

-- the second half of ParseCompareExpression, which takes one operator at most
unfoldable pub compare_with : Parse Expression → Expression → Parse Expression
unfolding at_operator
compare_with operand exp p =
    let op : Text = p.current_token.value in
    if at_operator symbol compare_ops p
    then after (operand (advance p))
        (λ e p₁. some (some (binary_operation op exp (or_missing e)), check e (no_operand op) p₁))
    else some (some exp, p)

-- ParseCompareExpression
unfoldable pub parse_compare : ℕ → Parse Expression → Parse Expression
unfolding parse_sum compare_with
parse_compare fuel expression p =
    and_loop (parse_sum fuel expression p) (compare_with (parse_sum fuel expression))

abbrev pub logic_ops : List Text
logic_ops = codes "or" ∷ codes "and" ∷ []

-- ParseLogicExpression
unfoldable pub parse_logic : ℕ → Parse Expression → Parse Expression
unfolding parse_compare operator_loop at_operator
parse_logic fuel expression p =
    and_loop (parse_compare fuel expression p)
      (operator_loop fuel (at_operator keyword logic_ops) (parse_compare fuel expression))

-- ParseExpression, on fuel; each level of brackets costs one
unfoldable pub parse_expression : ℕ → Parse Expression
unfolding parse_logic
parse_expression zero p = none
parse_expression (suc fuel) p = parse_logic (suc fuel) (parse_expression fuel) p
