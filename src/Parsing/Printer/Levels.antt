-- ===== src/Parsing/Printer/Levels.antt =====
-- pkg/parser/printer.go: where an operand of a binary operation stands in parentheses, by what the
-- operators are.
use yodk.Common.{◌≡◌, refl, ◌≤◌, ap₂, ℕ, Bool, false, ◌||◌, if◌then◌else◌, ltb, leb, arith}
use yodk.Text.{Text, codes, is}
use yodk.Text.Laws.{text_eq-sym}
use yodk.Ast.{
  Expression, string_constant, number_constant, dereference, unary_operation, binary_operation,
}
use yodk.Parsing.Printer.{
  operator_priorities, priority_in, priority_for_expression, left_parentheses, right_parentheses,
}

-- the kinds of operators
abbrev pub is_connective : Text → Bool
is_connective op = is op "or" || is op "and"

abbrev pub is_comparison : Text → Bool
is_comparison op = is op "==" || is op "!=" || is op ">=" || is op "<=" || is op ">" || is op "<"

abbrev pub is_sum : Text → Bool
is_sum op = is op "+" || is op "-"

abbrev pub is_product : Text → Bool
is_product op = is op "*" || is op "/" || is op "^" || is op "%"

-- How tight an operator binds: connectives less than comparisons, these less than sums, and these less
-- than products and powers, which bind alike. `not` would bind most as the operator of two operands.
unfoldable pub level : Text → ℕ
level op =
    if is_connective op
    then 0
    else if is_comparison op
    then 1
    else if is_sum op
    then 2
    else if is_product op
    then 3
    else if is op "not"
    then 4
    else 0

-- an operation that binds less than the operator, and one that does not bind more
unfoldable pub binds_less : Text → Expression → Bool
unfolding level
binds_less op (binary_operation op' exp1 exp2) = ltb (level op') (level op)
binds_less op _ = false

unfoldable pub binds_no_more : Text → Expression → Bool
unfolding level
binds_no_more op (binary_operation op' exp1 exp2) = leb (level op') (level op)
binds_no_more op _ = false

level-bound : (op : Text) → level op ≤ 4
unfolding level
level-bound op = ground arith

priority-level : (op : Text) → priority_in operator_priorities op ≡ level op
unfolding priority_in level
priority-level op = ground (
  arith,
  text_eq-sym op (codes "or"),
  text_eq-sym op (codes "and"),
  text_eq-sym op (codes "=="),
  text_eq-sym op (codes "!="),
  text_eq-sym op (codes ">="),
  text_eq-sym op (codes "<="),
  text_eq-sym op (codes ">"),
  text_eq-sym op (codes "<"),
  text_eq-sym op (codes "+"),
  text_eq-sym op (codes "-"),
  text_eq-sym op (codes "*"),
  text_eq-sym op (codes "/"),
  text_eq-sym op (codes "^"),
  text_eq-sym op (codes "%"),
  text_eq-sym op (codes "not"),
)

leaf-left : (op : Text) → ltb 10 (priority_in operator_priorities op) ≡ false
leaf-left op = ground (arith, priority-level op, level-bound op)

pub left_parentheses-binds_less :
    (op : Text) (exp1 exp2 : Expression) → left_parentheses op exp1 exp2 ≡ binds_less op exp1
unfolding priority_for_expression binds_less
left_parentheses-binds_less op (string_constant position value) exp2 = leaf-left op
left_parentheses-binds_less op (number_constant position value) exp2 = leaf-left op
left_parentheses-binds_less op (dereference d) exp2 = leaf-left op
left_parentheses-binds_less op (unary_operation position operator exp) exp2 = leaf-left op
left_parentheses-binds_less op (binary_operation op' a b) exp2 =
    ap₂ ltb (priority-level op') (priority-level op)

pub right_parentheses-binds_no_more :
    (op : Text) (exp1 exp2 : Expression) → right_parentheses op exp1 exp2 ≡ binds_no_more op exp2
unfolding priority_for_expression binds_no_more
right_parentheses-binds_no_more op exp1 (string_constant position value) = refl
right_parentheses-binds_no_more op exp1 (number_constant position value) = refl
right_parentheses-binds_no_more op exp1 (dereference d) = refl
right_parentheses-binds_no_more op exp1 (unary_operation position operator exp) = refl
right_parentheses-binds_no_more op exp1 (binary_operation op' a b) =
    ap₂ leb (priority-level op') (priority-level op)
