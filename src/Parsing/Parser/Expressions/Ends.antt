-- ===== src/Parsing/Parser/Expressions/Ends.antt =====
-- pkg/parser/parser.go: how far the parsing functions of expressions read, and their fuel.
use yodk.Common.{
  ◌≡◌, ◌≢◌, refl, ℕ, zero, suc, ◌≤◌, ◌<◌, Bool, true, false, List, Option, none, some,
  if◌then◌else◌, arith, Bool-cases, inl, inr,
}
use yodk.Text.{Text, codes}
use yodk.Ast.{Position, Dereference, Expression, binary_operation}
use yodk.Parsing.Tokenizer.{TokenType, id, symbol, keyword, eof}
use yodk.Parsing.Parser.{Parser, is_current_type, is_current, has_next, advance, Parse, Parsed}
use yodk.Parsing.Parser.Size.{
  size, advance-lt, advance-le, has_next_of, size-expect, size-error_current, size-error,
}
use yodk.Parsing.Parser.Expressions.{
  check, check_variable, after, or_missing, no_operand, parse_pre_op, parse_post_op, parse_constant,
  or_parse, parse_single, parse_bracket, at_unary_operator, parse_unary, operator_loop, and_loop,
  at_operator, prod_ops, sum_ops, compare_ops, logic_ops, parse_prod, parse_sum, compare_with,
  parse_compare, parse_logic, parse_expression,
}

-- The call returns, with at most so many tokens ahead.
abbrev pub Within : {A : Type 0} → ℕ → Option (A × Parser) → Type 0
Within n none = ⊥
Within n (some (a, p)) = size p ≤ n

-- The function returns wherever fewer tokens are ahead, and reads no token twice.
abbrev pub Ends : {A : Type 0} → ℕ → Parse A → Type 0
Ends n f = (p : Parser) → size p < n → Within (size p) (f p)

pub after-Within :
    {A B : Type 0} (m n : ℕ) (o : Parsed A) (k : Option A → Parser → Option (B × Parser))
    → Within m o
    → ((a : Option A) (p : Parser) → size p ≤ m → Within n (k a p))
    → Within n (after o k)
after-Within m n none k h g = absurd h
after-Within m n (some (a, p)) k h g = g a p h

pub Within-le : {A : Type 0} (m n : ℕ) (o : Option (A × Parser)) → m ≤ n → Within m o → Within n o
Within-le m n none h k = absurd k
Within-le m n (some (a, p)) h k = omega arith

pub if-Within :
    {A : Type 0} (n : ℕ) (b : Bool) (x y : Option (A × Parser))
    → (b ≡ true → Within n x)
    → Within n y
    → Within n (if b then x else y)
if-Within n true x y h k = h refl
if-Within n false x y h k = k

pub size-check :
    {A : Type 0} (a : Option A) (msg : Text) (p : Parser) → size (check a msg p) ≡ size p
size-check none msg p = size-error_current msg p
size-check (some a) msg p = refl

pub size-check_variable : (start : Position) (p : Parser) → size (check_variable start p) ≡ size p
unfolding check_variable
size-check_variable start p = elim (Bool-cases (is_current_type id p)) [
  | inl e ↦ rw e refl
  | inr e ↦
      rw e
        (size-error (codes "Pre- Increment/Decrement must be followed by a variable") start start p)
]

pub parse_pre_op-le : (p : Parser) → size (parse_pre_op p).1 ≤ size p
unfolding parse_pre_op
parse_pre_op-le p = ground (
  arith,
  advance-le p,
  size-check_variable p.current_token.position (advance p),
  advance-le (check_variable p.current_token.position (advance p)),
)

pub parse_post_op-le : (p : Parser) → size (parse_post_op p).1 ≤ size p
unfolding parse_post_op
parse_post_op-le p = ground (arith, advance-le p, advance-le (advance p))

parse_constant-le : (p : Parser) → size (parse_constant p).1 ≤ size p
unfolding parse_constant
parse_constant-le p = ground (arith, advance-le p)

pub or_parse-le :
    (n : ℕ) (r : Option Dereference × Parser) (rest : Option Expression × Parser)
    → size r.1 ≤ n
    → size rest.1 ≤ n
    → size (or_parse r rest).1 ≤ n
or_parse-le n (some d, p) rest h k = h
or_parse-le n (none, p) rest h k = k

pub parse_single-le : (p : Parser) → size (parse_single p).1 ≤ size p
unfolding parse_single
parse_single-le p =
    or_parse-le (size p) (parse_pre_op p) _ (parse_pre_op-le p)
      (or_parse-le (size p) (parse_post_op p) _ (parse_post_op-le p) (parse_constant-le p))

pub is_current-has_next :
    (typ : TokenType) (val : Text) (p : Parser)
    → is_current typ val p ≡ true
    → typ ≢ eof
    → has_next p ≡ true
unfolding is_current
is_current-has_next typ val p h k = has_next_of typ p (ground (arith, h)) k

parse_bracket-Ends :
    (n : ℕ) (expression : Parse Expression)
    → Ends n expression
    → Ends (suc n) (parse_bracket expression)
unfolding parse_bracket
parse_bracket-Ends n expression ih p h =
    if-Within (size p) (is_current symbol (codes "(") p) _ (some (parse_single p))
      (λ e.
        let less = advance-lt p (is_current-has_next symbol (codes "(") p e (cc)) in
        after-Within (size (advance p)) (size p) (expression (advance p)) _
          (ih (advance p) (omega arith))
          (λ inner p₁ k. omega (
            arith,
            size-expect symbol (codes ")") (check inner (codes "Expected expression after '('") p₁),
            size-check inner (codes "Expected expression after '('") p₁,
          )))
      (parse_single-le p)

pub at_unary_operator-has_next : (p : Parser) → at_unary_operator p ≡ true → has_next p ≡ true
unfolding at_unary_operator
at_unary_operator-has_next p h = elim (Bool-cases (is_current_type keyword p)) [
  | inl e ↦ has_next_of keyword p e (cc)
  | inr e ↦ is_current-has_next symbol (codes "-") p (ground (arith, h, e)) (cc)
]

-- with more fuel than tokens ahead
parse_unary-Ends :
    (n fuel : ℕ) (expression : Parse Expression)
    → Ends n expression
    → (p : Parser) → size p < fuel
    → size p < suc n
    → Within (size p) (parse_unary fuel expression p)
unfolding parse_unary
parse_unary-Ends n zero expression ih p h k = absurd (omega arith)
parse_unary-Ends n (suc fuel) expression ih p h k =
    if-Within (size p) (at_unary_operator p) _ (parse_bracket expression p)
      (λ e.
        let less = advance-lt p (at_unary_operator-has_next p e) in
        after-Within (size (advance p)) (size p) (parse_unary fuel expression (advance p)) _
          (parse_unary-Ends n fuel expression ih (advance p) (omega arith) (omega arith))
          (λ sub p₁ l. omega (arith, size-check sub (no_operand p.current_token.value) p₁)))
      (parse_bracket-Ends n expression ih p k)

-- a test that holds only before the end of file
abbrev pub BeforeEnd : (Parser → Bool) → Type 0
BeforeEnd test = (p : Parser) → test p ≡ true → has_next p ≡ true

pub at_operator-BeforeEnd :
    (typ : TokenType) (ops : List Text) → typ ≢ eof → BeforeEnd (at_operator typ ops)
unfolding at_operator
at_operator-BeforeEnd typ ops k p h = has_next_of typ p (ground (arith, h)) k

operator_loop-Ends :
    (n fuel : ℕ) (test : Parser → Bool) (operand : Parse Expression) (exp : Expression)
    → BeforeEnd test
    → Ends n operand
    → (p : Parser) → size p < fuel
    → size p < n
    → Within (size p) (operator_loop fuel test operand exp p)
unfolding operator_loop
operator_loop-Ends n zero test operand exp b ih p h k = absurd (omega arith)
operator_loop-Ends n (suc fuel) test operand exp b ih p h k =
    if-Within (size p) (test p) _ (some (some exp, p))
      (λ e.
        let less = advance-lt p (b p e) in
        after-Within (size (advance p)) (size p) (operand (advance p)) _
          (ih (advance p) (omega arith))
          (λ x p₁ l.
            let same = size-check x (no_operand p.current_token.value) p₁ in
            Within-le _ (size p) _ (omega arith) (
              operator_loop-Ends n fuel test operand
                (binary_operation p.current_token.value exp (or_missing x)) b ih
                (check x (no_operand p.current_token.value) p₁) (omega arith) (omega arith))))
      (omega arith)

and_loop-Within :
    (m n : ℕ) (o : Parsed Expression) (loop : Expression → Parse Expression)
    → Within m o
    → m ≤ n
    → ((e : Expression) (p : Parser) → size p ≤ m → Within (size p) (loop e p))
    → Within m (and_loop o loop)
and_loop-Within m n none loop h k g = absurd h
and_loop-Within m n (some (none, p)) loop h k g = h
and_loop-Within m n (some (some e, p)) loop h k g = Within-le (size p) m _ h (g e p h)

-- an operand and the loop behind it
chain-Ends :
    (n : ℕ) (test : Parser → Bool) (operand : Parse Expression)
    → BeforeEnd test
    → Ends n operand
    → Ends n (λ p. and_loop (operand p) (operator_loop n test operand))
chain-Ends n test operand b ih p h =
    and_loop-Within (size p) (size p) (operand p) (operator_loop n test operand) (ih p h)
      (omega arith)
      (λ e p₁ l. operator_loop-Ends n n test operand e b ih p₁ (omega arith) (omega arith))

compare_with-Ends :
    (n : ℕ) (operand : Parse Expression) (exp : Expression)
    → Ends n operand
    → Ends n (compare_with operand exp)
unfolding compare_with
compare_with-Ends n operand exp ih p h =
    if-Within (size p) (at_operator symbol compare_ops p) _ (some (some exp, p))
      (λ e.
        let less = advance-lt p (at_operator-BeforeEnd symbol compare_ops (cc) p e) in
        after-Within (size (advance p)) (size p) (operand (advance p)) _
          (ih (advance p) (omega arith))
          (λ x p₁ l. omega (arith, size-check x (no_operand p.current_token.value) p₁)))
      (omega arith)

parse_prod-Ends :
    (n : ℕ) (expression : Parse Expression)
    → Ends n expression
    → Ends (suc n) (parse_prod (suc n) expression)
unfolding parse_prod
parse_prod-Ends n expression ih =
    chain-Ends (suc n) _ _ (at_operator-BeforeEnd symbol prod_ops (cc))
      (λ p h. parse_unary-Ends n (suc n) expression ih p h h)

parse_sum-Ends :
    (n : ℕ) (expression : Parse Expression)
    → Ends n expression
    → Ends (suc n) (parse_sum (suc n) expression)
unfolding parse_sum
parse_sum-Ends n expression ih =
    chain-Ends (suc n) _ _ (at_operator-BeforeEnd symbol sum_ops (cc))
      (parse_prod-Ends n expression ih)

parse_compare-Ends :
    (n : ℕ) (expression : Parse Expression)
    → Ends n expression
    → Ends (suc n) (parse_compare (suc n) expression)
unfolding parse_compare
parse_compare-Ends n expression ih p h =
    and_loop-Within (size p) (size p) (parse_sum (suc n) expression p) _
      (parse_sum-Ends n expression ih p h) (omega arith)
      (λ e p₁ l. compare_with-Ends (suc n) _ e (parse_sum-Ends n expression ih) p₁ (omega arith))

-- ParseExpression returns with fuel for each token ahead, and one more; it reads no token twice.
pub parse_expression-Ends : (fuel : ℕ) → Ends fuel (parse_expression fuel)
unfolding parse_expression parse_logic
parse_expression-Ends zero p h = absurd (omega arith)
parse_expression-Ends (suc fuel) p h =
    chain-Ends (suc fuel) _ _ (at_operator-BeforeEnd keyword logic_ops (cc))
      (parse_compare-Ends fuel (parse_expression fuel) (parse_expression-Ends fuel)) p h
