-- ===== src/Nolol/Parser/Expressions/Ends.antt =====
-- pkg/nolol/parser.go: how far the parsing functions of nolol's expressions read, and their fuel.
use yodk.Common.{
  ◌≡◌, ℕ, zero, suc, ◌≤◌, ◌<◌, Bool, true, not, ◌||◌, Option, none, some, arith, Bool-cases, inl,
  inr,
}
use yodk.Text.{codes, is}
use yodk.Ast.{Expression}
use yodk.Parsing.Tokenizer.{id, symbol, keyword}
use yodk.Parsing.Parser.{Parser, same_type, is_current_type, is_current, advance, Parse, Parsed}
use yodk.Parsing.Parser.Size.{
  size, advance-lt, advance-le, has_next_of, size-expect, size-error_current,
}
use yodk.Parsing.Parser.Expressions.{
  check, parse_single, at_unary_operator, no_operand, at_operator, prod_ops, sum_ops, compare_ops,
  logic_ops,
}
use yodk.Parsing.Parser.Expressions.Ends.{
  Within, Ends, after-Within, Within-le, if-Within, size-check, parse_single-le,
  is_current-has_next, at_unary_operator-has_next, BeforeEnd, at_operator-BeforeEnd,
}
use yodk.Nolol.Ast.{NololExpression, binary, Arguments, no_argument, argument}
use yodk.Nolol.Syntax.{FuncCall}
use yodk.Nolol.Parser.{with_result}
use yodk.Nolol.Parser.Expressions.{
  or_missing_nolol, nolol_found, next_argument, argument_loop, parse_func_call, call_or,
  parse_nolol_single, parse_nolol_bracket, parse_nolol_unary, nolol_operator_loop, nolol_and_loop,
  parse_nolol_prod, parse_nolol_sum, nolol_compare_with, parse_nolol_compare, parse_nolol_logic,
  parse_nolol_expression,
}

pub with_result-Within :
    {A B : Type 0} (m n : ℕ) (o : Option (A × Parser)) (k : A → Parser → Option (B × Parser))
    → Within m o
    → ((a : A) (p : Parser) → size p ≤ m → Within n (k a p))
    → Within n (with_result o k)
with_result-Within m n none k h g = absurd h
with_result-Within m n (some (a, p)) k h g = g a p h

nolol_found-Within :
    (n : ℕ) (r : Option Expression × Parser) → size r.1 ≤ n → Within n (nolol_found r)
nolol_found-Within n (none, p) h = h
nolol_found-Within n (some e, p) h = h

-- behind an argument
next_argument-Within :
    (n : ℕ) (exp : Option NololExpression) (p : Parser) (more : Option (Arguments × Parser))
    → size p ≤ n
    → (is_current symbol (codes ",") p ≡ true → Within n more)
    → Within n (next_argument exp p more)
next_argument-Within n none p more h k =
    omega (arith, h, size-error_current (codes "Expected expression(s) as arguments(s)") p)
next_argument-Within n (some exp) p more h k =
    if-Within n (is_current symbol (codes ",") p) _ (some (argument exp no_argument, p))
      (λ e. with_result-Within n n more _ (k e) (λ rest p₁ l. l)) h

argument_loop-Within :
    (n fuel : ℕ) (expression : Parse NololExpression)
    → Ends n expression
    → (p : Parser) → size p < fuel
    → size p < n
    → Within (size p) (argument_loop fuel expression p)
unfolding argument_loop
argument_loop-Within n zero expression ih p h k = absurd (omega arith)
argument_loop-Within n (suc fuel) expression ih p h k =
    elim (Bool-cases (is_current symbol (codes ")") p)) [
      | inl e ↦ rw e (omega arith)
      | inr e ↦ rw e (
          after-Within (size p) (size p) (expression p) _ (ih p k) (λ exp p₁ l.
            next_argument-Within (size p) exp p₁ (argument_loop fuel expression (advance p₁)) l
              (λ c.
                let less = advance-lt p₁ (is_current-has_next symbol (codes ",") p₁ c (cc)) in
                Within-le (size (advance p₁)) (size p) _ (omega arith) (
                  argument_loop-Within n fuel expression ih (advance p₁) (omega arith)
                    (omega arith)))))
    ]

-- a call has a name, which is read
pub parse_func_call-Within :
    (n fuel : ℕ) (expression : Parse NololExpression)
    → Ends n expression
    → (p : Parser) → size p < suc n
    → size p < suc fuel
    → Within (size p) (parse_func_call fuel expression p)
unfolding parse_func_call
parse_func_call-Within n fuel expression ih p h f =
    elim (Bool-cases (
      not (is_current_type id p)
      || (not (same_type p.next_token.token_type symbol) || not (is p.next_token.value "(")))) [
        | inl e ↦ rw e (omega arith)
        | inr e ↦
            let is_id : is_current_type id p ≡ true = ground (arith, e) in
            let less = advance-lt p (has_next_of id p is_id (cc)) in
            let le = advance-le (advance p) in
            rw e (
              with_result-Within (size (advance (advance p))) (size p)
                (argument_loop fuel expression (advance (advance p))) _
                (argument_loop-Within n fuel expression ih (advance (advance p)) (omega arith)
                  (omega arith))
                (λ arguments p₁ l. omega (arith, size-expect symbol (codes ")") p₁)))
      ]

call_or-Within :
    (n : ℕ) (call : Option FuncCall) (p : Parser) (other : Parsed NololExpression)
    → size p ≤ n
    → Within n other
    → Within n (call_or call p other)
call_or-Within n none p other h k = k
call_or-Within n (some call) p other h k = h

parse_nolol_single-Ends :
    (n fuel : ℕ) (expression : Parse NololExpression)
    → Ends n expression
    → (p : Parser) → size p < suc n
    → size p < suc fuel
    → Within (size p) (parse_nolol_single fuel expression p)
unfolding parse_nolol_single
parse_nolol_single-Ends n fuel expression ih p h f =
    after-Within (size p) (size p) (parse_func_call fuel expression p) _
      (parse_func_call-Within n fuel expression ih p h f)
      (λ call p₁ l.
        call_or-Within (size p) call p₁ (nolol_found (parse_single p₁)) l
          (nolol_found-Within (size p) (parse_single p₁) (omega (arith, l, parse_single-le p₁))))

parse_nolol_bracket-Ends :
    (n fuel : ℕ) (expression : Parse NololExpression)
    → Ends n expression
    → (p : Parser) → size p < suc n
    → size p < suc fuel
    → Within (size p) (parse_nolol_bracket fuel expression p)
unfolding parse_nolol_bracket
parse_nolol_bracket-Ends n fuel expression ih p h f =
    if-Within (size p) (is_current symbol (codes "(") p) _ (parse_nolol_single fuel expression p)
      (λ e.
        let less = advance-lt p (is_current-has_next symbol (codes "(") p e (cc)) in
        after-Within (size (advance p)) (size p) (expression (advance p)) _
          (ih (advance p) (omega arith))
          (λ inner p₁ k. omega (
            arith,
            size-expect symbol (codes ")") (check inner (codes "Expected expression after '('") p₁),
            size-check inner (codes "Expected expression after '('") p₁,
          )))
      (parse_nolol_single-Ends n fuel expression ih p h f)

parse_nolol_unary-Ends :
    (n fuel : ℕ) (expression : Parse NololExpression)
    → Ends n expression
    → (p : Parser) → size p < fuel
    → size p < suc n
    → Within (size p) (parse_nolol_unary fuel expression p)
unfolding parse_nolol_unary
parse_nolol_unary-Ends n zero expression ih p h k = absurd (omega arith)
parse_nolol_unary-Ends n (suc fuel) expression ih p h k =
    if-Within (size p) (at_unary_operator p) _ (parse_nolol_bracket (suc fuel) expression p)
      (λ e.
        let less = advance-lt p (at_unary_operator-has_next p e) in
        after-Within (size (advance p)) (size p) (parse_nolol_unary fuel expression (advance p)) _
          (parse_nolol_unary-Ends n fuel expression ih (advance p) (omega arith) (omega arith))
          (λ sub p₁ l. omega (arith, size-check sub (no_operand p.current_token.value) p₁)))
      (parse_nolol_bracket-Ends n (suc fuel) expression ih p k (omega arith))

nolol_operator_loop-Ends :
    (n fuel : ℕ) (test : Parser → Bool) (operand : Parse NololExpression) (exp : NololExpression)
    → BeforeEnd test
    → Ends n operand
    → (p : Parser) → size p < fuel
    → size p < n
    → Within (size p) (nolol_operator_loop fuel test operand exp p)
unfolding nolol_operator_loop
nolol_operator_loop-Ends n zero test operand exp b ih p h k = absurd (omega arith)
nolol_operator_loop-Ends n (suc fuel) test operand exp b ih p h k =
    if-Within (size p) (test p) _ (some (some exp, p))
      (λ e.
        let less = advance-lt p (b p e) in
        after-Within (size (advance p)) (size p) (operand (advance p)) _
          (ih (advance p) (omega arith))
          (λ x p₁ l.
            let same = size-check x (no_operand p.current_token.value) p₁ in
            Within-le _ (size p) _ (omega arith) (
              nolol_operator_loop-Ends n fuel test operand
                (binary p.current_token.value exp (or_missing_nolol x)) b ih
                (check x (no_operand p.current_token.value) p₁) (omega arith) (omega arith))))
      (omega arith)

nolol_and_loop-Within :
    (m : ℕ) (o : Parsed NololExpression) (loop : NololExpression → Parse NololExpression)
    → Within m o
    → ((e : NololExpression) (p : Parser) → size p ≤ m → Within (size p) (loop e p))
    → Within m (nolol_and_loop o loop)
nolol_and_loop-Within m none loop h g = absurd h
nolol_and_loop-Within m (some (none, p)) loop h g = h
nolol_and_loop-Within m (some (some e, p)) loop h g = Within-le (size p) m _ h (g e p h)

-- an operand and the loop behind it
nolol_chain-Ends :
    (n : ℕ) (test : Parser → Bool) (operand : Parse NololExpression)
    → BeforeEnd test
    → Ends n operand
    → Ends n (λ p. nolol_and_loop (operand p) (nolol_operator_loop n test operand))
nolol_chain-Ends n test operand b ih p h =
    nolol_and_loop-Within (size p) (operand p) (nolol_operator_loop n test operand) (ih p h)
      (λ e p₁ l. nolol_operator_loop-Ends n n test operand e b ih p₁ (omega arith) (omega arith))

nolol_compare_with-Ends :
    (n : ℕ) (operand : Parse NololExpression) (exp : NololExpression)
    → Ends n operand
    → Ends n (nolol_compare_with operand exp)
unfolding nolol_compare_with
nolol_compare_with-Ends n operand exp ih p h =
    if-Within (size p) (at_operator symbol compare_ops p) _ (some (some exp, p))
      (λ e.
        let less = advance-lt p (at_operator-BeforeEnd symbol compare_ops (cc) p e) in
        after-Within (size (advance p)) (size p) (operand (advance p)) _
          (ih (advance p) (omega arith))
          (λ x p₁ l. omega (arith, size-check x (no_operand p.current_token.value) p₁)))
      (omega arith)

parse_nolol_compare-Ends :
    (n : ℕ) (expression : Parse NololExpression)
    → Ends n expression
    → Ends (suc n) (parse_nolol_compare (suc n) expression)
unfolding parse_nolol_compare parse_nolol_sum parse_nolol_prod
parse_nolol_compare-Ends n expression ih p h =
    let prod =
      nolol_chain-Ends (suc n) _ _ (at_operator-BeforeEnd symbol prod_ops (cc))
        (λ q k. parse_nolol_unary-Ends n (suc n) expression ih q k k) in
    let sum = nolol_chain-Ends (suc n) _ _ (at_operator-BeforeEnd symbol sum_ops (cc)) prod in
    nolol_and_loop-Within (size p) (parse_nolol_sum (suc n) expression p) _ (sum p h)
      (λ e p₁ l. nolol_compare_with-Ends (suc n) _ e sum p₁ (omega arith))

-- ParseExpression returns with fuel for each token ahead, and one more; it reads no token twice.
pub parse_nolol_expression-Ends : (fuel : ℕ) → Ends fuel (parse_nolol_expression fuel)
unfolding parse_nolol_expression parse_nolol_logic
parse_nolol_expression-Ends zero p h = absurd (omega arith)
parse_nolol_expression-Ends (suc fuel) p h =
    nolol_chain-Ends (suc fuel) _ _ (at_operator-BeforeEnd keyword logic_ops (cc))
      (parse_nolol_compare-Ends fuel (parse_nolol_expression fuel)
        (parse_nolol_expression-Ends fuel))
      p h
