-- ===== src/Parsing/Parser/Statements/Contract.antt =====
-- pkg/parser/parser.go: how the parsing functions of statements must behave.
use yodk.Common.{
  ◌≡◌, refl, sym, ℕ, zero, suc, Bool, true, false, not, ◌&&◌, ◌||◌, Option, none, some,
  if◌then◌else◌,
}
use mathlib.Core.Path.{subst}
use yodk.Text.{codes, is}
use yodk.Ast.{Position, Expression, Dereference, Statement, Statements, ElseBlock}
use yodk.Parsing.Tokenizer.{id, symbol, keyword}
use yodk.Parsing.Parser.{
  Parser, Parse, Parsed, is_current, is_current_type, is_current_value, contains, advance,
  same_type, expect,
}
use yodk.Parsing.Parser.Expressions.{after, check, parse_pre_op, parse_post_op, parse_expression}
use yodk.Parsing.Parser.Statements.{
  or_deref, parse_pre_or_post, parse_goto, parse_assignment, assignment_operators, with_block,
  block_of, if_block_loop, parse_else, end_if, parse_then, parse_if, or_next, parse_statement,
}

-- A nil comes with the parser as it was.
abbrev pub Untouched : {A : Type 0} → Parser → Parsed A → Type 0
Untouched p none = Unit
Untouched p (some (none, q)) = q ≡ p
Untouched p (some (some a, q)) = Unit

if-Untouched :
    {A : Type 0} (p : Parser) (b : Bool) (x y : Parsed A)
    → Untouched p x
    → Untouched p y
    → Untouched p (if b then x else y)
if-Untouched p true x y h k = h
if-Untouched p false x y h k = k

after-Untouched :
    {A B : Type 0} (p : Parser) (o : Parsed A) (k : Option A → Parser → Parsed B)
    → ((a : Option A) (q : Parser) → Untouched p (k a q))
    → Untouched p (after o k)
after-Untouched p none k h = tt
after-Untouched p (some (a, q)) k h = h a q

parse_assignment-Untouched :
    (expression : Parse Expression) (p : Parser) → Untouched p (parse_assignment expression p)
unfolding parse_assignment
parse_assignment-Untouched expression p =
    if-Untouched p
      (not (is_current_type id p) || not (contains assignment_operators p.next_token.value)) _ _
      refl (after-Untouched p (expression (advance (advance p))) _ (λ a q. tt))

parse_goto-Untouched :
    (expression : Parse Expression) (p : Parser) → Untouched p (parse_goto expression p)
unfolding parse_goto
parse_goto-Untouched expression p =
    if-Untouched p (is_current keyword (codes "goto") p) _ (some (none, p))
      (after-Untouched p (expression (advance p)) _ (λ a q. tt)) refl

found-Untouched :
    (p q : Parser) (d : Dereference) (b : Bool)
    → Untouched p (some (if b then (some d, q) else (none, p)))
found-Untouched p q d true = tt
found-Untouched p q d false = refl

pre_op-Untouched : (p : Parser) → Untouched p (some (parse_pre_op p))
unfolding parse_pre_op
pre_op-Untouched p = found-Untouched p _ _ (
    is_current_type symbol p
    && (is_current_value (codes "++") p || is_current_value (codes "--") p))

post_op-Untouched : (p : Parser) → Untouched p (some (parse_post_op p))
unfolding parse_post_op
post_op-Untouched p = found-Untouched p _ _ (
    same_type p.next_token.token_type symbol
    && ((is p.next_token.value "++" || is p.next_token.value "--") && is_current_type id p))

or_deref-Untouched :
    (p : Parser) (r : Option Dereference × Parser) (rest : Option Statement × Parser)
    → Untouched p (some rest)
    → Untouched p (some (or_deref r rest))
or_deref-Untouched p (some d, q) rest h = tt
or_deref-Untouched p (none, q) rest h = h

parse_pre_or_post-Untouched : (p : Parser) → Untouched p (some (parse_pre_or_post p))
unfolding parse_pre_or_post
parse_pre_or_post-Untouched p =
    or_deref-Untouched p (parse_pre_op p) _ (or_deref-Untouched p (parse_post_op p) (none, p) refl)

with_block-Untouched :
    (p : Parser) (o : Option (Statements × Parser)) (k : Statements → Parser → Parsed Statement)
    → ((b : Statements) (q : Parser) → Untouched p (k b q))
    → Untouched p (with_block o k)
with_block-Untouched p none k h = tt
with_block-Untouched p (some (b, q)) k h = h b q

end_if-Untouched :
    (p : Parser) (start : Position) (condition : Option Expression) (if_block : Statements)
    (r : Option (ElseBlock × Parser))
    → Untouched p (end_if start condition if_block r)
end_if-Untouched p start condition if_block none = tt
end_if-Untouched p start condition if_block (some (e, q)) = tt

parse_if-Untouched :
    (fuel : ℕ) (expression : Parse Expression) (statement : Parse Statement) (p : Parser)
    → Untouched p (parse_if fuel expression statement p)
unfolding parse_if parse_then
parse_if-Untouched fuel expression statement p =
    if-Untouched p (is_current keyword (codes "if") p) _ (some (none, p))
      (after-Untouched p (expression (advance p)) _ (λ condition q.
        after-Untouched p
          (statement (
            expect keyword (codes "then")
              (check condition (codes "No expression found as if-condition") q)))
          _
          (λ stmt q₁.
            with_block-Untouched p
              (if_block_loop fuel statement (block_of stmt)
                (check stmt (codes "If-block needs at least one statement") q₁))
              _
              (λ b q₂.
                end_if-Untouched p p.current_token.position condition b
                  (parse_else fuel statement b q₂)))))
      refl

or_next-Untouched :
    (p : Parser) (o : Parsed Statement) (next : Parse Statement)
    → Untouched p o
    → Untouched p (next p)
    → Untouched p (or_next o next)
or_next-Untouched p none next h k = tt
or_next-Untouched p (some (none, q)) next h k = subst (λ r. Untouched p (next r)) (sym h) k
or_next-Untouched p (some (some s, q)) next h k = tt

-- When ParseStatement returns nil it has read no token and has logged no error: the parser is as it was.
pub parse_statement-Untouched : (fuel : ℕ) (p : Parser) → Untouched p (parse_statement fuel p)
unfolding parse_statement
parse_statement-Untouched zero p = tt
parse_statement-Untouched (suc fuel) p =
    let expression = parse_expression (suc fuel) in
    or_next-Untouched p (parse_assignment expression p) _ (parse_assignment-Untouched expression p)
      (or_next-Untouched p (parse_if (suc fuel) expression (parse_statement fuel) p) _
        (parse_if-Untouched (suc fuel) expression (parse_statement fuel) p)
        (or_next-Untouched p (parse_goto expression p) _ (parse_goto-Untouched expression p)
          (parse_pre_or_post-Untouched p)))
