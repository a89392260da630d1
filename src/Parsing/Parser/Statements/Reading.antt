-- ===== src/Parsing/Parser/Statements/Reading.antt =====
-- pkg/parser/parser.go: how far ParseAssignment, ParseGoto and ParsePreOrPostOperation read.
use yodk.Common.{
  ◌≡◌, refl, ℕ, ◌≤◌, ◌<◌, Bool, true, false, not, ◌&&◌, ◌||◌, Option, none, some, if◌then◌else◌,
  arith,
}
use yodk.Text.{codes, is}
use yodk.Ast.{Position, Dereference, Expression, string_constant, number_constant, Statement}
use yodk.Parsing.Tokenizer.{id, symbol, keyword}
use yodk.Parsing.Parser.{
  Parser, same_type, is_current_type, is_current_value, is_current, contains, advance, Parse,
  Parsed,
}
use yodk.Parsing.Parser.Size.{size, advance-lt, advance-le, has_next_of, size-error}
use yodk.Parsing.Parser.Expressions.{after, parse_pre_op, parse_post_op, check_variable}
use yodk.Parsing.Parser.Expressions.Ends.{
  Within, Ends, size-check, size-check_variable, is_current-has_next,
}
use yodk.Parsing.Parser.Statements.{
  or_deref, parse_pre_or_post, check_goto, parse_goto, assignment_operators, parse_assignment,
}

-- The call returns; it read a token if it found something, and none twice.
abbrev pub Reads : {A : Type 0} → ℕ → Parsed A → Type 0
Reads n none = ⊥
Reads n (some (none, p)) = size p ≤ n
Reads n (some (some a, p)) = size p < n

abbrev pub EndsReading : {A : Type 0} → ℕ → Parse A → Type 0
EndsReading n f = (p : Parser) → size p < n → Reads (size p) (f p)

pub if-Reads :
    (n : ℕ) (b : Bool) (x y : Parsed Statement)
    → (b ≡ true → Reads n x)
    → (b ≡ false → Reads n y)
    → Reads n (if b then x else y)
if-Reads n true x y h k = h refl
if-Reads n false x y h k = k refl

pub after-Reads :
    {A : Type 0} (m n : ℕ) (o : Parsed A) (k : Option A → Parser → Parsed Statement)
    → Within m o
    → ((a : Option A) (p : Parser) → size p ≤ m → Reads n (k a p))
    → Reads n (after o k)
after-Reads m n none k h g = absurd h
after-Reads m n (some (a, p)) k h g = g a p h

pub size-check_goto :
    (e : Option Expression) (start : Position) (p : Parser) → size (check_goto e start p) ≡ size p
size-check_goto none start p =
    size-error (codes "Goto must be followed by an expression") start start p
size-check_goto (some (string_constant position value)) start p =
    size-error (codes "Can not go to a string") start start p
size-check_goto (some (number_constant position value)) start p = refl
size-check_goto (some e) start p = refl

pub parse_goto-Reads :
    (n : ℕ) (expression : Parse Expression)
    → Ends n expression
    → EndsReading n (parse_goto expression)
unfolding parse_goto
parse_goto-Reads n expression ih p h =
    if-Reads (size p) (is_current keyword (codes "goto") p) _ (some (none, p))
      (λ e.
        let less = advance-lt p (is_current-has_next keyword (codes "goto") p e (cc)) in
        after-Reads (size (advance p)) (size p) (expression (advance p)) _
          (ih (advance p) (omega arith))
          (λ line p₁ l. omega (arith, size-check_goto line p.current_token.position p₁)))
      (λ e. omega arith)

pub parse_assignment-Reads :
    (n : ℕ) (expression : Parse Expression)
    → Ends n expression
    → EndsReading n (parse_assignment expression)
unfolding parse_assignment
parse_assignment-Reads n expression ih p h =
    if-Reads (size p)
      (not (is_current_type id p) || not (contains assignment_operators p.next_token.value))
      (some (none, p)) _ (λ e. omega arith)
      (λ e.
        let is_id : is_current_type id p ≡ true = ground (arith, e) in
        let less = advance-lt p (has_next_of id p is_id (cc)) in
        let le = advance-le (advance p) in
        after-Reads (size (advance (advance p))) (size p) (expression (advance (advance p))) _
          (ih (advance (advance p)) (omega arith))
          (λ x p₂ l.
            omega
              (arith, size-check x (codes "Expected expression on right side of assignment") p₂)))

pub found-Reads :
    (n : ℕ) (b : Bool) (x y : Option Dereference × Parser)
    → (b ≡ true → Reads n (some x))
    → Reads n (some y)
    → Reads n (some (if b then x else y))
found-Reads n true x y h k = h refl
found-Reads n false x y h k = k

pub pre_op-Reads : (p : Parser) → Reads (size p) (some (parse_pre_op p))
unfolding parse_pre_op
pre_op-Reads p =
    found-Reads (size p)
      (is_current_type symbol p
        && (is_current_value (codes "++") p || is_current_value (codes "--") p))
      _ (none, p)
      (λ e. omega (
        arith,
        advance-lt p (has_next_of symbol p (ground (arith, e)) (cc)),
        size-check_variable p.current_token.position (advance p),
        advance-le (check_variable p.current_token.position (advance p)),
      ))
      (omega arith)

pub post_op-Reads : (p : Parser) → Reads (size p) (some (parse_post_op p))
unfolding parse_post_op
post_op-Reads p =
    found-Reads (size p)
      (same_type p.next_token.token_type symbol
        && ((is p.next_token.value "++" || is p.next_token.value "--") && is_current_type id p))
      _ (none, p)
      (λ e.
        omega
          (arith, advance-lt p (has_next_of id p (ground (arith, e)) (cc)), advance-le (advance p)))
      (omega arith)

pub or_deref-Reads :
    (n : ℕ) (r : Option Dereference × Parser) (rest : Option Statement × Parser)
    → Reads n (some r)
    → Reads n (some rest)
    → Reads n (some (or_deref r rest))
or_deref-Reads n (some d, p) rest h k = h
or_deref-Reads n (none, p) rest h k = k

pub parse_pre_or_post-Reads : (p : Parser) → Reads (size p) (some (parse_pre_or_post p))
unfolding parse_pre_or_post
parse_pre_or_post-Reads p =
    or_deref-Reads (size p) (parse_pre_op p) _ (pre_op-Reads p)
      (or_deref-Reads (size p) (parse_post_op p) (none, p) (post_op-Reads p) (omega arith))
