-- ===== src/Nolol/Parser/Statements/Ends.antt =====
-- pkg/nolol/parser.go: how far the parsing functions of statements, lines and wait directives read, and
-- their fuel.
use yodk.Common.{
  ◌≡◌, refl, ℕ, ◌≤◌, ◌<◌, Bool, true, false, not, ◌||◌, [], Option, none, some, if◌then◌else◌,
  arith, Bool-cases, inl, inr,
}
use yodk.Text.{codes}
use yodk.Ast.{Dereference}
use yodk.Parsing.Tokenizer.{id, keyword, newline}
use yodk.Parsing.Parser.{
  Parser, is_current_type, is_current, contains, advance, error_current, Parse, Parsed,
}
use yodk.Parsing.Parser.Size.{
  size, advance-lt, advance-le, has_next_of, size-expect, size-error_current,
}
use yodk.Parsing.Parser.Expressions.{parse_pre_op, parse_post_op}
use yodk.Parsing.Parser.Expressions.Ends.{
  Within, Ends, after-Within, size-check, is_current-has_next,
}
use yodk.Parsing.Parser.Statements.{assignment_operators}
use yodk.Parsing.Parser.Statements.Reading.{Reads, pre_op-Reads, post_op-Reads}
use yodk.Nolol.Ast.{NololExpression, NololStatement}
use yodk.Nolol.Parser.{end_of_line}
use yodk.Nolol.Parser.Expressions.{parse_nolol_expression}
use yodk.Nolol.Parser.Expressions.Ends.{parse_nolol_expression-Ends}
use yodk.Nolol.Parser.Statements.{
  parse_break, parse_continue, parse_nolol_goto, parse_nolol_assignment, or_change,
  parse_nolol_pre_or_post, or_other, parse_nolol_statement,
}

pub size-end_of_line : (p : Parser) → size (end_of_line p) ≤ size p
unfolding end_of_line
size-end_of_line p = ground (arith, size-expect newline [] p)

-- A function that finds something behind a keyword reads it.
pub keyword-Reads :
    {A : Type 0} (n : ℕ) (b : Bool) (p : Parser) (x : Parsed A)
    → size p ≤ n
    → (b ≡ true → Reads n x)
    → Reads n (if b then x else some (none, p))
keyword-Reads n true p x h k = k refl
keyword-Reads n false p x h k = h

pub Reads-of_Within : {A : Type 0} (m n : ℕ) (o : Parsed A) → m < n → Within m o → Reads n o
Reads-of_Within m n none h k = k
Reads-of_Within m n (some (none, p)) h k = omega arith
Reads-of_Within m n (some (some a, p)) h k = omega arith

pub Within-of_Reads : {A : Type 0} (n : ℕ) (o : Parsed A) → Reads n o → Within n o
Within-of_Reads n none h = h
Within-of_Reads n (some (none, p)) h = h
Within-of_Reads n (some (some a, p)) h = omega arith

-- the next function goes on where nothing was found
pub or_other-Reads :
    {A : Type 0} (n : ℕ) (o : Parsed A) (next : Parse A)
    → Reads n o
    → ((p : Parser) → size p ≤ n → Reads n (next p))
    → Reads n (or_other o next)
or_other-Reads n none next h k = h
or_other-Reads n (some (none, p)) next h k = k p h
or_other-Reads n (some (some a, p)) next h k = h

parse_break-Reads : (n : ℕ) (p : Parser) → size p ≤ n → Reads n (some (parse_break p))
unfolding parse_break
parse_break-Reads n p h = elim (Bool-cases (is_current keyword (codes "break") p)) [
  | inl e ↦
      rw e (omega (arith, h, advance-lt p (is_current-has_next keyword (codes "break") p e (cc))))
  | inr e ↦ rw e h
]

parse_continue-Reads : (n : ℕ) (p : Parser) → size p ≤ n → Reads n (some (parse_continue p))
unfolding parse_continue
parse_continue-Reads n p h = elim (Bool-cases (is_current keyword (codes "continue") p)) [
  | inl e ↦
      rw e
        (omega (arith, h, advance-lt p (is_current-has_next keyword (codes "continue") p e (cc))))
  | inr e ↦ rw e h
]

label-le :
    (b : Bool) (p : Parser)
    → size
        (if b then advance p else error_current (codes "Goto must be followed by an identifier") p)
      ≤ size p
label-le true p = advance-le p
label-le false p =
    omega (arith, size-error_current (codes "Goto must be followed by an identifier") p)

parse_nolol_goto-Reads : (n : ℕ) (p : Parser) → size p ≤ n → Reads n (some (parse_nolol_goto p))
unfolding parse_nolol_goto
parse_nolol_goto-Reads n p h = elim (Bool-cases (is_current keyword (codes "goto") p)) [
  | inl e ↦ rw e (
      omega (
        arith,
        h,
        advance-lt p (is_current-has_next keyword (codes "goto") p e (cc)),
        label-le (is_current_type id (advance p)) (advance p),
      ))
  | inr e ↦ rw e h
]

parse_nolol_assignment-Reads :
    (n : ℕ) (expression : Parse NololExpression)
    → Ends n expression
    → (p : Parser) → size p ≤ n
    → Reads n (parse_nolol_assignment expression p)
unfolding parse_nolol_assignment
parse_nolol_assignment-Reads n expression ih p h =
    elim (Bool-cases
      (not (is_current_type id p) || not (contains assignment_operators p.next_token.value))) [
        | inl e ↦ rw e h
        | inr e ↦
            let is_id : is_current_type id p ≡ true = ground (arith, e) in
            let less = advance-lt p (has_next_of id p is_id (cc)) in
            let le = advance-le (advance p) in
            rw e (
              Reads-of_Within (size (advance (advance p))) n _ (omega arith) (
                after-Within (size (advance (advance p))) (size (advance (advance p)))
                  (expression (advance (advance p))) _ (ih (advance (advance p)) (omega arith))
                  (λ x p₂ l. omega (
                    arith,
                    l,
                    size-check x (codes "Expected expression on right side of assignment") p₂,
                  ))))
      ]

or_change-Reads :
    (n : ℕ) (r : Option Dereference × Parser) (rest : Option NololStatement × Parser)
    → Reads n (some r)
    → Reads n (some rest)
    → Reads n (some (or_change r rest))
or_change-Reads n (some d, p) rest h k = h
or_change-Reads n (none, p) rest h k = k

Reads-le : {A : Type 0} (m n : ℕ) (o : Parsed A) → m ≤ n → Reads m o → Reads n o
Reads-le m n none h k = k
Reads-le m n (some (none, p)) h k = omega arith
Reads-le m n (some (some a, p)) h k = omega arith

parse_nolol_pre_or_post-Reads :
    (n : ℕ) (p : Parser) → size p ≤ n → Reads n (some (parse_nolol_pre_or_post p))
unfolding parse_nolol_pre_or_post
parse_nolol_pre_or_post-Reads n p h =
    let rest = or_change (parse_post_op p) (none, p) in
    Reads-le (size p) n (some (or_change (parse_pre_op p) rest)) h (
      or_change-Reads (size p) (parse_pre_op p) rest (pre_op-Reads p)
        (or_change-Reads (size p) (parse_post_op p) (none, p) (post_op-Reads p) (omega arith)))

-- ParseStatement reads a token of each statement that it finds.
pub parse_nolol_statement-Reads :
    (n fuel : ℕ) (p : Parser) → size p ≤ n → n ≤ fuel → Reads n (parse_nolol_statement fuel p)
unfolding parse_nolol_statement
parse_nolol_statement-Reads n fuel p h f =
    or_other-Reads n (some (parse_break p)) _ (parse_break-Reads n p h) (λ p₁ l₁.
      or_other-Reads n (some (parse_continue p₁)) _ (parse_continue-Reads n p₁ l₁) (λ p₂ l₂.
        or_other-Reads n (parse_nolol_assignment (parse_nolol_expression fuel) p₂) _
          (parse_nolol_assignment-Reads n (parse_nolol_expression fuel)
            (λ q k. parse_nolol_expression-Ends fuel q (omega arith)) p₂ l₂)
          (λ p₃ l₃.
            or_other-Reads n (some (parse_nolol_goto p₃)) _ (parse_nolol_goto-Reads n p₃ l₃)
              (λ p₄ l₄. parse_nolol_pre_or_post-Reads n p₄ l₄))))
