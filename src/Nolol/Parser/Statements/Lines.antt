-- ===== src/Nolol/Parser/Statements/Lines.antt =====
-- pkg/nolol/parser.go: how far the parsing functions of lines and wait directives read, and their fuel.
use yodk.Common.{
  ℕ, zero, suc, ◌≤◌, ◌<◌, Bool, false, ◌||◌, List, [], ◌∷◌, Option, none, some, arith, Bool-cases,
  inl, inr,
}
use yodk.Text.{Text, codes}
use yodk.Ast.{Position}
use yodk.Parsing.Tokenizer.{symbol, keyword, newline, eof, comment}
use yodk.Parsing.Parser.{
  Parser, is_current_type, is_current, advance, error_current, expect, Parse, Parsed,
}
use yodk.Parsing.Parser.Size.{size, advance-lt, advance-le, size-expect, size-error_current}
use yodk.Parsing.Parser.Expressions.{check, after}
use yodk.Parsing.Parser.Expressions.Ends.{
  Within, Ends, after-Within, Within-le, if-Within, size-check, is_current-has_next,
}
use yodk.Parsing.Parser.Statements.Reading.{Reads}
use yodk.Parsing.Parser.Lines.Ends.{Shrinks, AllShrink, advance-Shrinks}
use yodk.Nolol.Ast.{NololExpression, NololStatement}
use yodk.Nolol.Syntax.{source_wait}
use yodk.Nolol.Parser.{with_result, end_of_line}
use yodk.Nolol.Parser.Expressions.{or_missing_nolol, parse_nolol_expression}
use yodk.Nolol.Parser.Expressions.Ends.{with_result-Within, parse_nolol_expression-Ends}
use yodk.Nolol.Parser.Statements.{
  parse_nolol_statement, statement_loop, take_label, take_line_comment, take_dollar, empty_line,
  full_line, statements_of_line, made_source, parse_statement_line, parse_wait_statements,
  parse_wait_directive,
}
use yodk.Nolol.Parser.Statements.Ends.{
  size-end_of_line, keyword-Reads, Reads-of_Within, Within-of_Reads, parse_nolol_statement-Reads,
}

statement_loop-Within :
    (n fuel : ℕ) (statement : Parse NololStatement)
    → Ends n statement
    → (p : Parser) → size p < fuel
    → size p < n
    → Within (size p) (statement_loop fuel statement p)
unfolding statement_loop
statement_loop-Within n zero statement ih p h k = absurd (omega arith)
statement_loop-Within n (suc fuel) statement ih p h k =
    if-Within (size p) (is_current symbol (codes ";") p) _ (some ([], p))
      (λ e.
        let less = advance-lt p (is_current-has_next symbol (codes ";") p e (cc)) in
        after-Within (size (advance p)) (size p) (statement (advance p)) _
          (ih (advance p) (omega arith))
          (λ stmt p₁ l.
            let checked = check stmt (codes "Expected a statement after ';'") p₁ in
            let same = size-check stmt (codes "Expected a statement after ';'") p₁ in
            with_result-Within (size checked) (size p) (statement_loop fuel statement checked) _
              (statement_loop-Within n fuel statement ih checked (omega arith) (omega arith))
              (λ rest p₂ m. omega arith)))
      (omega arith)

take_label-le : (p : Parser) → size (take_label p).1 ≤ size p
unfolding take_label
take_label-le p = ground (arith, advance-le p, advance-le (advance p))

take_line_comment-le : (text : Text) (p : Parser) → size (take_line_comment text p).1 ≤ size p
unfolding take_line_comment
take_line_comment-le text p = ground (arith, advance-le p)

take_dollar-le : (p : Parser) → size (take_dollar p).1 ≤ size p
unfolding take_dollar
take_dollar-le p = ground (arith, advance-le p)

Shrinks-of_lt : (n : ℕ) (p : Parser) → size p < n → Shrinks n p
Shrinks-of_lt n p h = (omega arith, λ e. h)

full_line-AllShrink :
    (n : ℕ) (position : Position) (label text : Text) (bol : Bool)
    (statements : List NololStatement) (p : Parser)
    → size p < n
    → AllShrink n (full_line position label text bol statements p)
unfolding full_line
full_line-AllShrink n position label text bol statements p h =
    let p₁ = (take_dollar p).1 in
    let p₂ = (take_line_comment text p₁).1 in
    Shrinks-of_lt n (end_of_line p₂)
      (omega (arith, h, take_dollar-le p, take_line_comment-le text p₁, size-end_of_line p₂))

pub after-Shrink :
    {A B : Type 0} (n : ℕ) (o : Parsed A) (k : Option A → Parser → Option (B × Parser))
    → Reads n o
    → ((a : Option A) (p : Parser) → Reads n (some (a, p)) → AllShrink n (k a p))
    → AllShrink n (after o k)
after-Shrink n none k h g = absurd h
after-Shrink n (some (a, p)) k h g = g a p h

pub with_result-Shrink :
    {A B : Type 0} (m n : ℕ) (o : Option (A × Parser)) (k : A → Parser → Option (B × Parser))
    → Within m o
    → ((a : A) (p : Parser) → size p ≤ m → AllShrink n (k a p))
    → AllShrink n (with_result o k)
with_result-Shrink m n none k h g = absurd h
with_result-Shrink m n (some (a, p)) k h g = g a p h

-- ParseStatement as a function that ends
statement-Ends : (fuel : ℕ) → Ends fuel (parse_nolol_statement fuel)
statement-Ends fuel q k =
    Within-of_Reads (size q) _
      (parse_nolol_statement-Reads (size q) fuel q (omega arith) (omega arith))

statements_of_line-AllShrink :
    (n fuel : ℕ) (position : Position) (label text : Text) (bol : Bool) (p : Parser)
    → size p ≤ n
    → n < fuel
    → AllShrink n (statements_of_line fuel (parse_nolol_statement fuel) position label text bol p)
unfolding statements_of_line
statements_of_line-AllShrink n fuel position label text bol p h f =
    after-Shrink n (parse_nolol_statement fuel p) _
      (parse_nolol_statement-Reads n fuel p h (omega arith)) behind
  where
    behind :
        (stmt : Option NololStatement) (p₁ : Parser)
        → Reads n (some (stmt, p₁))
        → AllShrink n (elim stmt [
          | none ↦ some (
            some (made_source position label text bol false []),
            advance (error_current (codes "Expected a statement") p₁),
          )
          | some first ↦
              with_result
                (statement_loop fuel (parse_nolol_statement fuel) p₁)
                (λ rest p₂. full_line position label text bol (first ∷ rest) p₂)
        ])
    behind none p₁ r =
        advance-Shrinks n (error_current (codes "Expected a statement") p₁)
          (omega (arith, r, size-error_current (codes "Expected a statement") p₁))
    behind (some first) p₁ r =
        with_result-Shrink (size p₁) n (statement_loop fuel (parse_nolol_statement fuel) p₁) _
          (statement_loop-Within fuel fuel (parse_nolol_statement fuel) (statement-Ends fuel) p₁
            (omega arith) (omega arith))
          (λ rest p₂ l.
            full_line-AllShrink n position label text bol (first ∷ rest) p₂ (omega arith))

-- ParseStatementLine reads a token, unless none is left.
pub parse_statement_line-AllShrink :
    (n fuel : ℕ) (p : Parser) → size p ≤ n → n < fuel → AllShrink n (parse_statement_line fuel p)
unfolding parse_statement_line empty_line
parse_statement_line-AllShrink n fuel p h f =
    let p₁ = (take_label p).1 in
    let p₂ = (take_line_comment [] p₁).1 in
    let p₃ = (take_dollar p₂).1 in
    let le : size p₃ ≤ n =
      omega (arith, h, take_label-le p, take_line_comment-le [] p₁, take_dollar-le p₂) in
    elim (Bool-cases
      (is_current_type eof p₃ || (is_current_type newline p₃ || is_current_type comment p₃))) [
        | inl e ↦ rw e (advance-Shrinks n p₃ le)
        | inr e ↦ rw e (
            statements_of_line-AllShrink n fuel p.current_token.position (take_label p).0
              (take_line_comment [] p₁).0 (take_dollar p₂).0 p₃ le f)
      ]

parse_wait_statements-Within :
    (fuel : ℕ) (position : Position) (condition : NololExpression) (p : Parser)
    → size p < fuel
    → Within (size p) (parse_wait_statements fuel (parse_nolol_statement fuel) position condition p)
unfolding parse_wait_statements
parse_wait_statements-Within fuel position condition p h =
    after-Within (size p) (size p) (parse_nolol_statement fuel p) _ (statement-Ends fuel p h) behind
  where
    behind :
        (stmt : Option NololStatement) (p₁ : Parser)
        → size p₁ ≤ size p
        → Within (size p) (elim stmt [
          | none ↦ some (
            some (source_wait position condition []),
            advance (error_current (codes "Expected a statement") p₁),
          )
          | some first ↦
              with_result (statement_loop fuel (parse_nolol_statement fuel) p₁) (λ rest p₂. some (
                some (source_wait position condition (first ∷ rest)),
                expect keyword (codes "end") p₂,
              ))
        ])
    behind none p₁ l = omega (
      arith,
      l,
      size-error_current (codes "Expected a statement") p₁,
      advance-le (error_current (codes "Expected a statement") p₁),
    )
    behind (some first) p₁ l =
        with_result-Within (size p₁) (size p) (statement_loop fuel (parse_nolol_statement fuel) p₁)
          _
          (statement_loop-Within fuel fuel (parse_nolol_statement fuel) (statement-Ends fuel) p₁
            (omega arith) (omega arith))
          (λ rest p₂ m. omega (arith, l, m, size-expect keyword (codes "end") p₂))

-- ParseWaitDirective reads a token of each directive that it finds.
pub parse_wait_directive-Reads :
    (n fuel : ℕ) (p : Parser) → size p ≤ n → n ≤ fuel → Reads n (parse_wait_directive fuel p)
unfolding parse_wait_directive
parse_wait_directive-Reads n fuel p h f =
    keyword-Reads n (is_current keyword (codes "wait") p) p _ h (λ e.
      let less = advance-lt p (is_current-has_next keyword (codes "wait") p e (cc)) in
      let p₁ = advance p in
      Reads-of_Within (size p₁) n _ (omega arith) (
        after-Within (size p₁) (size p₁) (parse_nolol_expression fuel p₁) _
          (parse_nolol_expression-Ends fuel p₁ (omega arith))
          (λ condition p₂ l.
            let p₃ = check condition (codes "Expected an expression after 'block'") p₂ in
            let same = size-check condition (codes "Expected an expression after 'block'") p₂ in
            if-Within (size p₁) (is_current keyword (codes "then") p₃) _
              (some
                (some (source_wait p₁.current_token.position (or_missing_nolol condition) []), p₃))
              (λ t.
                Within-le (size (advance p₃)) (size p₁) _ (omega (arith, l, same, advance-le p₃)) (
                  parse_wait_statements-Within fuel p₁.current_token.position
                    (or_missing_nolol condition) (advance p₃)
                    (omega (arith, l, same, less, h, f, advance-le p₃))))
              (omega (arith, l, same)))))
