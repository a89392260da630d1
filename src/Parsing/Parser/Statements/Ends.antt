-- ===== src/Parsing/Parser/Statements/Ends.antt =====
-- pkg/parser/parser.go: how far the parsing functions of statements read, and their fuel.
use yodk.Common.{ℕ, zero, suc, ◌≤◌, ◌<◌, Option, none, some, arith}
use yodk.Text.{codes}
use yodk.Ast.{Position, Expression, Statement, Statements, ElseBlock, no_else, else_block}
use yodk.Parsing.Tokenizer.{keyword}
use yodk.Parsing.Parser.{Parser, is_current, advance, expect, Parse, Parsed}
use yodk.Parsing.Parser.Size.{size, advance-lt, size-expect}
use yodk.Parsing.Parser.Expressions.{check, parse_expression}
use yodk.Parsing.Parser.Expressions.Ends.{
  Within, Ends, after-Within, Within-le, if-Within, size-check, is_current-has_next,
  parse_expression-Ends,
}
use yodk.Parsing.Parser.Statements.{
  append_statement, block_of, parse_goto, parse_assignment, if_block_loop, else_block_loop,
  with_block, parse_else, end_if, parse_then, parse_if, or_next, parse_statement,
}
use yodk.Parsing.Parser.Statements.Reading.{
  Reads, EndsReading, if-Reads, after-Reads, parse_goto-Reads, parse_assignment-Reads,
  parse_pre_or_post-Reads,
}

block-Within :
    {B : Type 0} (m n : ℕ) (o : Option (Statements × Parser))
    (k : Statements → Parser → Option (B × Parser))
    → Within m o
    → ((b : Statements) (p : Parser) → size p ≤ m → Within n (k b p))
    → Within n (with_block o k)
block-Within m n none k h g = absurd h
block-Within m n (some (b, p)) k h g = g b p h

-- a round of the loop over a block
read-Within :
    {A : Type 0} (n : ℕ) (o : Parsed Statement) (x : Parser → Option (A × Parser))
    (y : Statement → Parser → Option (A × Parser))
    → Reads n o
    → ((p : Parser) → size p ≤ n → Within n (x p))
    → ((s : Statement) (p : Parser) → size p < n → Within n (y s p))
    → Within n (elim o [ none ↦ none | some (none, p) ↦ x p | some (some s, p) ↦ y s p ])
read-Within n none x y h k g = absurd h
read-Within n (some (none, p)) x y h k g = k p h
read-Within n (some (some s, p)) x y h k g = g s p h

if_block_loop-Ends :
    (n fuel : ℕ) (statement : Parse Statement) (if_block : Statements)
    → EndsReading n statement
    → (p : Parser) → size p < fuel
    → size p < n
    → Within (size p) (if_block_loop fuel statement if_block p)
unfolding if_block_loop
if_block_loop-Ends n zero statement if_block ih p h k = absurd (omega arith)
if_block_loop-Ends n (suc fuel) statement if_block ih p h k =
    read-Within (size p) (statement p) _ _ (ih p k) (λ p₁ l. l)
      (λ s p₁ l. Within-le (size p₁) (size p) _ (omega arith) (
        if_block_loop-Ends n fuel statement (append_statement if_block s) ih p₁ (omega arith)
          (omega arith)))

else_block_loop-Ends :
    (n fuel : ℕ) (statement : Parse Statement) (if_block block : Statements)
    → EndsReading n statement
    → (p : Parser) → size p < fuel
    → size p < n
    → Within (size p) (else_block_loop fuel statement if_block block p)
unfolding else_block_loop
else_block_loop-Ends n zero statement if_block block ih p h k = absurd (omega arith)
else_block_loop-Ends n (suc fuel) statement if_block block ih p h k =
    read-Within (size p) (statement p) _ _ (ih p k) (λ p₁ l. l)
      (λ s p₁ l. Within-le (size p₁) (size p) _ (omega arith) (
        else_block_loop-Ends n fuel statement if_block (append_statement if_block s) ih p₁
          (omega arith) (omega arith)))

Reads-Within : {A : Type 0} (n : ℕ) (o : Parsed A) → Reads n o → Within n o
Reads-Within n none h = h
Reads-Within n (some (none, p)) h = h
Reads-Within n (some (some a, p)) h = omega arith

parse_else-Ends :
    (n fuel : ℕ) (statement : Parse Statement) (if_block : Statements)
    → EndsReading n statement
    → (p : Parser) → size p < fuel
    → size p < n
    → Within (size p) (parse_else fuel statement if_block p)
unfolding parse_else
parse_else-Ends n fuel statement if_block ih p h k =
    if-Within (size p) (is_current keyword (codes "else") p) _ (some (no_else, p))
      (λ e.
        let less = advance-lt p (is_current-has_next keyword (codes "else") p e (cc)) in
        after-Within (size (advance p)) (size p) (statement (advance p)) _
          (Reads-Within _ (statement (advance p)) (ih (advance p) (omega arith)))
          (λ stmt p₁ l.
            let q : Parser = check stmt (codes "Else-block needs at least one statement") p₁ in
            let same = size-check stmt (codes "Else-block needs at least one statement") p₁ in
            block-Within (size q) (size p)
              (else_block_loop fuel statement if_block (block_of stmt) q)
              (λ block p₂. some (else_block block, p₂))
              (else_block_loop-Ends n fuel statement if_block (block_of stmt) ih q (omega arith)
                (omega arith))
              (λ b p₂ m. omega arith)))
      (omega arith)

end_if-Within :
    (n : ℕ) (start : Position) (condition : Option Expression) (if_block : Statements)
    (r : Option (ElseBlock × Parser))
    → Within n r
    → Within n (end_if start condition if_block r)
end_if-Within n start condition if_block none h = absurd h
end_if-Within n start condition if_block (some (e, p)) h =
    omega (arith, size-expect keyword (codes "end") p)

parse_then-Ends :
    (n fuel : ℕ) (statement : Parse Statement) (start : Position) (condition : Option Expression)
    → EndsReading n statement
    → (p : Parser) → size p < fuel
    → size p < n
    → Within (size p) (parse_then fuel statement start condition p)
unfolding parse_then
parse_then-Ends n fuel statement start condition ih p h k =
    let p₁ : Parser = check condition (codes "No expression found as if-condition") p in
    let p₂ : Parser = expect keyword (codes "then") p₁ in
    let same = size-check condition (codes "No expression found as if-condition") p in
    let le = size-expect keyword (codes "then") p₁ in
    after-Within (size p₂) (size p) (statement p₂) _
      (Reads-Within _ (statement p₂) (ih p₂ (omega arith)))
      (λ stmt p₃ l.
        let q : Parser = check stmt (codes "If-block needs at least one statement") p₃ in
        let same₂ = size-check stmt (codes "If-block needs at least one statement") p₃ in
        block-Within (size q) (size p) (if_block_loop fuel statement (block_of stmt) q) _
          (if_block_loop-Ends n fuel statement (block_of stmt) ih q (omega arith) (omega arith))
          (λ b p₄ m. end_if-Within (size p) start condition b (parse_else fuel statement b p₄) (
            Within-le (size p₄) (size p) _ (omega arith)
              (parse_else-Ends n fuel statement b ih p₄ (omega arith) (omega arith)))))

Within-Reads : (m n : ℕ) (o : Parsed Statement) → m < n → Within m o → Reads n o
Within-Reads m n none h k = k
Within-Reads m n (some (none, p)) h k = omega arith
Within-Reads m n (some (some s, p)) h k = omega arith

parse_if-Reads :
    (n : ℕ) (expression : Parse Expression) (statement : Parse Statement)
    → Ends (suc n) expression
    → EndsReading n statement
    → EndsReading (suc n) (parse_if (suc n) expression statement)
unfolding parse_if
parse_if-Reads n expression statement ihe ihs p h =
    if-Reads (size p) (is_current keyword (codes "if") p) _ (some (none, p))
      (λ e.
        let less = advance-lt p (is_current-has_next keyword (codes "if") p e (cc)) in
        after-Reads (size (advance p)) (size p) (expression (advance p)) _
          (ihe (advance p) (omega arith))
          (λ c p₁ l. Within-Reads (size p₁) (size p) _ (omega arith) (
            parse_then-Ends n (suc n) statement p.current_token.position c ihs p₁ (omega arith)
              (omega arith))))
      (λ e. omega arith)

Reads-le : (m n : ℕ) (o : Parsed Statement) → m ≤ n → Reads m o → Reads n o
Reads-le m n none h k = k
Reads-le m n (some (none, p)) h k = omega arith
Reads-le m n (some (some s, p)) h k = omega arith

or_next-Reads :
    (n : ℕ) (o : Parsed Statement) (next : Parse Statement)
    → Reads n o
    → ((p : Parser) → size p ≤ n → Reads (size p) (next p))
    → Reads n (or_next o next)
or_next-Reads n none next h g = h
or_next-Reads n (some (none, p)) next h g = Reads-le (size p) n (next p) h (g p h)
or_next-Reads n (some (some s, p)) next h g = h

-- ParseStatement returns with fuel for each token ahead, and one more. It reads a token if it finds a
-- statement, and none twice.
pub parse_statement-Reads : (fuel : ℕ) → EndsReading fuel (parse_statement fuel)
unfolding parse_statement
parse_statement-Reads zero p h = absurd (omega arith)
parse_statement-Reads (suc fuel) p h =
    let ends = parse_expression-Ends (suc fuel) in
    let expression = parse_expression (suc fuel) in
    or_next-Reads (size p) (parse_assignment expression p) _
      (parse_assignment-Reads (suc fuel) expression ends p h)
      (λ p₁ l₁.
        or_next-Reads (size p₁) (parse_if (suc fuel) expression (parse_statement fuel) p₁) _
          (parse_if-Reads fuel expression (parse_statement fuel) ends (parse_statement-Reads fuel)
            p₁ (omega arith))
          (λ p₂ l₂.
            or_next-Reads (size p₂) (parse_goto expression p₂) _
              (parse_goto-Reads (suc fuel) expression ends p₂ (omega arith))
              (λ p₃ l₃. parse_pre_or_post-Reads p₃)))
