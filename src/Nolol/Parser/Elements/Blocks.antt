-- ===== src/Nolol/Parser/Elements/Blocks.antt =====
-- pkg/nolol/parser.go: how far the parsing functions of blocks and of the branches of an if read, and
-- their fuel.
use yodk.Common.{
  ◌≡◌, ℕ, zero, suc, ◌+◌, ◌≤◌, ◌<◌, Bool, true, not, ◌&&◌, [], Option, none, some, if◌then◌else◌,
  arith,
}
use yodk.Text.{codes}
use yodk.Ast.{Position}
use yodk.Parsing.Tokenizer.{keyword, newline}
use yodk.Parsing.Parser.{
  Parser, is_current, has_next, advance, error_current, expect, Parse, Parsed,
}
use yodk.Parsing.Parser.Size.{size, advance-lt, advance-le, size-expect, size-error_current}
use yodk.Parsing.Parser.Expressions.{after}
use yodk.Parsing.Parser.Expressions.Ends.{
  Within, after-Within, Within-le, if-Within, is_current-has_next,
}
use yodk.Parsing.Parser.Lines.Ends.{Shrinks, AllShrink}
use yodk.Nolol.Ast.{NololExpression}
use yodk.Nolol.Syntax.{SourceElement, no_source, no_source_branch, no_source_else}
use yodk.Nolol.Parser.Expressions.{parse_nolol_expression}
use yodk.Nolol.Parser.Expressions.Ends.{with_result-Within, parse_nolol_expression-Ends}
use yodk.Nolol.Parser.Elements.{
  parse_block, at_end, at_end_or_else, skip_condition, parse_else_block, skip_else, branch_loop,
}

-- an element is read, unless no token is left
abbrev pub NestedShrink : ℕ → Parse SourceElement → Type 0
NestedShrink n nested = (q : Parser) → size q < n → AllShrink (size q) (nested q)

shrunk-Within :
    {A B : Type 0} (n : ℕ) (o : Parsed A) (k : Option A → Parser → Option (B × Parser))
    → AllShrink n o
    → ((a : Option A) (p : Parser) → Shrinks n p → Within n (k a p))
    → Within n (after o k)
shrunk-Within n none k h g = absurd h
shrunk-Within n (some (a, p)) k h g = g a p h

-- ParseBlock ends, with fuel for the tokens ahead and two more.
pub parse_block-Within :
    (n fuel : ℕ) (stop : Parser → Bool) (nested : Parse SourceElement)
    → NestedShrink n nested
    → (p : Parser) → size p < n
    → 0 < fuel
    → (has_next p ≡ true → size p + 1 < fuel)
    → Within (size p) (parse_block fuel stop nested p)
unfolding parse_block
parse_block-Within n zero stop nested ih p h z f = absurd (omega arith)
parse_block-Within n (suc fuel) stop nested ih p h z f =
    if-Within (size p) (has_next p && not (stop p)) _ (some (no_source, p))
      (λ e.
        let g = f (ground (arith, e)) in
        shrunk-Within (size p) (nested p) _ (ih p h) (λ element p₁ (le, lt).
          with_result-Within (size p₁) (size p) (parse_block fuel stop nested p₁) _
            (parse_block-Within n fuel stop nested ih p₁ (omega arith) (omega arith)
              (λ t. omega (arith, g, lt t)))
            (λ rest p₂ l. omega (arith, l, le))))
      (omega arith)

-- a block behind a keyword, with as much fuel as there was for it
pub block-Within :
    (fuel : ℕ) (stop : Parser → Bool) (nested : Parse SourceElement)
    → NestedShrink fuel nested
    → (p : Parser) → size p < fuel
    → Within (size p) (parse_block (suc fuel) stop nested p)
block-Within fuel stop nested ih p h =
    parse_block-Within fuel (suc fuel) stop nested ih p h (omega arith) (λ e. omega arith)

parse_else_block-Within :
    (fuel : ℕ) (nested : Parse SourceElement)
    → NestedShrink fuel nested
    → (p : Parser) → size p < fuel
    → Within (size p) (parse_else_block (suc fuel) nested p)
unfolding parse_else_block
parse_else_block-Within fuel nested ih p h =
    let q = expect newline [] p in
    let le = size-expect newline [] p in
    with_result-Within (size q) (size p) (parse_block (suc fuel) at_end nested q) _
      (block-Within fuel at_end nested ih q (omega arith)) (λ block p₁ l. omega (arith, l, le))

skip_condition-le :
    (condition : Option NololExpression) (p : Parser) → size (skip_condition condition p) ≤ size p
skip_condition-le none p = omega (
  arith,
  size-error_current (codes "No expression found as if-condition") p,
  advance-le (error_current (codes "No expression found as if-condition") p),
)
skip_condition-le (some condition) p = omega arith

skip_else-le : (p : Parser) → size (skip_else p) ≤ size p
unfolding skip_else
skip_else-le p = ground (arith, advance-le p)

pub branch_loop-Within :
    (fuel rounds : ℕ) (nested : Parse SourceElement)
    → NestedShrink fuel nested
    → (position : Position) (p : Parser) → size p < rounds
    → size p < fuel
    → Within (size p) (branch_loop (suc fuel) rounds nested position p)
unfolding branch_loop
branch_loop-Within fuel zero nested ih position p h k = absurd (omega arith)
branch_loop-Within fuel (suc rounds) nested ih position p h k =
    after-Within (size p) (size p) (parse_nolol_expression (suc fuel) p) _
      (parse_nolol_expression-Ends (suc fuel) p (omega arith))
      (λ condition p₁ l₁.
        let s = skip_condition condition p₁ in
        let t = expect keyword (codes "then") s in
        let q = expect newline [] t in
        let le : size q ≤ size p = omega (
          arith,
          l₁,
          skip_condition-le condition p₁,
          size-expect keyword (codes "then") s,
          size-expect newline [] t,
        ) in
        with_result-Within (size q) (size p) (parse_block (suc fuel) at_end_or_else nested q) _
          (block-Within fuel at_end_or_else nested ih q (omega arith))
          (λ block p₂ l₂.
            let p₃ = skip_else p₂ in
            let le₃ = skip_else-le p₂ in
            with_result-Within (size p) (size p)
              (if is_current keyword (codes "end") p₂
                then some ((no_source_branch, no_source_else), p₂)
                else if is_current keyword (codes "if") p₃
                then branch_loop (suc fuel) rounds nested p₃.current_token.position (advance p₃)
                else parse_else_block (suc fuel) nested p₃)
              _
              (if-Within (size p) (is_current keyword (codes "end") p₂)
                (some ((no_source_branch, no_source_else), p₂)) _ (λ e. omega (arith, l₂, le))
                (if-Within (size p) (is_current keyword (codes "if") p₃) _
                  (parse_else_block (suc fuel) nested p₃)
                  (λ e.
                    let less = advance-lt p₃ (is_current-has_next keyword (codes "if") p₃ e (cc)) in
                    Within-le (size (advance p₃)) (size p) _ (omega (arith, l₂, le, le₃, less)) (
                      branch_loop-Within fuel rounds nested ih p₃.current_token.position
                        (advance p₃) (omega (arith, l₂, le, le₃, less, h))
                        (omega (arith, l₂, le, le₃, less, k))))
                  (Within-le (size p₃) (size p) _ (omega (arith, l₂, le, le₃))
                    (parse_else_block-Within fuel nested ih p₃ (omega (arith, l₂, le, le₃, k))))))
              (λ rest p₄ l₄. l₄)))
