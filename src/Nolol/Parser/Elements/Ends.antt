-- ===== src/Nolol/Parser/Elements/Ends.antt =====
-- pkg/nolol/parser.go: how far the parsing functions of elements read, and their fuel.
use yodk.Common.{ℕ, zero, suc, ◌≤◌, ◌<◌, [], Option, none, some, arith}
use yodk.Text.{codes}
use yodk.Ast.{Position}
use yodk.Parsing.Tokenizer.{keyword, newline}
use yodk.Parsing.Parser.{Parser, is_current, advance, error_current, expect, Parse, Parsed}
use yodk.Parsing.Parser.Size.{size, advance-lt, size-expect, size-error_current}
use yodk.Parsing.Parser.Expressions.{check}
use yodk.Parsing.Parser.Expressions.Ends.{Within, after-Within, size-check, is_current-has_next}
use yodk.Parsing.Parser.Statements.Reading.{Reads}
use yodk.Parsing.Parser.Lines.Ends.{AllShrink}
use yodk.Nolol.Syntax.{FuncCall, SourceElement, macro_insertion}
use yodk.Nolol.Parser.{end_of_line}
use yodk.Nolol.Parser.Expressions.{parse_nolol_expression, parse_func_call}
use yodk.Nolol.Parser.Expressions.Ends.{
  with_result-Within, parse_func_call-Within, parse_nolol_expression-Ends,
}
use yodk.Nolol.Parser.Statements.{or_other, parse_wait_directive}
use yodk.Nolol.Parser.Statements.Ends.{size-end_of_line, keyword-Reads, Reads-of_Within}
use yodk.Nolol.Parser.Statements.Lines.{parse_statement_line-AllShrink, parse_wait_directive-Reads}
use yodk.Nolol.Parser.Elements.{
  parse_block, at_end, branch_loop, parse_multiline_if, parse_while, parse_macro_insertion,
  parse_nestable,
}
use yodk.Nolol.Parser.Elements.Blocks.{NestedShrink, block-Within, branch_loop-Within}

parse_multiline_if-Reads :
    (n fuel : ℕ) (nested : Parse SourceElement)
    → NestedShrink fuel nested
    → (p : Parser) → size p ≤ n
    → n ≤ fuel
    → Reads n (parse_multiline_if (suc fuel) nested p)
unfolding parse_multiline_if
parse_multiline_if-Reads n fuel nested ih p h f =
    keyword-Reads n (is_current keyword (codes "if") p) p _ h (λ e.
      let less = advance-lt p (is_current-has_next keyword (codes "if") p e (cc)) in
      let p₁ = advance p in
      Reads-of_Within (size p₁) n _ (omega arith) (
        with_result-Within (size p₁) (size p₁)
          (branch_loop (suc fuel) (suc fuel) nested p.current_token.position p₁) _
          (branch_loop-Within fuel (suc fuel) nested ih p.current_token.position p₁ (omega arith)
            (omega arith))
          (λ r p₂ l. omega (
            arith,
            l,
            size-expect keyword (codes "end") p₂,
            size-end_of_line (expect keyword (codes "end") p₂),
          ))))

parse_while-Reads :
    (n fuel : ℕ) (nested : Parse SourceElement)
    → NestedShrink fuel nested
    → (p : Parser) → size p ≤ n
    → n ≤ fuel
    → Reads n (parse_while (suc fuel) nested p)
unfolding parse_while
parse_while-Reads n fuel nested ih p h f =
    keyword-Reads n (is_current keyword (codes "while") p) p _ h (λ e.
      let less = advance-lt p (is_current-has_next keyword (codes "while") p e (cc)) in
      let p₁ = advance p in
      Reads-of_Within (size p₁) n _ (omega arith) (
        after-Within (size p₁) (size p₁) (parse_nolol_expression (suc fuel) p₁) _
          (parse_nolol_expression-Ends (suc fuel) p₁ (omega arith))
          (λ condition p₂ l₂.
            let s = check condition (codes "No expression found as loop-condition") p₂ in
            let t = expect keyword (codes "do") s in
            let q = expect newline [] t in
            let le : size q ≤ size p₁ = omega (
              arith,
              l₂,
              size-check condition (codes "No expression found as loop-condition") p₂,
              size-expect keyword (codes "do") s,
              size-expect newline [] t,
            ) in
            with_result-Within (size q) (size p₁) (parse_block (suc fuel) at_end nested q) _
              (block-Within fuel at_end nested ih q (omega arith))
              (λ block p₃ l₃. omega (
                arith,
                l₃,
                le,
                size-expect keyword (codes "end") p₃,
                size-end_of_line (expect keyword (codes "end") p₃),
              )))))

parse_macro_insertion-Reads :
    (n fuel : ℕ) (p : Parser) → size p ≤ n → n ≤ fuel → Reads n (parse_macro_insertion fuel p)
unfolding parse_macro_insertion
parse_macro_insertion-Reads n fuel p h f =
    keyword-Reads n (is_current keyword (codes "insert") p) p _ h (λ e.
      let less = advance-lt p (is_current-has_next keyword (codes "insert") p e (cc)) in
      let p₁ = advance p in
      Reads-of_Within (size p₁) n _ (omega arith) (
        after-Within (size p₁) (size p₁) (parse_func_call fuel (parse_nolol_expression fuel) p₁) _
          (parse_func_call-Within fuel fuel (parse_nolol_expression fuel)
            (parse_nolol_expression-Ends fuel) p₁ (omega arith) (omega arith))
          (λ call p₂ l. inserted (size p₁) p₁.current_token.position call p₂ l)))
  where
    inserted :
        (m : ℕ) (position : Position) (call : Option FuncCall) (p₂ : Parser)
        → size p₂ ≤ m
        → Within m (elim call [
          | none ↦ some (
            some (macro_insertion position none),
            error_current (codes "Expected a macro instanziation after the insert keyword") p₂,
          )
          | some f ↦ some (some (macro_insertion position (some f)), end_of_line p₂)
        ])
    inserted m position none p₂ l = omega (
      arith,
      l,
      size-error_current (codes "Expected a macro instanziation after the insert keyword") p₂,
    )
    inserted m position (some call) p₂ l = omega (arith, l, size-end_of_line p₂)

pub or_other-Shrink :
    {A : Type 0} (n : ℕ) (o : Parsed A) (next : Parse A)
    → Reads n o
    → ((p : Parser) → size p ≤ n → AllShrink n (next p))
    → AllShrink n (or_other o next)
or_other-Shrink n none next h k = h
or_other-Shrink n (some (none, p)) next h k = k p h
or_other-Shrink n (some (some a, p)) next h k = (omega arith, λ e. h)

-- ParseNestableElement reads a token, unless none is left.
pub parse_nestable-AllShrink :
    (n fuel : ℕ) (p : Parser) → size p ≤ n → n < fuel → AllShrink n (parse_nestable fuel p)
unfolding parse_nestable
parse_nestable-AllShrink n zero p h f = absurd (omega arith)
parse_nestable-AllShrink n (suc fuel) p h f =
    let ih = λ (q : Parser) (k : size q < fuel).
      parse_nestable-AllShrink (size q) fuel q (omega arith) k in
    or_other-Shrink n (parse_multiline_if (suc fuel) (parse_nestable fuel) p) _
      (parse_multiline_if-Reads n fuel (parse_nestable fuel) ih p h (omega arith))
      (λ p₁ l₁.
        or_other-Shrink n (parse_while (suc fuel) (parse_nestable fuel) p₁) _
          (parse_while-Reads n fuel (parse_nestable fuel) ih p₁ l₁ (omega arith))
          (λ p₂ l₂.
            or_other-Shrink n (parse_wait_directive (suc fuel) p₂) _
              (parse_wait_directive-Reads n (suc fuel) p₂ l₂ (omega arith))
              (λ p₃ l₃.
                or_other-Shrink n (parse_macro_insertion (suc fuel) p₃) _
                  (parse_macro_insertion-Reads n (suc fuel) p₃ l₃ (omega arith))
                  (λ p₄ l₄. parse_statement_line-AllShrink n (suc fuel) p₄ l₄ f))))
