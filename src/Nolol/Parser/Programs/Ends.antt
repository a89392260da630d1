-- ===== src/Nolol/Parser/Programs/Ends.antt =====
-- pkg/nolol/parser.go: Parse returns on every text.
use yodk.Common.{
  ◌≡◌, refl, ℕ, zero, suc, ◌+◌, ◌≤◌, ◌<◌, Bool, true, false, not, List, [], ◌∷◌, ◌++◌, Option, none,
  some, if◌then◌else◌, length, arith, Bool-cases, inl, inr,
}
use yodk.Text.{Text, codes}
use yodk.Parsing.Tokenizer.{Token, Tokenizer, id, str, symbol, keyword, newline, load}
use yodk.Parsing.Tokenizer.Next.{load_nolol}
use yodk.Parsing.Tokenizer.Progress.{AllNonempty, tokens_from-ends}
use yodk.Parsing.Parser.{Parser, is_current_type, is_current, advance, error_current, expect}
use yodk.Parsing.Parser.Size.{size, advance-lt, advance-le, size-expect, size-error_current}
use yodk.Parsing.Parser.Expressions.{check}
use yodk.Parsing.Parser.Expressions.Ends.{
  Within, after-Within, if-Within, size-check, is_current-has_next,
}
use yodk.Parsing.Parser.Statements.Reading.{Reads}
use yodk.Parsing.Parser.Lines.{start_parser}
use yodk.Parsing.Parser.Lines.Ends.{AllShrink, Returns, size-start_parser}
use yodk.Nolol.Syntax.{SourceBlock, macro_definition, no_source}
use yodk.Nolol.Parser.{with_result}
use yodk.Nolol.Parser.Expressions.{parse_nolol_expression}
use yodk.Nolol.Parser.Expressions.Ends.{with_result-Within, parse_nolol_expression-Ends}
use yodk.Nolol.Parser.Statements.Ends.{size-end_of_line, keyword-Reads, Reads-of_Within}
use yodk.Nolol.Parser.Elements.{parse_block, at_end, parse_nestable}
use yodk.Nolol.Parser.Elements.Blocks.{parse_block-Within}
use yodk.Nolol.Parser.Elements.Ends.{or_other-Shrink, parse_nestable-AllShrink}
use yodk.Nolol.Parser.Programs.{
  parse_include, parse_definition, parameter_loop, parse_macro_definition, parse_element,
  parse_program, source_result, parse_source_tokens, parse_source,
}

parse_include-Reads : (n : ℕ) (p : Parser) → size p ≤ n → Reads n (parse_include p)
unfolding parse_include
parse_include-Reads n p h = keyword-Reads n (is_current keyword (codes "include") p) p _ h (λ e.
    let less = advance-lt p (is_current-has_next keyword (codes "include") p e (cc)) in
    let p₁ = advance p in
    elim (Bool-cases (is_current_type str p₁)) [
      | inl t ↦ rw t (omega (arith, h, less, advance-le p₁, size-end_of_line (advance p₁)))
      | inr t ↦ rw t (
          omega (
            arith,
            h,
            less,
            size-error_current (codes "Expected a string-constant after include") p₁,
          ))
    ])

parse_definition-Reads :
    (n fuel : ℕ) (p : Parser) → size p ≤ n → n ≤ fuel → Reads n (parse_definition fuel p)
unfolding parse_definition
parse_definition-Reads n fuel p h f =
    let msg = codes "const keyword must be followed by an identifier" in
    let end_msg = codes "The = of a const declaration must be followed by an expression" in
    keyword-Reads n (is_current keyword (codes "define") p) p _ h (λ e.
      let less = advance-lt p (is_current-has_next keyword (codes "define") p e (cc)) in
      let p₁ = advance p in
      let p₂ : Parser = if is_current_type id p₁ then p₁ else error_current msg p₁ in
      let same : size p₂ ≡ size p₁ =
        size-if (is_current_type id p₁) p₁ (error_current msg p₁) (size-error_current msg p₁) in
      let q = expect symbol (codes "=") (advance p₂) in
      let le : size q ≤ size p₁ =
        omega (arith, same, advance-le p₂, size-expect symbol (codes "=") (advance p₂)) in
      Reads-of_Within (size p₁) n _ (omega arith) (
        after-Within (size q) (size p₁) (parse_nolol_expression fuel q) _
          (parse_nolol_expression-Ends fuel q (omega (arith, le, less, h, f)))
          (λ value p₃ l. omega (
            arith,
            l,
            le,
            size-check value end_msg p₃,
            size-end_of_line (check value end_msg p₃),
          ))))
  where
    size-if : (b : Bool) (p q : Parser) → size q ≡ size p → size (if b then p else q) ≡ size p
    size-if true p q k = refl
    size-if false p q k = k

parameter_loop-Within :
    (fuel : ℕ) (p : Parser) → size p < fuel → Within (size p) (parameter_loop fuel p)
unfolding parameter_loop
parameter_loop-Within zero p h = absurd (omega arith)
parameter_loop-Within (suc fuel) p h =
    let msg =
      codes "Only comma separated identifiers are allowed as arguments in a macro definition" in
    let p₁ = advance p in
    let le = advance-le p in
    elim (Bool-cases (is_current symbol (codes ")") p)) [
      | inl e ↦ rw e (omega arith)
      | inr e ↦ rw e (
          if-Within (size p) (not (is_current_type id p)) (some ([], error_current msg p)) _
            (λ t. omega (arith, size-error_current msg p))
            (if-Within (size p) (is_current symbol (codes ",") p₁) _
              (some (p.current_token.value ∷ [], p₁))
              (λ t.
                let less = advance-lt p₁ (is_current-has_next symbol (codes ",") p₁ t (cc)) in
                with_result-Within (size (advance p₁)) (size p) (parameter_loop fuel (advance p₁)) _
                  (parameter_loop-Within fuel (advance p₁) (omega arith))
                  (λ rest p₂ l. omega arith))
              (omega arith)))
    ]

nested_AllShrink :
    (fuel : ℕ) (q : Parser) → size q < fuel → AllShrink (size q) (parse_nestable fuel q)
nested_AllShrink fuel q k = parse_nestable-AllShrink (size q) fuel q (omega arith) k

parse_macro_definition-Reads :
    (n fuel : ℕ) (p : Parser) → size p ≤ n → n < fuel → Reads n (parse_macro_definition fuel p)
unfolding parse_macro_definition
parse_macro_definition-Reads n fuel p h f =
    let msg = codes "Expected an idantifier after the macro keyword" in
    keyword-Reads n (is_current keyword (codes "macro") p) p _ h (λ e.
      let less = advance-lt p (is_current-has_next keyword (codes "macro") p e (cc)) in
      let p₁ = advance p in
      let q = expect symbol (codes "(") (advance p₁) in
      let le : size q ≤ size p₁ =
        omega (arith, advance-le p₁, size-expect symbol (codes "(") (advance p₁)) in
      Reads-of_Within (size p₁) n _ (omega arith) (
        if-Within (size p₁) (is_current_type id p₁) _
          (some (
            some (macro_definition p₁.current_token.position [] [] no_source),
            error_current msg p₁,
          ))
          (λ t.
            with_result-Within (size q) (size p₁) (parameter_loop fuel q) _
              (parameter_loop-Within fuel q (omega (arith, le, less, h, f)))
              (λ arguments p₂ l₂.
                let r = expect newline [] (expect symbol (codes ")") p₂) in
                let le₂ : size r ≤ size p₁ = omega (
                  arith,
                  l₂,
                  le,
                  size-expect symbol (codes ")") p₂,
                  size-expect newline [] (expect symbol (codes ")") p₂),
                ) in
                with_result-Within (size r) (size p₁)
                  (parse_block fuel at_end (parse_nestable fuel) r) _
                  (parse_block-Within fuel fuel at_end (parse_nestable fuel) (nested_AllShrink fuel)
                    r (omega (arith, le₂, less, h, f)) (omega arith)
                    (λ t. omega (arith, le₂, less, h, f)))
                  (λ block p₃ l₃. omega (arith, l₃, le₂, size-expect keyword (codes "end") p₃))))
          (omega (arith, size-error_current msg p₁))))

-- ParseElement reads a token, unless none is left.
parse_element-AllShrink :
    (n fuel : ℕ) (p : Parser) → size p ≤ n → n < fuel → AllShrink n (parse_element fuel p)
unfolding parse_element
parse_element-AllShrink n fuel p h f =
    or_other-Shrink n (parse_include p) _ (parse_include-Reads n p h) (λ p₁ l₁.
      or_other-Shrink n (parse_definition fuel p₁) _
        (parse_definition-Reads n fuel p₁ l₁ (omega arith))
        (λ p₂ l₂.
          or_other-Shrink n (parse_macro_definition fuel p₂) _
            (parse_macro_definition-Reads n fuel p₂ l₂ f)
            (λ p₃ l₃. parse_nestable-AllShrink n fuel p₃ l₃ f)))

result-Returns :
    (n : ℕ) (o : Option (SourceBlock × Parser))
    → Within n o
    → Returns (with_result o (λ elements p. some (source_result elements p.errors)))
result-Returns n none h = h
result-Returns n (some (elements, p)) h = tt

parse_source_tokens-Returns :
    (all_errors : Bool) (tokens : List Token) → Returns (parse_source_tokens all_errors tokens)
unfolding parse_source_tokens parse_program
parse_source_tokens-Returns all_errors tokens =
    let fuel : ℕ = length tokens + 3 in
    let p = start_parser all_errors tokens in
    let le = size-start_parser all_errors tokens in
    result-Returns (size p) (parse_block fuel (λ q. false) (parse_element fuel) p) (
      parse_block-Within fuel fuel (λ q. false) (parse_element fuel)
        (λ q k. parse_element-AllShrink (size q) fuel q (omega arith) k) p (omega (arith, le))
        (omega arith) (λ e. omega (arith, le)))

nolol_symbols-AllNonempty :
    (filename prog : Text)
    → AllNonempty (Tokenizer.symbols (load_nolol filename prog))
      × AllNonempty (Tokenizer.keywords (load_nolol filename prog))
unfolding load_nolol
nolol_symbols-AllNonempty filename prog = ground arith

-- Parse of nolol returns, with a program or with errors, on every text and in both modes of error
-- reporting: the fuel that the number of tokens gives is enough for all blocks, lines and expressions.
pub parse_source-Returns :
    (all_errors : Bool) (filename prog : Text) → Returns (parse_source all_errors filename prog)
unfolding parse_source load_nolol load
parse_source-Returns all_errors filename prog =
    let t : Tokenizer = load_nolol filename prog in
    let (tokens, last, e, _, _) =
      tokens_from-ends (length prog + 1) t (nolol_symbols-AllNonempty filename prog).0
        (nolol_symbols-AllNonempty filename prog).1 (omega arith) in
    rw (Returns, e) (parse_source_tokens-Returns all_errors (tokens ++ last ∷ []))
