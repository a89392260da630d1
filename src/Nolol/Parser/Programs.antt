-- ===== src/Nolol/Parser/Programs.antt =====
-- pkg/nolol/parser.go: definitions, macro definitions, include directives, programs, and Parse.
pub mod Ends
use yodk.Common.{
  ℕ, zero, suc, ◌+◌, Bool, false, not, List, [], ◌∷◌, Option, none, some, if◌then◌else◌, length,
}
use yodk.Text.{Text, codes}
use yodk.Ast.{Position}
use yodk.Parsing.Tokenizer.{Token, id, str, symbol, keyword, newline}
use yodk.Parsing.Tokenizer.Next.{tokens_from, load_nolol}
use yodk.Parsing.Parser.{
  Parser, ParserError, is_current_type, is_current, advance, error_current, expect, Parsed, Parse,
}
use yodk.Parsing.Parser.Expressions.{check, after}
use yodk.Parsing.Parser.Lines.{start_parser}
use yodk.Nolol.Syntax.{
  SourceElement, source_definition, macro_definition, include_directive, SourceBlock, no_source,
}
use yodk.Nolol.Parser.{with_result, end_of_line}
use yodk.Nolol.Parser.Expressions.{or_missing_nolol, parse_nolol_expression}
use yodk.Nolol.Parser.Statements.{or_other}
use yodk.Nolol.Parser.Elements.{parse_block, at_end, parse_nestable}

-- ParseInclude
unfoldable pub parse_include : Parse SourceElement
unfolding is_current is_current_type advance error_current end_of_line
parse_include p =
    let p₁ : Parser = advance p in
    let position : Position = p.current_token.position in
    if is_current keyword (codes "include") p
    then some (
        if is_current_type str p₁
        then (some (include_directive position p₁.current_token.value), end_of_line (advance p₁))
        else (
          some (include_directive position []),
          error_current (codes "Expected a string-constant after include") p₁,
        ))
    else some (none, p)

-- ParseDefinition; behind the error of a name that is none, it goes on
unfoldable pub parse_definition : ℕ → Parse SourceElement
unfolding is_current is_current_type advance error_current expect end_of_line parse_nolol_expression
parse_definition fuel p =
    let p₁ : Parser = advance p in
    let p₂ : Parser =
      if is_current_type id p₁
      then p₁
      else error_current (codes "const keyword must be followed by an identifier") p₁ in
    if is_current keyword (codes "define") p
    then after (parse_nolol_expression fuel (expect symbol (codes "=") (advance p₂))) (λ value p₃.
      some (
        some (
            source_definition p.current_token.position p₂.current_token.value
              (or_missing_nolol value)),
        end_of_line (
            check value (codes "The = of a const declaration must be followed by an expression")
              p₃),
      ))
    else some (none, p)

-- the loop of ParseMacroDefinition over the names of the arguments, on fuel
unfoldable pub parameter_loop : ℕ → Parser → Option (List Text × Parser)
unfolding is_current is_current_type advance error_current
parameter_loop zero p = none
parameter_loop (suc fuel) p =
    let p₁ : Parser = advance p in
    let more =
      with_result (parameter_loop fuel (advance p₁))
        (λ rest p₂. some (p.current_token.value ∷ rest, p₂)) in
    if is_current symbol (codes ")") p
    then some ([], p)
    else if not (is_current_type id p)
    then some (
      [],
      error_current
          (codes "Only comma separated identifiers are allowed as arguments in a macro definition")
          p,
    )
    else if is_current symbol (codes ",") p₁
    then more
    else some (p.current_token.value ∷ [], p₁)

-- ParseMacroDefinition; the position is that of the token behind `macro`
unfoldable pub parse_macro_definition : ℕ → Parse SourceElement
unfolding is_current is_current_type advance error_current expect parameter_loop parse_block at_end
    parse_nestable
parse_macro_definition fuel p =
    let p₁ : Parser = advance p in
    let position : Position = p₁.current_token.position in
    let whole =
      with_result (parameter_loop fuel (expect symbol (codes "(") (advance p₁))) (λ arguments p₂.
        with_result
          (parse_block fuel at_end (parse_nestable fuel)
            (expect newline [] (expect symbol (codes ")") p₂)))
          (λ block p₃. some (
            some (macro_definition position p₁.current_token.value arguments block),
            expect keyword (codes "end") p₃,
          ))) in
    let unnamed = some (
      some (macro_definition position [] [] no_source),
      error_current (codes "Expected an idantifier after the macro keyword") p₁,
    ) in
    let found : Parsed SourceElement = if is_current_type id p₁ then whole else unnamed in
    if is_current keyword (codes "macro") p then found else some (none, p)

-- ParseElement
unfoldable pub parse_element : ℕ → Parse SourceElement
unfolding parse_include parse_definition parse_macro_definition parse_nestable
parse_element fuel p = or_other (parse_include p) (λ p₁.
    or_other (parse_definition fuel p₁)
      (λ p₂. or_other (parse_macro_definition fuel p₂) (λ p₃. parse_nestable fuel p₃)))

-- ParseProgram: the elements up to the end of the file
unfoldable pub parse_program : ℕ → Parser → Option (SourceBlock × Parser)
unfolding parse_block parse_element
parse_program fuel p = parse_block fuel (λ q. false) (parse_element fuel) p

-- what Parse returns: a program, or the errors
pub data SourceResult : Type 0 where
  parsed : SourceBlock → SourceResult
  failed : List ParserError → SourceResult

abbrev pub source_result : SourceBlock → List ParserError → SourceResult
source_result elements [] = parsed elements
source_result elements (e ∷ errors) = failed (e ∷ errors)

-- ParseProgram, at the tokens of the code
unfoldable pub parse_source_tokens : Bool → List Token → Option SourceResult
unfolding parse_program start_parser
parse_source_tokens all_errors tokens =
    with_result (parse_program (length tokens + 3) (start_parser all_errors tokens))
      (λ elements p. some (source_result elements p.errors))

-- Parse
unfoldable pub parse_source : Bool → Text → Text → Option SourceResult
unfolding tokens_from load_nolol parse_source_tokens
parse_source all_errors filename prog =
    elim (tokens_from (length prog + 1) (load_nolol filename prog)) [
      | none ↦ none
      | some tokens ↦ parse_source_tokens all_errors tokens
    ]
