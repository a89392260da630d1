-- ===== src/Nolol/Parser/Elements.antt =====
-- pkg/nolol/parser.go: the parsing functions of elements and blocks.
pub mod Blocks
pub mod Ends
use yodk.Common.{ℕ, zero, suc, Bool, not, ◌&&◌, ◌||◌, [], Option, none, some, if◌then◌else◌}
use yodk.Text.{codes}
use yodk.Ast.{Position}
use yodk.Parsing.Tokenizer.{keyword, newline}
use yodk.Parsing.Parser.{
  Parser, is_current_type, is_current_value, is_current, has_next, advance, error_current, expect,
  Parse,
}
use yodk.Parsing.Parser.Expressions.{check, after}
use yodk.Nolol.Ast.{NololExpression}
use yodk.Nolol.Syntax.{
  SourceElement, source_if, source_while, macro_insertion, SourceBlock, no_source, source,
  SourceBranches, no_source_branch, source_branch, SourceElse, no_source_else, source_else,
}
use yodk.Nolol.Parser.{with_result, end_of_line}
use yodk.Nolol.Parser.Expressions.{or_missing_nolol, parse_nolol_expression, parse_func_call}
use yodk.Nolol.Parser.Statements.{or_other, parse_statement_line, parse_wait_directive}

-- append(elements, element)
abbrev pub add_source : Option SourceElement → SourceBlock → SourceBlock
add_source none rest = rest
add_source (some element) rest = source element rest

-- ParseBlock, on fuel. An element is never nil.
unfoldable pub parse_block :
    ℕ → (Parser → Bool) → Parse SourceElement → Parser → Option (SourceBlock × Parser)
unfolding has_next
parse_block zero stop nested p = none
parse_block (suc fuel) stop nested p =
    let more = after (nested p) (λ e p₁.
      with_result (parse_block fuel stop nested p₁) (λ rest p₂. some (add_source e rest, p₂))) in
    if has_next p && not (stop p) then more else some (no_source, p)

unfoldable pub at_end : Parser → Bool
unfolding is_current
at_end p = is_current keyword (codes "end") p

unfoldable pub at_end_or_else : Parser → Bool
unfolding is_current_type is_current_value
at_end_or_else p =
    is_current_type keyword p
    && (is_current_value (codes "end") p || is_current_value (codes "else") p)

-- the error of a condition that is nil, and the token that is skipped then
abbrev pub skip_condition : Option NololExpression → Parser → Parser
skip_condition none p = advance (error_current (codes "No expression found as if-condition") p)
skip_condition (some condition) p = p

-- a condition and its block, in front of the rest of an if
abbrev pub with_branch :
    Position
    → Option NololExpression
    → SourceBlock
    → SourceBranches × SourceElse
    → SourceBranches × SourceElse
with_branch position condition block (rest, else_part) =
    (source_branch position (or_missing_nolol condition) block rest, else_part)

-- `else` and its block
unfoldable pub parse_else_block :
    ℕ → Parse SourceElement → Parser → Option ((SourceBranches × SourceElse) × Parser)
unfolding expect parse_block at_end
parse_else_block fuel nested p =
    with_result (parse_block fuel at_end nested (expect newline [] p))
      (λ block p₁. some ((no_source_branch, source_else block), p₁))

-- `if p.IsCurrent(ast.TypeKeyword, "else") { p.Advance() }`
unfoldable pub skip_else : Parser → Parser
unfolding is_current advance
skip_else p = if is_current keyword (codes "else") p then advance p else p

-- the loop of ParseMultilineIf, on fuel, from a condition
unfoldable pub branch_loop :
    ℕ
    → ℕ
    → Parse SourceElement
    → Position
    → Parser
    → Option ((SourceBranches × SourceElse) × Parser)
unfolding parse_nolol_expression advance error_current expect parse_block at_end_or_else is_current
    parse_else_block skip_else
branch_loop inner zero nested position p = none
branch_loop inner (suc fuel) nested position p =
    after (parse_nolol_expression inner p) (λ condition p₁.
      with_result
        (parse_block inner at_end_or_else nested
          (expect newline [] (expect keyword (codes "then") (skip_condition condition p₁))))
        (λ block p₂.
          let p₃ : Parser = skip_else p₂ in
          let again = branch_loop inner fuel nested p₃.current_token.position (advance p₃) in
          let others =
            if is_current keyword (codes "if") p₃
            then again
            else parse_else_block inner nested p₃ in
          with_result
            (if is_current keyword (codes "end") p₂
              then some ((no_source_branch, no_source_else), p₂)
              else others)
            (λ rest p₄. some (with_branch position condition block rest, p₄))))

-- ParseMultilineIf
unfoldable pub parse_multiline_if : ℕ → Parse SourceElement → Parse SourceElement
unfolding is_current advance branch_loop expect end_of_line
parse_multiline_if fuel nested p =
    if is_current keyword (codes "if") p
    then with_result (branch_loop fuel fuel nested p.current_token.position (advance p))
        (λ r p₁. some (some (source_if r.0 r.1), end_of_line (expect keyword (codes "end") p₁)))
    else some (none, p)

-- ParseWhile
unfoldable pub parse_while : ℕ → Parse SourceElement → Parse SourceElement
unfolding is_current advance parse_nolol_expression error_current expect parse_block at_end
    end_of_line
parse_while fuel nested p =
    if is_current keyword (codes "while") p
    then after (parse_nolol_expression fuel (advance p)) (λ condition p₁.
      with_result
        (parse_block fuel at_end nested (
          expect newline [] (
            expect keyword (codes "do")
              (check condition (codes "No expression found as loop-condition") p₁))))
        (λ block p₂. some (
          some (source_while p.current_token.position (or_missing_nolol condition) block),
          end_of_line (expect keyword (codes "end") p₂),
        )))
    else some (none, p)

-- ParseMacroInsertion
unfoldable pub parse_macro_insertion : ℕ → Parse SourceElement
unfolding is_current advance parse_func_call parse_nolol_expression error_current end_of_line
parse_macro_insertion fuel p =
    let p₁ : Parser = advance p in
    let position : Position = p₁.current_token.position in
    if is_current keyword (codes "insert") p
    then after (parse_func_call fuel (parse_nolol_expression fuel) p₁) (λ call p₂. elim call [
      | none ↦ some (
        some (macro_insertion position none),
        error_current (codes "Expected a macro instanziation after the insert keyword") p₂,
      )
      | some f ↦ some (some (macro_insertion position (some f)), end_of_line p₂)
    ])
    else some (none, p)

-- ParseNestableElement, on fuel; each level of blocks costs one
unfoldable pub parse_nestable : ℕ → Parse SourceElement
unfolding parse_multiline_if parse_while parse_wait_directive parse_macro_insertion
    parse_statement_line
parse_nestable zero p = none
parse_nestable (suc fuel) p =
    or_other (parse_multiline_if (suc fuel) (parse_nestable fuel) p) (λ p₁.
      or_other (parse_while (suc fuel) (parse_nestable fuel) p₁) (λ p₂.
        or_other (parse_wait_directive (suc fuel) p₂) (λ p₃.
          or_other (parse_macro_insertion (suc fuel) p₃)
            (λ p₄. parse_statement_line (suc fuel) p₄))))
