-- ===== src/Parsing/Parser/Lines/Ends.antt =====
-- pkg/parser/parser.go: how far ParseLine and ParseProgram read, and their fuel.
use yodk.Common.{
  ◌≡◌, refl, ap, ◌∙◌, ℕ, zero, suc, ◌+◌, ◌≤◌, ◌<◌, Bool, true, false, not, List, [], ◌∷◌, ◌++◌,
  Option, none, some, if◌then◌else◌, length, arith, Bool-cases, inl, inr,
}
use yodk.Text.{Text, codes}
use yodk.Ast.{Statement, Line}
use yodk.Parsing.Tokenizer.{
  yolol_symbols, yolol_keywords, Token, Tokenizer, TokenType, id, eof, load,
}
use yodk.Parsing.Tokenizer.Progress.{AllNonempty, tokens_from-ends}
use yodk.Parsing.Parser.{
  Parser, is_current_type, same_type, has_next, advance, skip_whitespace, error_current, Parse,
}
use yodk.Parsing.Parser.Size.{size, skip_whitespace-le, advance-lt, advance-le, size-error_current}
use yodk.Parsing.Parser.Expressions.{after}
use yodk.Parsing.Parser.Statements.{parse_statement, append_statement}
use yodk.Parsing.Parser.Statements.Reading.{Reads, EndsReading}
use yodk.Parsing.Parser.Statements.Ends.{parse_statement-Reads}
use yodk.Parsing.Parser.Lines.{
  take_comment, at_line_end, add_statement, check_space, end_round, line_loop, begin_line,
  parse_line, behind_line, program_loop, start_parser, result_of, parse_tokens, parse,
}

take_comment-le : (ret : Line) (p : Parser) → size (take_comment ret p).1 ≤ size p
unfolding take_comment
take_comment-le ret p = ground (arith, advance-le p)

size-if :
    (n : ℕ) (b : Bool) (p q : Parser) → size p ≡ n → size q ≡ n → size (if b then p else q) ≡ n
size-if n true p q h k = h
size-if n false p q h k = k

size-check_space : (p : Parser) → size (check_space p) ≡ size p
unfolding check_space
size-check_space p =
    size-if (size p) p.skipped_whitespace p _ refl
      (size-error_current (codes "Statements must be followed by space or newline") p)

-- no more than so many tokens are ahead, and fewer before the end of file
abbrev pub Shrinks : ℕ → Parser → Type 0
Shrinks n p = (size p ≤ n) × (has_next p ≡ true → size p < n)

abbrev pub AllShrink : {A : Type 0} → ℕ → Option (A × Parser) → Type 0
AllShrink n none = ⊥
AllShrink n (some (a, p)) = Shrinks n p

pub AllShrink-le :
    {A : Type 0} (m n : ℕ) (o : Option (A × Parser)) → m ≤ n → AllShrink m o → AllShrink n o
AllShrink-le m n none h k = k
AllShrink-le m n (some (a, p)) h (k, l) = (omega arith, λ e. omega (arith, l e))

advance-end : (p : Parser) → has_next p ≡ false → advance p ≡ p
unfolding advance
advance-end p h = rw h refl

pub advance-Shrinks : (n : ℕ) (p : Parser) → size p ≤ n → Shrinks n (advance p)
advance-Shrinks n p h = elim (Bool-cases (has_next p)) [
  | inl e ↦ (omega (arith, advance-le p), λ k. omega (arith, advance-lt p e))
  | inr e ↦ (omega (arith, advance-le p), λ k. absurd (cc (k, e, ap has_next (advance-end p e))))
]

if-AllShrink :
    {A : Type 0} (n : ℕ) (b : Bool) (x y : Option (A × Parser))
    → AllShrink n x
    → (b ≡ false → AllShrink n y)
    → AllShrink n (if b then x else y)
if-AllShrink n true x y h k = h
if-AllShrink n false x y h k = k refl

-- at the end of file the line ends, with no comment
take_comment-end :
    (ret : Line) (p : Parser) → has_next p ≡ false → at_line_end (take_comment ret p).1 ≡ true
unfolding take_comment at_line_end is_current_type has_next same_type
take_comment-end ret p h = of p.current_token.token_type refl h
  where
    of :
        (typ : TokenType)
        → p.current_token.token_type ≡ typ
        → not (same_type typ eof) ≡ false
        → at_line_end (take_comment ret p).1 ≡ true
    of eof e k = simp e refl
    of id e k = cc
    of _ e k = cc

-- how much is ahead behind the statement and the comment of a round
abbrev Shorter : ℕ → Line × Parser → Type 0
Shorter n (ret, p) = (size p ≤ n) × (at_line_end p ≡ false → size p < n)

take_comment-Shorter :
    (n : ℕ) (ret : Line) (p : Parser) → size p < n → Shorter n (take_comment ret p)
take_comment-Shorter n ret p h =
    (omega (arith, take_comment-le ret p), λ e. omega (arith, take_comment-le ret p))

-- a token that begins no statement is skipped
skip-Shorter :
    (n : ℕ) (ret : Line) (p : Parser) → size p ≤ n → Shorter n (take_comment ret (advance p))
skip-Shorter n ret p h = elim (Bool-cases (has_next p)) [
  | inl e ↦ take_comment-Shorter n ret (advance p) (omega (arith, advance-lt p e))
  | inr e ↦ (
    omega (arith, take_comment-le ret (advance p), advance-le p),
    λ k. absurd (cc (k, take_comment-end ret (advance p) (ap has_next (advance-end p e) ∙ e))),
  )
]

round-Shorter :
    (n : ℕ) (ret : Line) (stmt : Option Statement) (p : Parser)
    → Reads n (some (stmt, p))
    → let r = add_statement ret stmt p in Shorter n (take_comment r.0 r.1)
unfolding add_statement
round-Shorter n ret none p h =
    skip-Shorter n ret (error_current (codes "Expected a statement") p)
      (omega (arith, size-error_current (codes "Expected a statement") p))
round-Shorter n ret (some stmt) p h =
    take_comment-Shorter n (record ret { statements = append_statement ret.statements stmt }) p h

end_round-AllShrink :
    (n : ℕ) (r : Line × Parser) (loop : Line → Parser → Option (Line × Parser))
    → Shorter n r
    → ((ret : Line) (p : Parser) → size p < n → AllShrink (size p) (loop ret p))
    → AllShrink n (end_round r loop)
end_round-AllShrink n (ret, p) loop (h, k) g =
    if-AllShrink n (at_line_end p) _ (loop ret (check_space p)) (advance-Shrinks n p h) (λ e.
      let same = size-check_space p in
      let less = k e in
      AllShrink-le (size (check_space p)) n _ (omega arith) (g ret (check_space p) (omega arith)))

after-AllShrink :
    (n : ℕ) (o : Option (Option Statement × Parser))
    (k : Option Statement → Parser → Option (Line × Parser))
    → Reads n o
    → ((s : Option Statement) (p : Parser) → Reads n (some (s, p)) → AllShrink n (k s p))
    → AllShrink n (after o k)
after-AllShrink n none k h g = absurd h
after-AllShrink n (some (s, p)) k h g = g s p h

line_loop-AllShrink :
    (n fuel : ℕ) (statement : Parse Statement) (ret : Line) (p : Parser)
    → EndsReading n statement
    → size p < fuel
    → size p < n
    → AllShrink (size p) (line_loop fuel statement ret p)
unfolding line_loop
line_loop-AllShrink n zero statement ret p ih h k = absurd (omega arith)
line_loop-AllShrink n (suc fuel) statement ret p ih h k = elim (Bool-cases (has_next p)) [
  | inl e ↦ rw e (
      after-AllShrink (size p) (statement p) _ (ih p k) (λ s p₁ r.
        end_round-AllShrink (size p) _ (line_loop fuel statement)
          (round-Shorter (size p) ret s p₁ r)
          (λ ret₂ q l. line_loop-AllShrink n fuel statement ret₂ q ih (omega arith) (omega arith))))
  | inr e ↦ rw e (omega arith, λ t. absurd (cc (t, e)))
]

begin_line-AllShrink :
    (n fuel : ℕ) (statement : Parse Statement) (r : Line × Parser)
    → EndsReading fuel statement
    → size r.1 ≤ n
    → n < fuel
    → AllShrink n (begin_line fuel statement r)
begin_line-AllShrink n fuel statement (ret, p) ih h k =
    if-AllShrink n (at_line_end p) _ (line_loop fuel statement ret p) (advance-Shrinks n p h) (λ e.
      AllShrink-le (size p) n _ h
        (line_loop-AllShrink fuel fuel statement ret p ih (omega arith) (omega arith)))

parse_line-AllShrink :
    (fuel : ℕ) (p : Parser) → size p < fuel → AllShrink (size p) (parse_line fuel p)
unfolding parse_line
parse_line-AllShrink fuel p h =
    begin_line-AllShrink (size p) fuel (parse_statement fuel) _ (parse_statement-Reads fuel)
      (take_comment-le _ p) h

abbrev pub Returns : {A : Type 0} → Option A → Type 0
Returns none = ⊥
Returns (some a) = Unit

behind_line-Returns :
    (n : ℕ) (o : Option (Line × Parser)) (k : Line → Parser → Option (List Line × Parser))
    → AllShrink n o
    → ((l : Line) (p : Parser) → Shrinks n p → Returns (k l p))
    → Returns (behind_line o k)
behind_line-Returns n none k h g = h
behind_line-Returns n (some (l, p)) k h g = g l p h

if-Returns :
    {A : Type 0} (b : Bool) (x y : Option A)
    → (b ≡ true → Returns x)
    → Returns y
    → Returns (if b then x else y)
if-Returns true x y h k = h refl
if-Returns false x y h k = k

result-Returns :
    (o : Option (List Line × Parser))
    → Returns o
    → Returns (elim o [ none ↦ none | some (lines, p) ↦ some (result_of lines p.errors) ])
result-Returns none h = h
result-Returns (some (lines, p)) h = tt

program_loop-Returns :
    (line_fuel fuel : ℕ) (lines : List Line) (p : Parser)
    → size p < line_fuel
    → 0 < fuel
    → (has_next p ≡ true → size p + 1 < fuel)
    → Returns (program_loop line_fuel fuel lines p)
unfolding program_loop
program_loop-Returns line_fuel zero lines p h k l = absurd (omega arith)
program_loop-Returns line_fuel (suc fuel) lines p h k l =
    if-Returns (has_next p) _ (some (lines, p))
      (λ e.
        behind_line-Returns (size p) (parse_line line_fuel p)
          (λ line p₁. program_loop line_fuel fuel (lines ++ line ∷ []) p₁)
          (parse_line-AllShrink line_fuel p h)
          (λ line p₁ (le, lt).
            program_loop-Returns line_fuel fuel _ p₁ (omega arith) (omega (arith, l e))
              (λ e₁. omega (arith, l e, lt e₁))))
      tt

-- at most the tokens that the tokenizer returns are ahead
pub size-start_parser :
    (all_errors : Bool) (tokens : List Token)
    → size (start_parser all_errors tokens) ≤ length tokens
unfolding start_parser size
size-start_parser all_errors tokens = omega (
  arith,
  skip_whitespace-le tokens false,
  skip_whitespace-le ((skip_whitespace tokens false).2) false,
)

-- ParseProgram returns for every list of tokens.
pub parse_tokens-Returns :
    (all_errors : Bool) (tokens : List Token) → Returns (parse_tokens all_errors tokens)
unfolding parse_tokens
parse_tokens-Returns all_errors tokens =
    result-Returns
      (program_loop (length tokens + 3) (length tokens + 3) [] (start_parser all_errors tokens))
      (program_loop-Returns (length tokens + 3) (length tokens + 3) []
        (start_parser all_errors tokens) (omega (arith, size-start_parser all_errors tokens))
        (omega arith) (λ e. omega (arith, size-start_parser all_errors tokens)))

yolol_symbols-AllNonempty : AllNonempty yolol_symbols × AllNonempty yolol_keywords
yolol_symbols-AllNonempty = ground arith

-- Parse returns, with a program or with errors, on every text and in both modes of error reporting.
pub parse-Returns : (all_errors : Bool) (prog : Text) → Returns (parse all_errors prog)
unfolding parse load
parse-Returns all_errors prog =
    let t : Tokenizer = load [] prog in
    let (tokens, last, e, _, _) =
      tokens_from-ends (length prog + 1) t yolol_symbols-AllNonempty.0 yolol_symbols-AllNonempty.1
        (omega arith) in
    rw (Returns, e) (parse_tokens-Returns all_errors (tokens ++ last ∷ []))
