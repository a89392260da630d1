-- ===== src/Parsing/Parser/Size.antt =====
-- pkg/parser/parser.go: how many tokens are ahead of the parser, and what Advance does to their number.
use yodk.Common.{
  ◌≡◌, ◌≢◌, refl, ℕ, ◌+◌, ◌≤◌, ◌<◌, Bool, true, false, not, List, [], ◌∷◌, length, arith,
  Bool-cases, inl, inr,
}
use yodk.Text.{Text}
use yodk.Ast.{Position}
use yodk.Parsing.Tokenizer.{Token, TokenType, id, eof, whitespace}
use yodk.Parsing.Parser.{
  Parser, same_type, is_current_type, is_current, has_next, skip_whitespace, advance, error,
  error_current, expect, message,
}

-- an end of file is no token ahead
abbrev pub weight : TokenType → ℕ
weight eof = 0
weight _ = 1

weight-le : (typ : TokenType) → weight typ ≤ 1
weight-le eof = omega arith
weight-le id = omega arith
weight-le _ = omega arith

unfoldable pub size : Parser → ℕ
size p = length p.upcoming + (weight p.next_token.token_type + weight p.current_token.token_type)

-- what skip_whitespace leaves is no more than what it was given
pub skip_whitespace-le :
    (tokens : List Token) (b : Bool)
    → let r = skip_whitespace tokens b in length r.2 + weight (r.0).token_type ≤ length tokens
unfolding skip_whitespace
skip_whitespace-le [] b = omega arith
skip_whitespace-le (token ∷ rest) b = elim (Bool-cases (same_type token.token_type whitespace)) [
  | inl e ↦ rw e (omega (arith, skip_whitespace-le rest true))
  | inr e ↦ rw e (omega (arith, weight-le token.token_type))
]

pub size-error : (msg : Text) (s e : Position) (p : Parser) → size (error msg s e p) ≡ size p
unfolding error size
size-error msg s e p = ground arith

pub size-error_current : (msg : Text) (p : Parser) → size (error_current msg p) ≡ size p
unfolding error_current
size-error_current msg p = size-error msg p.current_token.position p.current_token.position p

weight-current : (p : Parser) → has_next p ≡ true → weight p.current_token.token_type ≡ 1
unfolding has_next is_current_type same_type
weight-current p h = weight_of p.current_token.token_type h
  where
    weight_of : (typ : TokenType) → not (same_type typ eof) ≡ true → weight typ ≡ 1
    weight_of eof k = cc
    weight_of id k = refl
    weight_of _ k = refl

-- Advance takes one token at least, before the end of file
pub advance-lt : (p : Parser) → has_next p ≡ true → size (advance p) < size p
unfolding advance size
advance-lt p h = rw h (omega (arith, skip_whitespace-le p.upcoming false, weight-current p h))

pub advance-le : (p : Parser) → size (advance p) ≤ size p
advance-le p = elim (Bool-cases (has_next p)) [
  | inl h ↦ omega (arith, advance-lt p h)
  | inr h ↦ unfold advance in (rw h (omega arith))
]

-- a token of a type that the parser asks for is no end of file
pub has_next_of :
    (typ : TokenType) (p : Parser) → is_current_type typ p ≡ true → typ ≢ eof → has_next p ≡ true
unfolding has_next is_current_type same_type
has_next_of typ p h k = of p.current_token.token_type typ h k
  where
    of : (a b : TokenType) → same_type a b ≡ true → b ≢ eof → not (same_type a eof) ≡ true
    of eof eof h k = absurd (k refl)
    of eof id h k = cc
    of eof _ h k = cc
    of id b h k = refl
    of _ b h k = refl

pub size-expect : (typ : TokenType) (val : Text) (p : Parser) → size (expect typ val p) ≤ size p
unfolding expect
size-expect typ val p = elim (Bool-cases (is_current typ val p)) [
  | inl e ↦ rw e (advance-le p)
  | inr e ↦ rw e (
      omega (
        arith,
        advance-le (error_current (message typ val) p),
        size-error_current (message typ val) p,
      ))
]
