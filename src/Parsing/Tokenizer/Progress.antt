-- ===== src/Parsing/Tokenizer/Progress.antt =====
-- pkg/parser/ast/tokenizer.go: what Next consumes, and the end of the code.
use yodk.Common.{
  ◌≡◌, ◌≢◌, refl, ap, sym, ◌∙◌, ◌⊎◌, inl, inr, ℕ, zero, suc, ◌+◌, ◌<◌, Bool, true, false, not, ◌&&◌,
  ◌==◌, ltb, List, [], ◌∷◌, ◌++◌, Option, none, some, if◌then◌else◌, length, take, drop, arith,
  length-drop,
}
use mathlib.Core.Option
use mathlib.Core.Path.{subst}
use yodk.Text.{Text, has_prefix}
use yodk.Parsing.Tokenizer.{
  Token, TokenType, id, symbol, keyword, number, newline, eof, comment, whitespace, Tokenizer,
  find_whitespace, find_comment, find_identifier, find_number, find_keyword, find_symbol, find_name,
  new_token, token_of,
}
use yodk.Parsing.Tokenizer.Next.{
  next, next_of, or_else, tokens_from, collect, scan_string, quoted, newline_at, scanned,
  lower_value, next_line,
}

-- A token was made of a part of the code: it is no end of file, it stands where the tokenizer stood,
-- and the code behind that part is what remains.
abbrev pub Consumes : Tokenizer → Token × Tokenizer → Type 0
Consumes t (token, t') =
    (token.token_type ≢ eof)
    × (token.position ≡ Token.position (new_token t eof []))
    × (t'.symbols ≡ t.symbols)
    × (t'.keywords ≡ t.keywords)
    × (n : ℕ) × (0 < n)
    × (t'.remaining ≡ drop n t.remaining)

find_whitespace-pos : (s found : Text) → find_whitespace s ≡ some found → 0 < length found
unfolding find_whitespace
find_whitespace-pos s found h = ground arith

find_comment-pos : (s found : Text) → find_comment s ≡ some found → 0 < length found
unfolding find_comment
find_comment-pos s found h = ground arith

find_name-pos : (s found : Text) → find_name s ≡ some found → 0 < length found
unfolding find_name
find_name-pos [] found h = cc
find_name-pos (c ∷ s) found h = ground arith

find_identifier-pos : (s found : Text) → find_identifier s ≡ some found → 0 < length found
unfolding find_identifier
find_identifier-pos [] found h = cc
find_identifier-pos (c ∷ s) found h = ground (arith, find_name-pos (c ∷ s) found)

find_number-pos : (s found : Text) → find_number s ≡ some found → 0 < length found
unfolding find_number
find_number-pos s found h = ground arith

-- No text of the list is empty.
abbrev pub AllNonempty : List Text → Type 0
AllNonempty [] = Unit
AllNonempty (s ∷ rest) = (0 < length s) × AllNonempty rest

find_symbol-pos :
    (s : Text) (syms : List Text) (found : Text)
    → AllNonempty syms
    → find_symbol s syms ≡ some found
    → 0 < length found
unfolding find_symbol
find_symbol-pos s [] found a h = cc
find_symbol-pos s (sym ∷ syms) found (a, as') h = ground (arith, find_symbol-pos s syms found as')

length-take_pos : (n : ℕ) (s : Text) → 0 < n → 0 < length s → 0 < length (take n s)
length-take_pos zero s h k = h
length-take_pos (suc n) [] h k = k
length-take_pos (suc n) (c ∷ s) h k = omega arith

find_keyword-pos :
    (c : ℕ) (s : Text) (kws : List Text) (found : Text)
    → AllNonempty kws
    → find_keyword (c ∷ s) kws ≡ some found
    → 0 < length found
unfolding find_keyword
find_keyword-pos c s [] found a h = cc
find_keyword-pos c s (kw ∷ kws) found (a, as') h =
    ground (arith, length-take_pos (length kw) (c ∷ s), find_keyword-pos c s kws found as')

abbrev IfFound : (Token × Tokenizer → Type 0) → Option (Token × Tokenizer) → Type 0
IfFound P none = Unit
IfFound P (some r) = P r

or_else-IfFound :
    (P : Token × Tokenizer → Type 0) (o : Option (Token × Tokenizer)) (r : Token × Tokenizer)
    → IfFound P o
    → P r
    → P (or_else o r)
or_else-IfFound P none r h k = k
or_else-IfFound P (some x) r h k = h

token_of-IfFound :
    (typ : TokenType) (t : Tokenizer) (o : Option Text)
    → typ ≢ eof
    → ((found : Text) → o ≡ some found → 0 < length found)
    → IfFound (Consumes t) (token_of typ t o)
token_of-IfFound typ t none h k = tt
token_of-IfFound typ t (some found) h k = (h, refl, refl, refl, length found, k found refl, refl)

lower-IfFound :
    (t : Tokenizer) (o : Option (Token × Tokenizer))
    → IfFound (Consumes t) o
    → IfFound (Consumes t) (Option.map lower_value o)
lower-IfFound t none h = tt
lower-IfFound t (some (token, t')) h = h

if-IfFound :
    (P : Token × Tokenizer → Type 0) (b : Bool) (o : Option (Token × Tokenizer))
    → IfFound P o
    → IfFound P (if b then o else none)
if-IfFound P true o h = h
if-IfFound P false o h = tt

newline_at-IfFound : (t : Tokenizer) (s : Text) → IfFound (Consumes t) (newline_at t s)
newline_at-IfFound t [] = tt
newline_at-IfFound t (c ∷ s) =
    if-IfFound (Consumes t) (c == 10) (some (new_token t newline [], next_line t))
      ((λ e. cc), refl, refl, refl, 1, omega arith, refl)

scanned-IfFound : (t : Tokenizer) (o : Option (ℕ × Text)) → IfFound (Consumes t) (scanned t o)
scanned-IfFound t none = tt
scanned-IfFound t (some (i, string)) = ((λ e. cc), refl, refl, refl, i + 2, omega arith, refl)

quoted-IfFound : (t : Tokenizer) (s : Text) → IfFound (Consumes t) (quoted t s)
unfolding quoted
quoted-IfFound t [] = tt
quoted-IfFound t (c ∷ s) =
    if-IfFound (Consumes t) (not (ltb (length (c ∷ s)) 2) && (c == b'"'))
      (scanned t (scan_string s false [] 0)) (scanned-IfFound t _)

-- A tokenizer whose symbols and keywords are no empty texts.
abbrev pub HasNames : Tokenizer → Type 0
HasNames t = AllNonempty t.symbols × AllNonempty t.keywords

next_of-Consumes :
    (t : Tokenizer) (c : ℕ) (s : Text)
    → HasNames t
    → t.remaining ≡ c ∷ s
    → Consumes t (next_of t (c ∷ s))
unfolding next_of
next_of-Consumes t c s (hs, hk) e =
    or_else-IfFound P _ _ (token_of-IfFound whitespace t _ (cc) (find_whitespace-pos t.remaining)) (
      or_else-IfFound P _ _ (lower-IfFound t _ (token_of-IfFound keyword t _ (cc) keyword_pos)) (
        or_else-IfFound P _ _ (newline_at-IfFound t t.remaining) (
          or_else-IfFound P _ _
            (token_of-IfFound symbol t _ (cc)
              (λ found. find_symbol-pos t.remaining t.symbols found hs))
            (or_else-IfFound P _ _ (token_of-IfFound id t _ (cc) (find_identifier-pos t.remaining))
              (or_else-IfFound P _ _ (quoted-IfFound t t.remaining) (
                or_else-IfFound P _ _
                  (token_of-IfFound number t _ (cc) (find_number-pos t.remaining))
                  ((λ x. cc), refl, refl, refl, 1, omega arith, refl)))))))
  where
    P : Token × Tokenizer → Type 0
    P = Consumes t

    keyword_pos :
        (found : Text) → find_keyword t.remaining t.keywords ≡ some found → 0 < length found
    keyword_pos found h = find_keyword-pos c s t.keywords found hk (rw e at h)

next_of_cases :
    (t : Tokenizer) (s : Text)
    → HasNames t
    → t.remaining ≡ s
    → ((s ≡ []) × (next_of t s ≡ (new_token t eof [], t)))
      ⊎ ((0 < length s) × Consumes t (next_of t s))
unfolding next_of
next_of_cases t [] n e = inl (refl, refl)
next_of_cases t (c ∷ s) n e = inr (omega arith, next_of-Consumes t c s n e)

comment-pos : (s found : Text) → find_comment s ≡ some found → 0 < length s
unfolding find_comment has_prefix
comment-pos [] found h = absurd (ground (arith, h))
comment-pos (c ∷ s) found h = omega arith

comment_cases :
    (t : Tokenizer) (o : Option Text)
    → find_comment t.remaining ≡ o
    → HasNames t
    → ((t.remaining ≡ [])
        × (or_else (token_of comment t o) (next_of t t.remaining) ≡ (new_token t eof [], t)))
      ⊎ ((0 < length t.remaining)
          × Consumes t (or_else (token_of comment t o) (next_of t t.remaining)))
unfolding find_comment
comment_cases t none e n = next_of_cases t t.remaining n refl
comment_cases t (some found) e n = inr (
  comment-pos t.remaining found e,
  ((λ x. cc), refl, refl, refl, length found, find_comment-pos t.remaining found e, refl),
)

-- At the end of the code Next returns an end of file, and stays there. Before it, Next returns a token
-- of another type at the current position, and goes on behind one byte or more; it keeps its
-- symbols and keywords. None of these may be empty.
pub next-Consumes :
    (t : Tokenizer)
    → AllNonempty t.symbols
    → AllNonempty t.keywords
    → ((t.remaining ≡ []) × (next t ≡ (new_token t eof [], t)))
      ⊎ ((0 < length t.remaining) × Consumes t (next t))
unfolding next
next-Consumes t hs hk = comment_cases t (find_comment t.remaining) refl (hs, hk)

-- No token of the list is an end of file.
abbrev pub NoEof : List Token → Type 0
NoEof [] = Unit
NoEof (token ∷ rest) = (token.token_type ≢ eof) × NoEof rest

length-drop_lt : (n : ℕ) (s : Text) → 0 < n → 0 < length s → length (drop n s) < length s
length-drop_lt n s h k = omega (arith, length-drop n s)

collect_more :
    (typ : TokenType) (token : Token) (rest : List Token)
    → typ ≢ eof
    → collect typ token (some rest) ≡ some (token ∷ rest)
collect_more eof token rest h = absurd (h refl)
collect_more id token rest h = refl
collect_more _ token rest h = refl

-- Next is called on, until the end of the code: with as much fuel as the code has bytes and one more,
-- the tokens are a list that has one end of file, at its end.
pub tokens_from-ends :
    (fuel : ℕ) (t : Tokenizer)
    → AllNonempty t.symbols
    → AllNonempty t.keywords
    → length t.remaining < fuel
    → (tokens : List Token) × (last : Token) × (tokens_from fuel t ≡ some (tokens ++ last ∷ []))
      × NoEof tokens
      × (last.token_type ≡ eof)
unfolding tokens_from
tokens_from-ends zero t hs hk h = absurd (omega arith)
tokens_from-ends (suc fuel) t hs hk h = elim (next-Consumes t hs hk) [
  | inl (e, f) ↦ ([], new_token t eof [], rw f refl, tt, refl)
  | inr (l, (ne, _, ss, ks, n, n_pos, rest)) ↦
      let (tokens, last, e, ok, q) =
        tokens_from-ends fuel (next t).1 (subst AllNonempty (sym ss) hs)
          (subst AllNonempty (sym ks) hk)
          (omega (arith, ap length rest, length-drop_lt n t.remaining n_pos l)) in
      (
        (next t).0 ∷ tokens,
        last,
        ap (collect (next t).0.token_type (next t).0) e
            ∙ collect_more (next t).0.token_type (next t).0 (tokens ++ last ∷ []) ne,
        (ne, ok),
        q,
      )
]
