-- ===== src/Parsing/Tokenizer.antt =====
-- pkg/parser/ast/tokenizer.go: splitting source code into tokens. The regular expressions, which are
-- anchored at the start of the remaining code, are functions that give the text they match.
pub mod Next
pub mod Progress
pub mod Escapes
use yodk.Common.{
  ℕ, zero, suc, ◌+◌, Bool, true, false, not, ◌&&◌, ◌||◌, List, [], ◌∷◌, ◌++◌, Option, none, some,
  if◌then◌else◌, leb, ◌==◌, length, take, drop,
}
use yodk.Text.{Text, codes, has_prefix, to_lower}
use yodk.Ast.{Position}

-- TypeID and the other constants
pub data TokenType : Type 0 where
  id symbol str keyword number newline eof comment whitespace unknown : TokenType

-- Token
pub record Token : Type 0 where
  pub token_type : TokenType
  pub value : Text
  pub position : Position

-- Tokenizer; `keywords` is the alternation of its KeywordRegex, and its other expressions are fixed.
pub record Tokenizer : Type 0 where
  pub filename : Text
  pub column : ℕ
  pub line : ℕ
  pub remaining : Text
  pub symbols : List Text
  pub keywords : List Text

-- symbols
abbrev pub yolol_symbols : List Text
yolol_symbols =
    codes "++"
    ∷ codes "--"
    ∷ codes ">="
    ∷ codes "<="
    ∷ codes "!="
    ∷ codes "=="
    ∷ codes "=="
    ∷ codes "+="
    ∷ codes "-="
    ∷ codes "*="
    ∷ codes "/="
    ∷ codes "%="
    ∷ codes "="
    ∷ codes ">"
    ∷ codes "<"
    ∷ codes "+"
    ∷ codes "-"
    ∷ codes "*"
    ∷ codes "/"
    ∷ codes "^"
    ∷ codes "%"
    ∷ codes ","
    ∷ codes "("
    ∷ codes ")"
    ∷ []

-- the alternatives of keywordRegex
abbrev pub yolol_keywords : List Text
yolol_keywords =
    codes "if"
    ∷ codes "else"
    ∷ codes "end"
    ∷ codes "then"
    ∷ codes "goto"
    ∷ codes "and"
    ∷ codes "or"
    ∷ codes "not"
    ∷ codes "abs"
    ∷ codes "sqrt"
    ∷ codes "sin"
    ∷ codes "cos"
    ∷ codes "tan"
    ∷ codes "asin"
    ∷ codes "acos"
    ∷ codes "atan"
    ∷ []

unfoldable pub is_letter : ℕ → Bool
is_letter c = (leb b'a' c && leb c b'z') || (leb b'A' c && leb c b'Z')

unfoldable pub is_digit : ℕ → Bool
is_digit c = leb b'0' c && leb c b'9'

-- [a-zA-Z0-9_], which are also the characters between which there is no \b
unfoldable pub is_word : ℕ → Bool
unfolding is_letter is_digit
is_word c = is_letter c || (is_digit c || (c == b'_'))

-- [ \t\r]
unfoldable pub is_blank : ℕ → Bool
is_blank c = (c == b' ') || ((c == 9) || (c == 13))

-- the longest prefix of such bytes: `[...]*`
unfoldable pub span : (ℕ → Bool) → Text → Text
span p [] = []
span p (c ∷ s) = if p c then c ∷ span p s else []

abbrev pub nonempty : Text → Option Text
nonempty [] = none
nonempty (c ∷ s) = some (c ∷ s)

-- whitespaceRegex
unfoldable pub find_whitespace : Text → Option Text
unfolding span is_blank
find_whitespace s = nonempty (span is_blank s)

-- commentRegex
unfoldable pub find_comment : Text → Option Text
unfolding span
find_comment s =
    if has_prefix s (codes "//")
    then some (codes "//" ++ span (λ c. not (c == 10)) (drop 2 s))
    else none

-- [a-zA-Z]+[a-zA-Z0-9_]*
unfoldable pub find_name : Text → Option Text
unfolding span is_word
find_name [] = none
find_name (c ∷ s) = if is_letter c then some (c ∷ span is_word s) else none

-- the same behind a byte
abbrev pub behind : ℕ → Option Text → Option Text
behind c none = none
behind c (some found) = some (c ∷ found)

-- identifierRegex
unfoldable pub find_identifier : Text → Option Text
unfolding find_name
find_identifier [] = none
find_identifier (c ∷ s) = if c == b':' then behind c (find_name s) else find_name (c ∷ s)

-- (\.[0-9]+)?
unfoldable pub find_fraction : Text → Text
unfolding span is_digit
find_fraction [] = []
find_fraction (c ∷ s) =
    if c == b'.' then elim (span is_digit s) [ [] ↦ [] | d ∷ digits ↦ c ∷ d ∷ digits ] else []

-- numberRegex
unfoldable pub find_number : Text → Option Text
unfolding span is_digit find_fraction
find_number s = elim (span is_digit s) [
  | [] ↦ none
  | d ∷ digits ↦ some ((d ∷ digits) ++ find_fraction (drop (length (d ∷ digits)) s))
]

-- \b behind a word
unfoldable pub ends_word : Text → Bool
unfolding is_word
ends_word [] = true
ends_word (c ∷ s) = not (is_word c)

-- one alternative of a keyword expression, in any case
unfoldable pub matches_keyword : Text → Text → Bool
unfolding ends_word
matches_keyword s kw = has_prefix (to_lower s) kw && ends_word (drop (length kw) s)

-- KeywordRegex: the first alternative that matches; the value is the text that it matches
unfoldable pub find_keyword : Text → List Text → Option Text
unfolding matches_keyword
find_keyword s [] = none
find_keyword s (kw ∷ kws) =
    if matches_keyword s kw then some (take (length kw) s) else find_keyword s kws

-- the first symbol that the code begins with
unfoldable pub find_symbol : Text → List Text → Option Text
find_symbol s [] = none
find_symbol s (sym ∷ syms) = if has_prefix s sym then some sym else find_symbol s syms

-- NewTokenizer, with a file name and after Load
unfoldable pub load : Text → Text → Tokenizer
load filename input = record {
  filename = filename;
  column = 1;
  line = 1;
  remaining = input;
  symbols = yolol_symbols;
  keywords = yolol_keywords;
}

-- newToken
abbrev pub new_token : Tokenizer → TokenType → Text → Token
new_token t typ val = record {
  token_type = typ;
  value = val;
  position = record { file = t.filename; line = t.line; coloumn = t.column };
}

-- advance
abbrev pub advance : ℕ → Tokenizer → Tokenizer
advance amount t = record t { column = t.column + amount; remaining = drop amount t.remaining }

-- a token of the text that an expression found, with the deferred advance
abbrev pub token_of : TokenType → Tokenizer → Option Text → Option (Token × Tokenizer)
token_of typ t none = none
token_of typ t (some found) = some (new_token t typ found, advance (length found) t)
