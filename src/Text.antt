-- ===== src/Text.antt =====
-- Go strings as lists of bytes, and the functions of Go's `strings` package that the code uses.
-- Texts are taken to be ASCII: there bytes and runes are the same, and lower case is `A`..`Z`.
pub mod Laws
pub mod Map
use Prim.Native.Char.{code}
use Prim.Native.String.{String}
use yodk.Common.{
  ℕ, ◌+◌, Bool, true, false, ◌&&◌, List, [], ◌∷◌, ◌++◌, map, Option, none, some, if◌then◌else◌, leb,
  ◌==◌, suc, drop, take, length, not,
}

abbrev pub Text : Type 0
Text = List ℕ

-- The bytes of a literal.
abbrev pub codes : String → Text
codes String.[] = []
codes (String.◌∷◌ c s) = code c ∷ codes s

unfoldable pub text_eq : Text → Text → Bool
text_eq [] [] = true
text_eq [] (b ∷ t) = false
text_eq (a ∷ s) [] = false
text_eq (a ∷ s) (b ∷ t) = (a == b) && text_eq s t

-- A comparison with a literal, `s == "..."`.
abbrev pub is : Text → String → Bool
is s l = text_eq s (codes l)

unfoldable pub lower_byte : ℕ → ℕ
lower_byte c = if leb b'A' c && leb c b'Z' then c + 32 else c

-- strings.ToLower
unfoldable pub to_lower : Text → Text
unfolding lower_byte
to_lower s = map lower_byte s

-- strings.HasPrefix(s, p)
unfoldable pub has_prefix : Text → Text → Bool
has_prefix s [] = true
has_prefix [] (b ∷ p) = false
has_prefix (a ∷ s) (b ∷ p) = (a == b) && has_prefix s p

-- strings.HasSuffix(s, p)
unfoldable pub has_suffix : Text → Text → Bool
unfolding text_eq
has_suffix [] p = text_eq [] p
has_suffix (a ∷ s) p = if text_eq (a ∷ s) p then true else has_suffix s p

-- strings.LastIndex(s, p): `none` stands for -1.
unfoldable pub last_index : Text → Text → Option ℕ
unfolding has_prefix
last_index [] p = if has_prefix [] p then some 0 else none
last_index (a ∷ s) p = elim (last_index s p) [
  | some i ↦ some (suc i)
  | none ↦ if has_prefix (a ∷ s) p then some 0 else none
]

-- strings.Replace(s, "=", "", -1)
unfoldable pub remove_byte : ℕ → Text → Text
remove_byte b [] = []
remove_byte b (a ∷ s) = if a == b then remove_byte b s else a ∷ remove_byte b s

-- s[:i] and s[i:]
abbrev pub slice_to : Text → ℕ → Text
slice_to s i = take i s

abbrev pub slice_from : Text → ℕ → Text
slice_from s i = drop i s
