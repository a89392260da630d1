-- ===== src/Parsing/Tokenizer/Escapes.antt =====
-- pkg/parser/printer.go: insertEscapesIntoString, and the string constants of the tokenizer.
use yodk.Common.{
  ◌≡◌, ◌≢◌, refl, ap, ap₂, sym, ◌∙◌, ℕ, suc, ◌+◌, true, false, ◌==◌, ltb, [], ◌∷◌, ◌++◌, some,
  if◌then◌else◌, length, length-append, drop, arith, Bool-cases, inl, inr, append_assoc, append-nil,
}
use mathlib.Core.Path.{subst}
use yodk.Text.{Text, codes}
use yodk.Parsing.Tokenizer.{TokenType, Tokenizer, new_token, advance}
use yodk.Parsing.Tokenizer.Next.{scan_string, string_step, goes_on, get_string_constant, quoted}

-- strings.Replace(in, b, to, -1), for a text of one byte
unfoldable pub replace_byte : ℕ → Text → Text → Text
replace_byte b to [] = []
replace_byte b to (c ∷ s) = if c == b then to ++ replace_byte b to s else c ∷ replace_byte b to s

-- insertEscapesIntoString
unfoldable pub insert_escapes : Text → Text
unfolding replace_byte
insert_escapes s =
    replace_byte b'"' (codes "\\\"")
      (replace_byte 9 (codes "\\t") (replace_byte 10 (codes "\\n") s))

-- what the three replacements make of one byte
abbrev escape_byte : ℕ → Text
escape_byte c =
    if c == 10
    then codes "\\n"
    else if c == 9
    then codes "\\t"
    else if c == b'"'
    then codes "\\\""
    else c ∷ []

abbrev pub escaped : Text → Text
escaped [] = []
escaped (c ∷ s) = escape_byte c ++ escaped s

replace_byte-append :
    (b : ℕ) (to s t : Text)
    → replace_byte b to (s ++ t) ≡ replace_byte b to s ++ replace_byte b to t
unfolding replace_byte
replace_byte-append b to [] t = refl
replace_byte-append b to (c ∷ s) t = elim (Bool-cases (c == b)) [
  | inl e ↦
      rw e (ap (λ (r : Text). to ++ r) (replace_byte-append b to s t) ∙ sym (append_assoc to _ _))
  | inr e ↦ rw e (ap (λ (r : Text). c ∷ r) (replace_byte-append b to s t))
]

insert_escapes-append :
    (s t : Text) → insert_escapes (s ++ t) ≡ insert_escapes s ++ insert_escapes t
unfolding insert_escapes
insert_escapes-append s t = rw (replace_byte-append, replace_byte-append, replace_byte-append) refl

insert_escapes_byte : (c : ℕ) → insert_escapes (c ∷ []) ≡ escape_byte c
unfolding insert_escapes
insert_escapes_byte c = ground arith

pub insert_escapes-escaped : (s : Text) → insert_escapes s ≡ escaped s
unfolding insert_escapes
insert_escapes-escaped [] = refl
insert_escapes-escaped (c ∷ s) =
    insert_escapes-append (c ∷ []) s
    ∙ rw (insert_escapes_byte c) (ap (λ (r : Text). escape_byte c ++ r) (insert_escapes-escaped s))

-- Neither a backslash nor anything that needs an escape stands in the text.
abbrev pub NoBackslash : Text → Type 0
NoBackslash [] = Unit
NoBackslash (c ∷ s) = (c ≢ b'\\') × NoBackslash s

-- the loop takes a byte and its escape for the byte itself
abbrev TakesByte : Text → ℕ → Type 0
TakesByte escape c =
    (t string : Text) (i : ℕ)
    → scan_string (escape ++ t) false string i
      ≡ scan_string t false (string ++ c ∷ []) (i + length escape)

two_steps :
    (t string more : Text) (i : ℕ)
    → scan_string t false ((string ++ []) ++ more) (suc (suc i))
      ≡ scan_string t false (string ++ more) (i + 2)
two_steps t string more i =
    ap₂ (λ (r : Text) (k : ℕ). scan_string t false (r ++ more) k) (append-nil string) (omega arith)

TakesByte-newline : TakesByte (codes "\\n") 10
unfolding scan_string
TakesByte-newline t string i = two_steps t string (10 ∷ []) i

TakesByte-tab : TakesByte (codes "\\t") 9
unfolding scan_string
TakesByte-tab t string i = two_steps t string (9 ∷ []) i

TakesByte-quote : TakesByte (codes "\\\"") b'"'
unfolding scan_string
TakesByte-quote t string i = two_steps t string (b'"' ∷ []) i

TakesByte-other : (c : ℕ) → c ≢ b'\\' → (c == b'"') ≡ false → TakesByte (c ∷ []) c
unfolding scan_string
TakesByte-other c h k t string i =
    let step : string_step c false ≡ goes_on false (c ∷ []) =
      unfold string_step in (ground (arith, h, k)) in
    rw (step, scan_string) (ap (scan_string t false (string ++ c ∷ [])) (omega arith))

same_byte : (c d : ℕ) → (c == d) ≡ true → d ≡ c
same_byte c d h = ground (arith, h)

scan_escape_byte : (c : ℕ) → c ≢ b'\\' → TakesByte (escape_byte c) c
scan_escape_byte c h = elim (Bool-cases (c == 10)) [
  | inl e ↦ subst (λ (d : ℕ). TakesByte (escape_byte d) d) (same_byte c 10 e) TakesByte-newline
  | inr n ↦ elim (Bool-cases (c == 9)) [
    | inl e ↦ subst (λ (d : ℕ). TakesByte (escape_byte d) d) (same_byte c 9 e) TakesByte-tab
    | inr m ↦ elim (Bool-cases (c == b'"')) [
      | inl e ↦ subst (λ (d : ℕ). TakesByte (escape_byte d) d) (same_byte c b'"' e) TakesByte-quote
      | inr k ↦ rw (n, m, k) (TakesByte-other c h k)
    ]
  ]
]

scan_escaped :
    (s rest string : Text) (i : ℕ)
    → NoBackslash s
    → scan_string (escaped s ++ b'"' ∷ rest) false string i
      ≡ some (i + length (escaped s), string ++ s)
unfolding scan_string
scan_escaped [] rest string i h =
    ap₂ (λ (k : ℕ) (r : Text). some (k, r)) (omega arith) (sym (append-nil string))
scan_escaped (c ∷ s) rest string i (h, hs) =
    ap (λ (r : Text). scan_string r false string i)
      (append_assoc (escape_byte c) (escaped s) (b'"' ∷ rest))
    ∙ scan_escape_byte c h (escaped s ++ b'"' ∷ rest) string i
    ∙ scan_escaped s rest (string ++ c ∷ []) (i + length (escape_byte c)) hs
    ∙ ap₂ (λ (k : ℕ) (r : Text). some (k, r))
        (omega (arith, length-append (escape_byte c) (escaped s))) (append_assoc string (c ∷ []) s)

drop_past : (s rest : Text) (c : ℕ) → drop (suc (length s)) (s ++ c ∷ rest) ≡ rest
drop_past [] rest c = refl
drop_past (d ∷ s) rest c = drop_past s rest c

scan_insert_escapes :
    (s rest : Text)
    → NoBackslash s
    → scan_string (insert_escapes s ++ b'"' ∷ rest) false [] 0 ≡ some (length (insert_escapes s), s)
scan_insert_escapes s rest h =
    rw (insert_escapes-escaped s)
      (scan_escaped s rest [] 0 h ∙ ap (λ (k : ℕ). some (k, s)) (omega arith))

quoted_lem :
    (x s rest : Text) (t : Tokenizer)
    → scan_string (x ++ b'"' ∷ rest) false [] 0 ≡ some (length x, s)
    → quoted t (b'"' ∷ x ++ b'"' ∷ rest)
      ≡ some (new_token t TokenType.str s, advance (length x + 2) t)
unfolding quoted
quoted_lem x s rest t h =
    let long : ltb (suc (length (x ++ b'"' ∷ rest))) 2 ≡ false =
      ground (arith, length-append x (b'"' ∷ rest)) in
    rw (long, h) refl

-- A string without a backslash, as the printer writes it, is one string token with that value; it is
-- taken as far as its last quote.
pub get_string_constant-insert_escapes :
    (s rest : Text) (t : Tokenizer)
    → NoBackslash s
    → t.remaining ≡ b'"' ∷ insert_escapes s ++ b'"' ∷ rest
    → (t' : Tokenizer) × (get_string_constant t ≡ some (new_token t TokenType.str s, t'))
      × (t'.remaining ≡ rest)
unfolding get_string_constant
get_string_constant-insert_escapes s rest t h e =
    let x = insert_escapes s in
    let two : length x + 2 ≡ suc (suc (length x)) = omega arith in
    (
      advance (length x + 2) t,
      ap (quoted t) e ∙ quoted_lem x s rest t (scan_insert_escapes s rest h),
      ap₂ drop two e ∙ drop_past x rest b'"',
    )
