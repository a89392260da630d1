-- ===== src/Parsing/Printer/Breaks.antt =====
-- pkg/parser/printer.go: the line feeds of a text and of the escapes that the printer writes.
use yodk.Common.{
  ◌≡◌, refl, ap, ap₂, sym, ◌∙◌, ℕ, suc, ◌+◌, false, [], ◌∷◌, ◌++◌, if◌then◌else◌, ◌==◌, length,
  Bool-cases, inl, inr, arith,
}
use yodk.Text.{Text, codes, remove_byte}
use yodk.Parsing.Tokenizer.Escapes.{insert_escapes, replace_byte}
use yodk.Parsing.Printer.Squeezed.{squeeze}
use yodk.Validators.{split_lines}
use yodk.Validators.Lengths.{split_lines-cons}

-- how many line feeds a text has
unfoldable pub breaks : Text → ℕ
breaks [] = 0
breaks (c ∷ s) = let n = breaks s in if c == 10 then suc n else n

pub breaks-append : (s t : Text) → breaks (s ++ t) ≡ breaks s + breaks t
unfolding breaks
breaks-append [] t = omega arith
breaks-append (c ∷ s) t = ground (arith, breaks-append s t)

pub breaks-squeeze : (s : Text) → breaks (squeeze s) ≡ breaks s
unfolding breaks remove_byte
breaks-squeeze [] = refl
breaks-squeeze (c ∷ s) = elim (Bool-cases (c == b' ')) [
  | inl e ↦ let no : (c == 10) ≡ false = ground (arith, e) in rw (e, no) (breaks-squeeze s)
  | inr e ↦ rw e (ap (λ (n : ℕ). if c == 10 then suc n else n) (breaks-squeeze s))
]

pub breaks-replace_byte :
    (b : ℕ) (to s : Text)
    → (b == 10) ≡ false
    → breaks to ≡ 0
    → breaks (replace_byte b to s) ≡ breaks s
unfolding breaks replace_byte
breaks-replace_byte b to [] h k = refl
breaks-replace_byte b to (c ∷ s) h k = elim (Bool-cases (c == b)) [
  | inl e ↦
      let no : (c == 10) ≡ false = ground (arith, e, h) in
      rw (e, no)
        (omega (arith, breaks-append to (replace_byte b to s), k, breaks-replace_byte b to s h k))
  | inr e ↦ rw e (ap (λ (n : ℕ). if c == 10 then suc n else n) (breaks-replace_byte b to s h k))
]

pub breaks-replaced : (to s : Text) → breaks to ≡ 0 → breaks (replace_byte 10 to s) ≡ 0
unfolding breaks replace_byte
breaks-replaced to [] k = refl
breaks-replaced to (c ∷ s) k = elim (Bool-cases (c == 10)) [
  | inl e ↦ rw e (
      breaks-append to (replace_byte 10 to s) ∙ ap₂ (λ (m n : ℕ). m + n) k (breaks-replaced to s k))
  | inr e ↦ rw e (rw e (breaks-replaced to s k))
]

-- a string constant is written on one line, whatever its value
pub breaks-insert_escapes : (s : Text) → breaks (insert_escapes s) ≡ 0
unfolding insert_escapes breaks
breaks-insert_escapes s =
    breaks-replace_byte b'"' (codes "\\\"")
      (replace_byte 9 (codes "\\t") (replace_byte 10 (codes "\\n") s)) refl refl
    ∙ breaks-replace_byte 9 (codes "\\t") (replace_byte 10 (codes "\\n") s) refl refl
    ∙ breaks-replaced (codes "\\n") s refl

pub length-split_lines : (s : Text) → length (split_lines s) ≡ breaks s + 1
unfolding split_lines breaks
length-split_lines [] = omega arith
length-split_lines (c ∷ s) =
    let (line, rest, e) = split_lines-cons s in
    let ih : suc (length rest) ≡ breaks s + 1 = ap length (sym e) ∙ length-split_lines s in
    elim (Bool-cases (c == 10)) [
      | inl b ↦ rw b (omega (arith, length-split_lines s))
      | inr b ↦ rw (b, e) ih
    ]
