-- ===== src/Parsing/Printer/Squeezed.antt =====
-- pkg/parser/printer.go: the code that the printer writes, without its spaces.
use yodk.Common.{
  ◌≡◌, refl, ap, sym, ◌∙◌, ℕ, Bool, true, false, ◌||◌, [], ◌∷◌, ◌++◌, append_assoc, append-nil,
  if◌then◌else◌, ltb, ◌==◌, Bool-cases, inl, inr,
}
use yodk.Text.{Text, codes, is, remove_byte}
use yodk.Ast.{PrePost, absent, pre, post}
use yodk.Parsing.Printer.{
  Printer, is_readable, write, space, optional_space, statement_separator, write_if, separate,
  write_operator, print_deref_as,
}

-- a text without its spaces
abbrev pub squeeze : Text → Text
squeeze s = remove_byte b' ' s

pub squeeze-append : (s t : Text) → squeeze (s ++ t) ≡ squeeze s ++ squeeze t
unfolding remove_byte
squeeze-append [] t = refl
squeeze-append (c ∷ s) t = elim (Bool-cases (c == b' ')) [
  | inl e ↦ rw e (squeeze-append s t)
  | inr e ↦ rw e (ap (λ (r : Text). c ∷ r) (squeeze-append s t))
]

-- The function writes this text behind what is there, apart from spaces.
abbrev pub Adds : Text → (Printer → Printer) → Type 0
Adds s f = (p : Printer) → squeeze (f p).text ≡ squeeze p.text ++ s

pub Adds-then :
    (s t : Text) (f g : Printer → Printer) → Adds s f → Adds t g → Adds (s ++ t) (λ p. g (f p))
Adds-then s t f g h k p =
    k (f p) ∙ ap (λ (r : Text). r ++ t) (h p) ∙ append_assoc (squeeze p.text) s t

pub Adds-write : (s : Text) → Adds (squeeze s) (write s)
unfolding write
Adds-write s p = squeeze-append p.text s

pub Adds-space : Adds [] space
unfolding space remove_byte
Adds-space p = elim (Bool-cases p.last_was_space) [
  | inl e ↦ simp e (sym (append-nil (squeeze p.text)))
  | inr e ↦ simp e (squeeze-append p.text (codes " "))
]

pub Adds-if :
    (b : Printer → Bool) (s : Text) (f g : Printer → Printer)
    → Adds s f
    → Adds s g
    → Adds s (λ p. if b p then f p else g p)
Adds-if b s f g h k p = choose (b p)
  where
    choose : (c : Bool) → squeeze (Printer.text (if c then f p else g p)) ≡ squeeze p.text ++ s
    choose true = h p
    choose false = k p

pub Adds-nothing : Adds [] (λ p. p)
Adds-nothing p = sym (append-nil (squeeze p.text))

-- spaces behind what is written, and before it
pub Adds-behind :
    (s : Text) (f g : Printer → Printer) → Adds s f → Adds [] g → Adds s (λ p. g (f p))
Adds-behind s f g h k p = k (f p) ∙ append-nil (squeeze (f p).text) ∙ h p

pub Adds-before :
    (s : Text) (f g : Printer → Printer) → Adds [] f → Adds s g → Adds s (λ p. g (f p))
Adds-before s f g h k p = k (f p) ∙ ap (λ (r : Text). r ++ s) (h p ∙ append-nil (squeeze p.text))

pub Adds-cast : (s t : Text) (f : Printer → Printer) → s ≡ t → Adds s f → Adds t f
Adds-cast s t f e h p = h p ∙ ap (λ (r : Text). squeeze p.text ++ r) e

pub Adds-optional_space : Adds [] optional_space
unfolding optional_space
Adds-optional_space = Adds-if (λ p. is_readable p.mode) [] space (λ p. p) Adds-space Adds-nothing

pub Adds-statement_separator : Adds [] statement_separator
unfolding statement_separator remove_byte
Adds-statement_separator =
    Adds-if (λ p. is_readable p.mode) [] (λ p. space (write (codes " ") p)) space
      (Adds-behind [] (write (codes " ")) space (Adds-write (codes " ")) Adds-space) Adds-space

pub Adds-separate : (i : ℕ) → Adds [] (separate i)
unfolding separate
Adds-separate i =
    Adds-if (λ p. ltb 0 i) [] statement_separator (λ p. p) Adds-statement_separator Adds-nothing

abbrev pub opening : Bool → Text
opening b = if b then codes "(" else []

abbrev pub closing : Bool → Text
closing b = if b then codes ")" else []

-- a text in parentheses, if they are needed
abbrev pub parenthesised : Bool → Text → Text
parenthesised b t = opening b ++ (t ++ closing b)

pub Adds-opening : (b : Bool) → Adds (opening b) (write_if b (codes "("))
unfolding remove_byte
Adds-opening true = Adds-write (codes "(")
Adds-opening false = Adds-nothing

pub Adds-closing : (b : Bool) → Adds (closing b) (write_if b (codes ")"))
unfolding remove_byte
Adds-closing true = Adds-write (codes ")")
Adds-closing false = Adds-nothing

-- a variable and the operator before or behind it
abbrev pub squeezed_deref : PrePost → Text → Text → Text
squeezed_deref absent variable operator = squeeze variable
squeezed_deref pre variable operator = squeeze operator ++ squeeze variable
squeezed_deref post variable operator = squeeze variable ++ squeeze operator

-- a word with spaces around it
pub Adds-spaced : (s : Text) → Adds (squeeze s) (λ p. space (write s (space p)))
Adds-spaced s =
    Adds-behind (squeeze s) (λ p. write s (space p)) space
      (Adds-before (squeeze s) space (write s) Adds-space (Adds-write s)) Adds-space

pub Adds-write_operator : (operator : Text) → Adds (squeeze operator) (write_operator operator)
Adds-write_operator operator =
    Adds-if (λ p. is operator "and" || is operator "or") (squeeze operator) _ _
      (Adds-spaced operator)
      (Adds-behind (squeeze operator) (λ p. write operator (optional_space p)) optional_space
        (Adds-before (squeeze operator) optional_space (write operator) Adds-optional_space
          (Adds-write operator))
        Adds-optional_space)

pub Adds-print_deref_as :
    (q : PrePost) (variable operator : Text)
    → Adds (squeezed_deref q variable operator) (print_deref_as q variable operator)
Adds-print_deref_as absent variable operator = Adds-write variable
Adds-print_deref_as pre variable operator =
    Adds-then (squeeze operator) (squeeze variable) (λ p. write operator (space p)) (write variable)
      (Adds-before (squeeze operator) space (write operator) Adds-space (Adds-write operator))
      (Adds-write variable)
Adds-print_deref_as post variable operator =
    Adds-behind (squeeze variable ++ squeeze operator) (λ p. write operator (write variable p))
      space
      (Adds-then (squeeze variable) (squeeze operator) (write variable) (write operator)
        (Adds-write variable) (Adds-write operator))
      Adds-space
