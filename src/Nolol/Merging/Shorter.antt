-- ===== src/Nolol/Merging/Shorter.antt =====
-- pkg/nolol/converter.go and pkg/parser/printer.go: two lists of statements are no longer on one line than
-- on a line each.
use yodk.Common.{
  ◌≡◌, refl, ap, sym, ◌∙◌, ◌≤◌, ◌⊎◌, inl, inr, ℕ, suc, ◌+◌, Bool, true, false, ◌||◌, List, [], ◌∷◌,
  ◌++◌, if◌then◌else◌, ltb, length, length-append, append-nil, arith,
}
use mathlib.Core.Path.{subst}
use yodk.Text.{Text, codes, is, has_prefix}
use yodk.Ast.{
  PrePost, absent, pre, post, Expression, string_constant, number_constant, dereference,
  unary_operation, binary_operation, Statement, Statements, ElseBlock, assignment, if_statement,
  goto_statement, deref_statement, nil, cons, no_else, else_block,
}
use yodk.Parsing.Tokenizer.Escapes.{insert_escapes}
use yodk.Parsing.Printer.{
  compact, Printer, pre_visit, child_visit, is_binary, write, space, optional_space,
  statement_separator, newline, write_if, separate, write_operator, left_parentheses,
  right_parentheses, print_binary_operation, print_if, print_deref, print_deref_as,
  print_unary_operation, print_expression, print_statement, print_statements, print_else,
  print_comment, print_line,
}
use yodk.Nolol.Merging.LineLength.{statements_of, get_length_of_line}

-- In compact mode, the first printer has written at most `d` bytes more than the second one, and it has
-- just written a space if the second one has.
record Shorter (d : ℕ) (p q : Printer) : Type 0 where
  mode : p.mode ≡ compact
  mode' : q.mode ≡ compact
  spaced : (p.last_was_space ≡ true) ⊎ (p.last_was_space ≡ q.last_was_space)
  texts : length p.text ≤ d + length q.text

-- What is printed by both keeps that.
abbrev Follows : (Printer → Printer) → Type 0
Follows f = (d : ℕ) (p q : Printer) → Shorter d p q → Shorter d (f p) (f q)

Follows-write : (s : Text) → Follows (write s)
unfolding write
Follows-write s d p q h = record {
  mode = h.mode;
  mode' = h.mode';
  spaced = inr refl;
  texts = omega (arith, h.texts, length-append p.text s, length-append q.text s);
}

Follows-newline : Follows newline
unfolding newline
Follows-newline d p q h = record {
  mode = h.mode;
  mode' = h.mode';
  spaced = inr refl;
  texts = omega (arith, h.texts, length-append p.text (10 ∷ []), length-append q.text (10 ∷ []));
}

Follows-space : Follows space
unfolding space
Follows-space d p q h = record {
  mode = h.mode;
  mode' = h.mode';
  spaced = inr refl;
  texts = ground (
    arith,
    h.texts,
    h.spaced,
    length-append p.text (codes " "),
    length-append q.text (codes " "),
  );
}

Follows-none : Follows (λ p. p)
Follows-none d p q h = h

Follows-if :
    (b : Bool) (f g : Printer → Printer)
    → Follows f
    → Follows g
    → Follows (λ p. if b then f p else g p)
Follows-if true f g h k = h
Follows-if false f g h k = k

Follows-write_if : (b : Bool) (s : Text) → Follows (write_if b s)
Follows-write_if b s = Follows-if b (write s) (λ p. p) (Follows-write s) Follows-none

-- in compact mode there is no optional space, and one space separates statements
compact-Follows :
    (f g : Printer → Printer)
    → ((p : Printer) → p.mode ≡ compact → f p ≡ g p)
    → Follows g
    → Follows f
compact-Follows f g e h d p q s =
    subst (λ r. Shorter d r (f q)) (sym (e p s.mode))
      (subst (λ r. Shorter d (g p) r) (sym (e q s.mode')) (h d p q s))

Follows-optional_space : Follows optional_space
unfolding optional_space
Follows-optional_space = compact-Follows _ (λ p. p) (λ p e. rw e refl) Follows-none

Follows-statement_separator : Follows statement_separator
unfolding statement_separator
Follows-statement_separator = compact-Follows _ space (λ p e. rw e refl) Follows-space

Follows-separate : (i : ℕ) → Follows (separate i)
unfolding separate
Follows-separate i =
    Follows-if (ltb 0 i) statement_separator (λ p. p) Follows-statement_separator Follows-none

Follows-then : (f g : Printer → Printer) → Follows f → Follows g → Follows (λ p. g (f p))
Follows-then f g h k d p q s = k d (f p) (f q) (h d p q s)

Follows-write_operator : (operator : Text) → Follows (write_operator operator)
Follows-write_operator operator =
    Follows-if (is operator "and" || is operator "or") (λ p. space (write operator (space p)))
      (λ p. optional_space (write operator (optional_space p)))
      (λ d p q s. Follows-space d _ _ (Follows-write operator d _ _ (Follows-space d p q s)))
      (λ d p q s.
        Follows-optional_space d _ _
          (Follows-write operator d _ _ (Follows-optional_space d p q s)))

Follows-print_deref_as :
    (place : PrePost) (variable operator : Text) → Follows (print_deref_as place variable operator)
Follows-print_deref_as absent variable operator d p q s = Follows-write variable d p q s
Follows-print_deref_as pre variable operator d p q s =
    Follows-write variable d _ _ (Follows-write operator d _ _ (Follows-space d p q s))
Follows-print_deref_as post variable operator d p q s =
    Follows-space d _ _ (Follows-write operator d _ _ (Follows-write variable d p q s))

Follows-unary_before :
    (operator : Text) (exp : Expression) → Follows (print_unary_operation pre_visit operator exp)
unfolding print_unary_operation
Follows-unary_before operator exp d p q s = Follows-write_if (is_binary exp) (codes "(") d _ _ (
    Follows-if (is operator "-") (λ r. write operator (space r)) (λ r. space (write operator r))
      (λ d' p' q' s'. Follows-write operator d' _ _ (Follows-space d' p' q' s'))
      (λ d' p' q' s'. Follows-space d' _ _ (Follows-write operator d' p' q' s')) d p q s)

Follows-print_expression : (e : Expression) → Follows (print_expression e)
unfolding print_expression print_deref print_unary_operation print_binary_operation
Follows-print_expression (string_constant position value) d p q s =
    Follows-write (codes "\"" ++ (insert_escapes value ++ codes "\"")) d p q s
Follows-print_expression (number_constant position value) d p q s =
    Follows-write value d _ _
      (Follows-if (has_prefix value (codes "-")) space (λ r. r) Follows-space Follows-none d p q s)
Follows-print_expression (dereference r) d p q s =
    Follows-print_deref_as r.pre_post r.variable r.operator d p q s
Follows-print_expression (unary_operation position operator exp) d p q s =
    Follows-write_if (is_binary exp) (codes ")") d _ _
      (Follows-print_expression exp d _ _ (Follows-unary_before operator exp d p q s))
Follows-print_expression (binary_operation operator exp1 exp2) d p q s =
    let l : Bool = left_parentheses operator exp1 exp2 in
    let r : Bool = right_parentheses operator exp1 exp2 in
    Follows-write_if r (codes ")") d _ _ (
      Follows-print_expression exp2 d _ _ (
        Follows-write_if r (codes "(") d _ _ (
          Follows-write_operator operator d _ _ (
            Follows-write_if l (codes ")") d _ _
              (Follows-print_expression exp1 d _ _ (Follows-write_if l (codes "(") d p q s))))))

Follows-word : (word : Text) → Follows (λ p. space (write word (space p)))
Follows-word word d p q s = Follows-space d _ _ (Follows-write word d _ _ (Follows-space d p q s))

mutual
  unfolding print_statement print_if print_deref

  Follows-print_statement : (s : Statement) → Follows (print_statement s)
  Follows-print_statement (assignment position variable operator value) d p q s =
      Follows-print_expression value d _ _ (
        Follows-optional_space d _ _ (
          Follows-write operator d _ _
            (Follows-optional_space d _ _ (Follows-write variable d p q s))))
  Follows-print_statement (if_statement position condition if_block else_part) d p q s =
      Follows-write (codes "end") d _ _ (
        Follows-space d _ _ (
          Follows-print_else else_part d _ _ (
            Follows-print_statements (λ i. print_if (child_visit i)) Follows-separate 0 if_block d _
              _
              (Follows-word (codes "then") d _ _ (
                Follows-print_expression condition d _ _
                  (Follows-space d _ _ (Follows-write (codes "if") d p q s)))))))
  Follows-print_statement (goto_statement position line) d p q s =
      Follows-print_expression line d _ _
        (Follows-space d _ _ (Follows-write (codes "goto") d p q s))
  Follows-print_statement (deref_statement r) d p q s =
      Follows-print_deref_as r.pre_post r.variable r.operator d p q s

  Follows-print_statements :
      (parent : ℕ → Printer → Printer)
      → ((i : ℕ) → Follows (parent i))
      → (i : ℕ) (b : Statements) → Follows (print_statements parent i b)
  Follows-print_statements parent h i nil d p q s = s
  Follows-print_statements parent h i (cons statement rest) d p q s =
      Follows-print_statements parent h (suc i) rest d _ _
        (Follows-print_statement statement d _ _ (h i d p q s))

  Follows-print_else : (e : ElseBlock) → Follows (print_else e)
  Follows-print_else no_else d p q s = s
  Follows-print_else (else_block b) d p q s =
      Follows-print_statements (λ i. print_if (child_visit i)) Follows-separate 0 b d _ _
        (Follows-word (codes "else") d p q s)

-- the statements of a line from the one at an index
abbrev printed_from : ℕ → List Statement → Printer → Printer
printed_from i s = print_statements separate i (statements_of s)

printed_from-append :
    (i : ℕ) (s t : List Statement) (p : Printer)
    → printed_from i (s ++ t) p ≡ printed_from (i + length s) t (printed_from i s p)
unfolding print_statement
printed_from-append i [] t p = ap (λ n. printed_from n t p) (omega arith)
printed_from-append i (a ∷ s) t p =
    printed_from-append (suc i) s t (print_statement a (separate i p))
    ∙ ap (λ n. printed_from n t (printed_from (suc i) s (print_statement a (separate i p))))
        (omega arith)

printed_behind :
    (i : ℕ) (s : List Statement) (p : Printer) → printed_from (suc i) s p ≡ printed_from 1 s p
unfolding print_statement separate
printed_behind i [] p = refl
printed_behind i (a ∷ s) p =
    let first : ltb 0 (suc i) ≡ true = ground arith in
    rw first (
      printed_behind (suc i) s (print_statement a (statement_separator p))
      ∙ sym (printed_behind 1 s (print_statement a (statement_separator p))))

abbrev fresh : Printer
fresh = record { mode = compact; text = []; last_was_space = false }

fresh-Shorter : Shorter 0 fresh fresh
fresh-Shorter = record { mode = refl; mode' = refl; spaced = inr refl; texts = omega arith }

-- the bytes of a line without the line feed behind it
abbrev bytes : List Statement → ℕ
bytes s = length (Printer.text (printed_from 0 s fresh))

length_of_line : (s : List Statement) → get_length_of_line s ≡ bytes s + 1
unfolding get_length_of_line print_line print_comment newline
length_of_line s = length-append (Printer.text (printed_from 0 s fresh)) (10 ∷ [])

-- a line behind a space, after other statements
behind-Shorter :
    (s : List Statement)
    → Shorter (bytes s + 1) (statement_separator (printed_from 0 s fresh)) fresh
unfolding statement_separator space
behind-Shorter s =
    let p = printed_from 0 s fresh in
    let kept =
      Follows-print_statements separate Follows-separate 0 (statements_of s) 0 fresh fresh
        fresh-Shorter in
    rw (kept.mode) (record {
      mode = refl;
      mode' = refl;
      spaced = inl refl;
      texts = ground (arith, length-append p.text (codes " "));
    })

first_behind :
    (k : ℕ) (b : Statement) (t : List Statement) (p : Printer)
    → printed_from (suc k) (b ∷ t) p ≡ printed_from 1 t (print_statement b (statement_separator p))
unfolding print_statement separate
first_behind k b t p =
    let later : ltb 0 (suc k) ≡ true = ground arith in
    rw later (printed_behind (suc k) t (print_statement b (statement_separator p)))

append-bytes :
    (s : List Statement) (a : Statement) (t : List Statement) (b : Statement)
    → bytes (a ∷ (s ++ b ∷ t)) ≤ bytes (a ∷ s) + 1 + bytes (b ∷ t)
unfolding print_statement separate
append-bytes s a t b =
    let p = printed_from 0 (a ∷ s) fresh in
    let both : printed_from 0 (a ∷ (s ++ b ∷ t)) fresh
        ≡ printed_from 1 t (print_statement b (statement_separator p)) =
      printed_from-append 0 (a ∷ s) (b ∷ t) fresh
      ∙ ap (λ n. printed_from n (b ∷ t) p) (omega arith)
      ∙ first_behind (length s) b t p in
    let h =
      Follows-print_statements separate Follows-separate 1 (statements_of t) (bytes (a ∷ s) + 1) _ _
        (Follows-print_statement b (bytes (a ∷ s) + 1) _ _ (behind-Shorter (a ∷ s))) in
    subst (λ r. length (Printer.text r) ≤ bytes (a ∷ s) + 1 + bytes (b ∷ t)) (sym both) h.texts

-- getLengthOfLine of two lists of statements in one line.
pub get_length_of_line-append :
    (s t : List Statement)
    → get_length_of_line (s ++ t) ≤ get_length_of_line s + get_length_of_line t
get_length_of_line-append [] t = omega arith
get_length_of_line-append (a ∷ s) [] = rw (append-nil s) (omega arith)
get_length_of_line-append (a ∷ s) (b ∷ t) = omega (
  arith,
  append-bytes s a t b,
  length_of_line (a ∷ (s ++ b ∷ t)),
  length_of_line (a ∷ s),
  length_of_line (b ∷ t),
)
