-- ===== src/Nolol/Converter/Whole/Jumps.antt =====
-- pkg/nolol/converter.go: where the program that Convert returns jumps to, and how long it is.
use yodk.Common.{
  ◌≡◌, refl, sym, ap, ◌∙◌, ℕ, suc, ◌+◌, ◌≤◌, Bool, true, false, ◌&&◌, List, [], ◌∷◌, Option, none,
  some, if◌then◌else◌, ltb, length, Bool-cases, inl, inr, arith,
}
use mathlib.Core.Path.{subst}
use mathlib.Core.Option.{some-injective}
use yodk.Text.{Text, text_eq, to_lower}
use yodk.Text.Map.{Map, lookup, insert, lookup-insert}
use yodk.Ast.{
  Position, Expression, Statement, Statements, nil, cons, ElseBlock, no_else, else_block,
  assignment, if_statement, goto_statement, deref_statement, number_constant, Line, Program,
}
use yodk.Vm.Decimals.{Decimals}
use yodk.Nolol.Ast.{
  LabelStatement, LabelStatements, assign, if_then, change, goto_label, no_statement, statement,
  Block, ConvertedLine,
}
use yodk.Nolol.Merging.{
  StatementLine, Merged, merged, too_long, merge_statement_elements, max_line_length,
}
use yodk.Nolol.Converter.Expressions.{optimized_name}
use yodk.Nolol.Converter.Elements.{convert_block}
use yodk.Nolol.Labels.{
  Labelled, labelled, duplicate, get_jump_label, set_jump_label, has_label, exists, removes,
  keep_line, add_label, find_from, find_jump_labels,
}
use yodk.Nolol.Converter.{Converter, Converted, converted, failed, ◌>>=◌, itoa}
use yodk.Nolol.Converter.Ensured.{Ensures, Ensures-bind}
use yodk.Nolol.Converter.Gotos.{
  Linked, linked, unknown_label, link_then, goto_line, replaced_goto, replaced_gotos_in,
  replaced_gotos, remove_duplicate_gotos, remove_unused_labels, resolve_goto_chains,
  converted_length,
}
use yodk.Nolol.Converter.Whole.{
  merged_elements, labelled_elements, linked_statements, insert_line_counter, finished_lines,
  checked_program, convert_lines, convert,
}

-- the number of a line up to a bound
abbrev pub IsLineNumber : ℕ → Expression → Type 0
IsLineNumber b e = (k : ℕ) × (p : Position) × (1 ≤ k) × (k ≤ b) × (e ≡ number_constant p (itoa k))

-- Every goto, also one inside an if, goes to the number of a line up to a bound.
unfoldable mutual
  pub JumpsInside : ℕ → Statement → Type 0
  JumpsInside b (assignment position name operator value) = Unit
  JumpsInside b (if_statement position condition block else_part) =
      AllJumpInside b block × ElseJumpsInside b else_part
  JumpsInside b (goto_statement position line) = IsLineNumber b line
  JumpsInside b (deref_statement d) = Unit

  pub AllJumpInside : ℕ → Statements → Type 0
  AllJumpInside b nil = Unit
  AllJumpInside b (cons s rest) = JumpsInside b s × AllJumpInside b rest

  pub ElseJumpsInside : ℕ → ElseBlock → Type 0
  ElseJumpsInside b no_else = Unit
  ElseJumpsInside b (else_block block) = AllJumpInside b block

unfoldable pub LinesJumpInside : ℕ → List Line → Type 0
unfolding JumpsInside
LinesJumpInside b [] = Unit
LinesJumpInside b (line ∷ rest) = AllJumpInside b line.statements × LinesJumpInside b rest

-- the numbers of labels
abbrev BoundsLabels : ℕ → Map ℕ → Type 0
BoundsLabels b m = (k : Text) (v : ℕ) → lookup k m ≡ some v → (1 ≤ v) × (v ≤ b)

abbrev BoundsLabelled : {S : Type 0} → ℕ → Labelled S → Type 0
BoundsLabelled n (labelled labels lines) = BoundsLabels (suc (n + length lines)) labels
BoundsLabelled n (duplicate name) = Unit

insert-BoundsLabels :
    (b n : ℕ) (name : Text) (m : Map ℕ)
    → 1 ≤ n
    → n ≤ b
    → BoundsLabels b m
    → BoundsLabels b (insert name n m)
insert-BoundsLabels b n name m l u h = λ k v e. elim (Bool-cases (text_eq name k)) [
  | inl t ↦
      let found : some n ≡ some v = sym (lookup-insert name k n m ∙ rw t refl) ∙ e in
      let same : n ≡ v = some-injective _ _ found in
      (omega (arith, l, same), omega (arith, u, same))
  | inr t ↦
      let other : lookup k m ≡ some v = sym (lookup-insert name k n m ∙ rw t refl) ∙ e in
      h k v other
]

weaken-BoundsLabels : (a b : ℕ) (m : Map ℕ) → a ≤ b → BoundsLabels a m → BoundsLabels b m
weaken-BoundsLabels a b m u h = λ k v e. ((h k v e).0, omega (arith, (h k v e).1, u))

module _ {S : Type 0} where
  add_label-BoundsLabels :
      (line : StatementLine S) (n : ℕ) (m : Map ℕ)
      → BoundsLabels (suc n) m
      → BoundsLabels (suc n) (add_label line (suc n) m)
  unfolding set_jump_label
  add_label-BoundsLabels line n m h = elim (Bool-cases (has_label line)) [
    | inl t ↦
        rw t (
          insert-BoundsLabels (suc n) (suc n) (to_lower line.label) m (omega arith) (omega arith) h)
    | inr t ↦ rw t h
  ]

  unless-BoundsLabelled :
      (n : ℕ) (b : Bool) (name : Text) (r : Labelled S)
      → BoundsLabelled n r
      → BoundsLabelled n (if b then duplicate name else r)
  unless-BoundsLabelled n true name r h = tt
  unless-BoundsLabelled n false name r h = h

  place-BoundsLabelled :
      (n : ℕ) (b : Bool) (line : StatementLine S) (r : Labelled S)
      → BoundsLabelled (if b then n else suc n) r
      → BoundsLabelled n (if b then r else keep_line line r)
  place-BoundsLabelled n true line r h = h
  place-BoundsLabelled n false line (labelled labels lines) h =
      weaken-BoundsLabels (suc (suc n + length lines)) (suc (n + suc (length lines))) labels
        (omega arith) h
  place-BoundsLabelled n false line (duplicate name) h = tt

  find_from-BoundsLabelled :
      (n : ℕ) (m : Map ℕ) (lines : List (StatementLine S))
      → BoundsLabels (suc n) m
      → BoundsLabelled n (find_from n m lines)
  unfolding find_from
  find_from-BoundsLabelled n m [] h = weaken-BoundsLabels (suc n) (suc (n + 0)) m (omega arith) h
  find_from-BoundsLabelled n m (line ∷ rest) h =
      let next : ℕ = if removes line then n else suc n in
      let m' = add_label line (suc n) m in
      unless-BoundsLabelled n (has_label line && exists (get_jump_label line.label m)) line.label
        (if removes line then find_from next m' rest else keep_line line (find_from next m' rest))
        (place-BoundsLabelled n (removes line) line (find_from next m' rest) (
          find_from-BoundsLabelled next m' rest (
            weaken-BoundsLabels (suc n) (suc next) m' (ground arith)
              (add_label-BoundsLabels line n m h))))

-- a property of what replaceGotoLabels returns
abbrev LinkedTo {ℓ κ} : {A : Type ℓ} → (A → Type κ) → Linked A → Type κ
LinkedTo P (linked a) = P a
LinkedTo P (unknown_label label) = Unit

link_then-LinkedTo {ℓ κ μ ν} :
    {A : Type ℓ} {B : Type κ} (P : A → Type μ) (Q : B → Type ν) (m : Linked A) (f : A → Linked B)
    → LinkedTo P m
    → ((a : A) → P a → LinkedTo Q (f a))
    → LinkedTo Q (link_then m f)
link_then-LinkedTo P Q (linked a) f h k = k a h
link_then-LinkedTo P Q (unknown_label label) f h k = tt

goto_line-LinkedTo :
    (b : ℕ) (position : Position) (label : Text) (r : Option ℕ)
    → ((v : ℕ) → r ≡ some v → (1 ≤ v) × (v ≤ b))
    → LinkedTo (JumpsInside b) (goto_line position label r)
unfolding JumpsInside
goto_line-LinkedTo b position label none h = tt
goto_line-LinkedTo b position label (some n) h = (n, position, (h n refl).0, (h n refl).1, refl)

mutual
  unfolding JumpsInside replaced_goto get_jump_label

  replaced_goto-JumpsInside :
      (b : ℕ) (labels : Map ℕ)
      → BoundsLabels b labels
      → (s : LabelStatement) → LinkedTo (JumpsInside b) (replaced_goto labels s)
  replaced_goto-JumpsInside b labels h (assign position name operator value) = tt
  replaced_goto-JumpsInside b labels h (change d) = tt
  replaced_goto-JumpsInside b labels h (goto_label position label) =
      goto_line-LinkedTo b position label (lookup (to_lower label) labels) (h (to_lower label))
  replaced_goto-JumpsInside b labels h (if_then position condition block) =
      link_then-LinkedTo (AllJumpInside b) (JumpsInside b) (replaced_gotos_in labels block)
        (λ block'. linked (if_statement position condition block' no_else))
        (replaced_gotos_in-AllJumpInside b labels h block) (λ block' i. (i, tt))

  replaced_gotos_in-AllJumpInside :
      (b : ℕ) (labels : Map ℕ)
      → BoundsLabels b labels
      → (block : LabelStatements) → LinkedTo (AllJumpInside b) (replaced_gotos_in labels block)
  replaced_gotos_in-AllJumpInside b labels h no_statement = tt
  replaced_gotos_in-AllJumpInside b labels h (statement s rest) =
      link_then-LinkedTo (JumpsInside b) (AllJumpInside b) (replaced_goto labels s)
        (λ s'. link_then (replaced_gotos_in labels rest) (λ rest'. linked (cons s' rest')))
        (replaced_goto-JumpsInside b labels h s)
        (λ s' i.
          link_then-LinkedTo (AllJumpInside b) (AllJumpInside b) (replaced_gotos_in labels rest)
            (λ rest'. linked (cons s' rest')) (replaced_gotos_in-AllJumpInside b labels h rest)
            (λ rest' j. (i, j)))

replaced_gotos-AllJumpInside :
    (b : ℕ) (labels : Map ℕ)
    → BoundsLabels b labels
    → (statements : List LabelStatement)
    → LinkedTo (AllJumpInside b) (replaced_gotos labels statements)
unfolding JumpsInside replaced_gotos
replaced_gotos-AllJumpInside b labels h [] = tt
replaced_gotos-AllJumpInside b labels h (s ∷ rest) =
    link_then-LinkedTo (JumpsInside b) (AllJumpInside b) (replaced_goto labels s)
      (λ s'. link_then (replaced_gotos labels rest) (λ rest'. linked (cons s' rest')))
      (replaced_goto-JumpsInside b labels h s)
      (λ s' i.
        link_then-LinkedTo (AllJumpInside b) (AllJumpInside b) (replaced_gotos labels rest)
          (λ rest'. linked (cons s' rest')) (replaced_gotos-AllJumpInside b labels h rest)
          (λ rest' j. (i, j)))

linked_statements-Ensures :
    (b : ℕ) (r : Linked Statements) (c : Converter)
    → LinkedTo (AllJumpInside b) r
    → Ensures (λ statements c'. AllJumpInside b statements) (linked_statements r c)
linked_statements-Ensures b (linked statements) c h = h
linked_statements-Ensures b (unknown_label label) c h = tt

insert_line_counter-Ensures :
    (b : ℕ) (statements : Statements) (c : Converter)
    → AllJumpInside b statements
    → Ensures (λ statements' c'. AllJumpInside b statements') (insert_line_counter statements c)
unfolding insert_line_counter JumpsInside optimized_name
insert_line_counter-Ensures b statements c h = (tt, h)

counted-Ensures :
    (b : ℕ) (t : Bool) (statements : Statements) (c : Converter)
    → AllJumpInside b statements
    → Ensures
        (λ statements' c'. AllJumpInside b statements')
        (if t then insert_line_counter statements c else converted statements c)
counted-Ensures b true statements c h = insert_line_counter-Ensures b statements c h
counted-Ensures b false statements c h = h

-- the lines of a program, as many as there were, with their gotos
abbrev Finishes : ℕ → ℕ → List Line → Converter → Type 0
Finishes b n lines c = LinesJumpInside b lines × (length lines ≡ n)

finished_lines-Ensures :
    (b : ℕ) (labels : Map ℕ)
    → BoundsLabels b labels
    → (lines : List ConvertedLine) (c : Converter)
    → Ensures (Finishes b (length lines)) (finished_lines labels lines c)
unfolding finished_lines LinesJumpInside
finished_lines-Ensures b labels h [] c = (tt, refl)
finished_lines-Ensures b labels h (line ∷ rest) c =
    Ensures-bind (λ s c'. AllJumpInside b s) (Finishes b (suc (length rest)))
      (linked_statements (replaced_gotos labels line.statements) c) _
      (linked_statements-Ensures b (replaced_gotos labels line.statements) c
        (replaced_gotos-AllJumpInside b labels h line.statements))
      (λ s c₁ i.
        Ensures-bind (λ s' c'. AllJumpInside b s') (Finishes b (suc (length rest)))
          (if c₁.uses_time_tracking then insert_line_counter s c₁ else converted s c₁) _
          (counted-Ensures b c₁.uses_time_tracking s c₁ i)
          (λ s' c₂ j.
            Ensures-bind (Finishes b (length rest)) (Finishes b (suc (length rest)))
              (finished_lines labels rest c₂) _ (finished_lines-Ensures b labels h rest c₂)
              (λ more c₃ m. ((j, m.0), ap suc m.1))))

-- at most 20 lines, and every goto to the number of a line, or to that behind the last line
abbrev pub IsProgram : Program → Converter → Type 0
IsProgram program c =
    (length program.lines ≤ 20) × LinesJumpInside (suc (length program.lines)) program.lines

checked_program-Ensures :
    (n : ℕ) (lines : List Line) (c : Converter)
    → Finishes (suc n) n lines c
    → Ensures IsProgram (checked_program lines c)
checked_program-Ensures n lines c h = elim (Bool-cases (ltb 20 (length lines))) [
  | inl t ↦ rw t tt
  | inr t ↦ rw t ((ground (arith, t)), subst (λ m. LinesJumpInside (suc m) lines) (sym h.1) h.0)
]

-- the steps behind findJumpLabels
finish-Ensures :
    (r : Labelled LabelStatement) (c : Converter)
    → BoundsLabelled 0 r
    → Ensures IsProgram (
        labelled_elements r c
        >>= (λ l. finished_lines l.0.0 l.0.1 l.1 >>= (λ p. checked_program p.0 p.1)))
finish-Ensures (labelled labels lines) c h =
    Ensures-bind (Finishes (suc (length lines)) (length lines)) IsProgram
      (finished_lines labels lines c) (λ p. checked_program p.0 p.1)
      (finished_lines-Ensures (suc (length lines)) labels
        (weaken-BoundsLabels (suc (0 + length lines)) (suc (length lines)) labels (omega arith) h)
        lines c)
      (λ program c₁ i. checked_program-Ensures (length lines) program c₁ i)
finish-Ensures (duplicate label) c h = tt

-- the steps behind the merging of lines
merged-Ensures :
    (r : Merged LabelStatement) (c : Converter)
    → Ensures IsProgram (
        merged_elements r c >>= (λ m.
          labelled_elements (find_jump_labels (remove_duplicate_gotos m.0 false)) m.1
          >>= (λ l. finished_lines l.0.0 l.0.1 l.1 >>= (λ p. checked_program p.0 p.1))))
unfolding find_jump_labels
merged-Ensures (merged lines) c =
    finish-Ensures (find_jump_labels (remove_duplicate_gotos lines false)) c (
      find_from-BoundsLabelled 0 [] (remove_duplicate_gotos lines false)
        (λ k v e. unfold lookup in cc))
merged-Ensures (too_long lines) c = tt

convert_lines-Ensures :
    (lines : List ConvertedLine) (c : Converter) → Ensures IsProgram (convert_lines lines c)
unfolding convert_lines
convert_lines-Ensures lines c =
    merged-Ensures
      (merge_statement_elements converted_length (max_line_length c.uses_time_tracking)
        (remove_unused_labels (resolve_goto_chains lines)))
      c

module _ {N : Type 0} (D : Decimals N) where
  lines-Ensures :
      (r : Converted (List ConvertedLine)) → Ensures IsProgram (r >>= (λ l. convert_lines l.0 l.1))
  lines-Ensures (converted lines c) = convert_lines-Ensures lines c
  lines-Ensures (failed msg) = tt

  -- A program that Convert returns has at most 20 lines, and each of its gotos, also inside ifs, goes to a
  -- constant: the number of a line of it, or of the one behind its last line.
  pub convert-IsProgram : (prog : Block) (c : Converter) → Ensures IsProgram (convert D prog c)
  unfolding convert optimized_name
  convert-IsProgram prog c = lines-Ensures (convert_block D prog _)
