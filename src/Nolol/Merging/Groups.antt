-- ===== src/Nolol/Merging/Groups.antt =====
-- pkg/nolol/converter.go: which lines mergeStatementElements merges.
use yodk.Common.{
  ◌≡◌, refl, ap, ap₂, sym, ◌∙◌, ℕ, ◌+◌, ◌≤◌, ◌<◌, Bool, true, false, List, [], ◌∷◌, ◌++◌,
  append_assoc, append-nil, ltb, ◌==◌, length, Bool-cases, inl, inr, arith,
}
use yodk.Text.{Text}
use yodk.Nolol.Merging.{
  StatementLine, Merged, merged, too_long, new_line, append_line, after_line, appends, merge_from,
  merge_statement_elements,
}

module _ {S : Type 0} where
  -- Lines that may be appended: they have no label and begin no line, and only the last ends one.
  abbrev pub Appendable : Bool → List (StatementLine S) → Type 0
  Appendable closed [] = Unit
  Appendable closed (line ∷ rest) =
      (closed ≡ false) × (line.label ≡ []) × (line.has_bol ≡ false) × Appendable line.has_eol rest

  abbrev pub append_all : StatementLine S → List (StatementLine S) → StatementLine S
  append_all current [] = current
  append_all current (line ∷ rest) = append_all (append_line current line) rest

module _ {S : Type 0} (line_length : List S → ℕ) (max : ℕ) where
  -- a line that others are appended to is short enough
  abbrev pub Fits : StatementLine S → List (StatementLine S) → Type 0
  Fits line [] = Unit
  Fits line (x ∷ more) = line_length line.statements ≤ max

  -- The output is the input, cut into groups: each is a line with the lines that are appended to it.
  pub data Grouped : List (StatementLine S) → List (StatementLine S) → Type 0 where
    no_group : Grouped [] []
    group :
        (first : StatementLine S) (more rest out : List (StatementLine S))
        → Appendable first.has_eol more
        → Fits (append_all (new_line first) more) more
        → Grouped rest out
        → Grouped (first ∷ more ++ rest) (append_all (new_line first) more ∷ out)

  -- the same, from a group that has begun
  data GroupedFrom (current : StatementLine S) (closed : Bool)
      : List (StatementLine S) → List (StatementLine S) → Type 0 where
    from :
        (more rest out : List (StatementLine S))
        → Appendable closed more
        → Fits (append_all current more) more
        → Grouped rest out
        → GroupedFrom current closed (more ++ rest) (append_all current more ∷ out)

  -- the last line is too long
  abbrev pub TooLong : List (StatementLine S) → Type 0
  TooLong [] = ⊥
  TooLong (line ∷ []) = max < line_length line.statements
  TooLong (line ∷ next ∷ rest) = TooLong (next ∷ rest)

  abbrev CorrectFrom : StatementLine S → Bool → List (StatementLine S) → Merged S → Type 0
  CorrectFrom current closed lines (merged out) = GroupedFrom current closed lines out
  CorrectFrom current closed lines (too_long out) = TooLong out

  TooLong-cons :
      (line : StatementLine S) (out : List (StatementLine S)) → TooLong out → TooLong (line ∷ out)
  TooLong-cons line [] h = absurd h
  TooLong-cons line (next ∷ rest) h = h

  begin_group :
      (current line : StatementLine S) (closed : Bool) (rest : List (StatementLine S))
      (r : Merged S)
      → CorrectFrom (new_line line) line.has_eol rest r
      → CorrectFrom current closed (line ∷ rest) (after_line current r)
  begin_group current line closed rest (too_long out) h = TooLong-cons current out h
  begin_group current line closed rest (merged out) (from more after out' a f g) =
      from [] (line ∷ more ++ after) (append_all (new_line line) more ∷ out') tt tt
        (group line more after out' a f g)

  module _ (shorter : (s t : List S) → line_length (s ++ t) ≤ line_length s + line_length t) where
    append_line-Fits :
        (current line : StatementLine S) (more : List (StatementLine S))
        → line_length current.statements + line_length line.statements ≤ max
        → Fits (append_all (append_line current line) more) more
        → line_length (StatementLine.statements (append_all (append_line current line) more)) ≤ max
    append_line-Fits current line [] h k =
        omega (arith, shorter current.statements line.statements, h)
    append_line-Fits current line (x ∷ more) h k = k

    extend_group :
        (current line : StatementLine S) (rest : List (StatementLine S)) (r : Merged S)
        → line.label ≡ []
        → line.has_bol ≡ false
        → line_length current.statements + line_length line.statements ≤ max
        → CorrectFrom (append_line current line) line.has_eol rest r
        → CorrectFrom current false (line ∷ rest) r
    extend_group current line rest (too_long out) e b h k = k
    extend_group current line rest (merged out) e b h (from more after out' a f g) =
        from (line ∷ more) after out' (refl, e, b, a) (append_line-Fits current line more h f) g

    no_label : (s : Text) → (length s == 0) ≡ true → s ≡ []
    no_label [] h = refl
    no_label (c ∷ s) h = absurd (ground (arith, h))

    merge_from-CorrectFrom :
        (current : StatementLine S) (closed : Bool) (lines : List (StatementLine S))
        → CorrectFrom current closed lines (merge_from line_length max current closed lines)
    unfolding merge_from
    merge_from-CorrectFrom current closed [] = from [] [] [] tt tt no_group
    merge_from-CorrectFrom current true (line ∷ rest) =
        begin_group current line true rest
          (merge_from line_length max (new_line line) line.has_eol rest)
          (merge_from-CorrectFrom (new_line line) line.has_eol rest)
    merge_from-CorrectFrom current false (line ∷ rest) =
        elim (Bool-cases (ltb max (line_length current.statements))) [
          | inl e ↦ rw e (ground (arith, e))
          | inr e ↦ rw e (elim (Bool-cases (appends line_length max current line)) [
            | inl a ↦ rw a (
                extend_group current line rest
                  (merge_from line_length max (append_line current line) line.has_eol rest)
                  (no_label line.label (ground (arith, a))) (ground (arith, a)) (ground (arith, a))
                  (merge_from-CorrectFrom (append_line current line) line.has_eol rest))
            | inr a ↦ rw a (
                begin_group current line false rest
                  (merge_from line_length max (new_line line) line.has_eol rest)
                  (merge_from-CorrectFrom (new_line line) line.has_eol rest))
          ])
        ]

module _ {S : Type 0} where
  -- all statements of some lines, in their order
  abbrev pub all_statements : List (StatementLine S) → List S
  all_statements [] = []
  all_statements (line ∷ rest) = line.statements ++ all_statements rest

  all_statements-append :
      (lines more : List (StatementLine S))
      → all_statements (lines ++ more) ≡ all_statements lines ++ all_statements more
  all_statements-append [] more = refl
  all_statements-append (line ∷ lines) more =
      ap (λ (r : List S). line.statements ++ r) (all_statements-append lines more)
      ∙ sym (append_assoc line.statements (all_statements lines) (all_statements more))

  statements-append_all :
      (current : StatementLine S) (more : List (StatementLine S))
      → StatementLine.statements (append_all current more)
        ≡ current.statements ++ all_statements more
  statements-append_all current [] = sym (append-nil current.statements)
  statements-append_all current (line ∷ more) =
      statements-append_all (append_line current line) more
      ∙ append_assoc current.statements line.statements (all_statements more)

  Grouped-all_statements :
      (line_length : List S → ℕ) (max : ℕ) (lines out : List (StatementLine S))
      → Grouped line_length max lines out
      → all_statements out ≡ all_statements lines
  Grouped-all_statements line_length max lines out no_group = refl
  Grouped-all_statements line_length max lines out (group first more rest out' a f g) =
      ap₂ (λ (x y : List S). x ++ y) (statements-append_all (new_line first) more)
        (Grouped-all_statements line_length max rest out' g)
      ∙ append_assoc first.statements (all_statements more) (all_statements rest)
      ∙ ap (λ (r : List S). first.statements ++ r) (sym (all_statements-append more rest))

  -- what is right about the result of a merge
  abbrev pub CorrectMerge : (List S → ℕ) → ℕ → List (StatementLine S) → Merged S → Type 0
  CorrectMerge line_length max lines (merged out) =
      Grouped line_length max lines out × (all_statements out ≡ all_statements lines)
  CorrectMerge line_length max lines (too_long out) = TooLong line_length max out

  from-CorrectMerge :
      (line_length : List S → ℕ) (max : ℕ) (line : StatementLine S) (rest : List (StatementLine S))
      (r : Merged S)
      → CorrectFrom line_length max (new_line line) line.has_eol rest r
      → CorrectMerge line_length max (line ∷ rest) r
  from-CorrectMerge line_length max line rest (too_long out) h = h
  from-CorrectMerge line_length max line rest (merged out) (from more after out' a f g) =
      let all = group line more after out' a f g in
      (all, Grouped-all_statements line_length max _ _ all)

  -- For lengths such that two lists of statements are no longer as one than apart,
  -- mergeStatementElements gives an error at a line that is longer than the limit; or it cuts the lines into groups, each a line with lines
  -- behind it that have no label, begin no line and end none but the last, that fits the limit if it is
  -- more than one line; and the statements are the same, in the same order.
  pub merge_statement_elements-CorrectMerge :
      (line_length : List S → ℕ) (max : ℕ)
      → ((s t : List S) → line_length (s ++ t) ≤ line_length s + line_length t)
      → (lines : List (StatementLine S))
      → CorrectMerge line_length max lines (merge_statement_elements line_length max lines)
  unfolding merge_statement_elements
  merge_statement_elements-CorrectMerge line_length max shorter [] = (no_group, refl)
  merge_statement_elements-CorrectMerge line_length max shorter (line ∷ rest) =
      from-CorrectMerge line_length max line rest
        (merge_from line_length max (new_line line) line.has_eol rest)
        (merge_from-CorrectFrom line_length max shorter (new_line line) line.has_eol rest)
