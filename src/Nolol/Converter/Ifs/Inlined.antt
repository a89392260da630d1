-- ===== src/Nolol/Converter/Ifs/Inlined.antt =====
-- pkg/nolol/converter_ifs.go: how the if of one line runs that a condition and its block may become.
use yodk.Common.{
  ◌≡◌, refl, ap, ◌∙◌, Bool, true, false, List, [], ◌∷◌, Option, none, some, if◌then◌else◌, ◌==◌,
  length, ltb, Bool-cases, inl, inr,
}
use yodk.Text.{Text}
use yodk.Ast.{Position, Expression}
use yodk.Nolol.Ast.{LabelStatement, if_then, ConvertedLine, block_of}
use yodk.Nolol.Merging.{
  Merged, merged, too_long, merge_statement_elements, new_line, max_line_length,
}
use yodk.Nolol.Converter.{Converter}
use yodk.Nolol.Converter.Gotos.{without_duplicates_in, converted_length}
use yodk.Nolol.Converter.Gotos.Duplicates.{if_equal}
use yodk.Nolol.Converter.Running.{
  Outcome, proceeds, jumps, proceed, proceed_equal, run_statement, run_statements, run_line,
  run_lines, run_statements-append,
}
use yodk.Nolol.Converter.Ifs.{
  Branch, merged_or_nil, merge_nestable_elements, goto_end, inline_line, inline_statements,
  convert_condition_inline,
}
use yodk.Nolol.Converter.Ifs.Blocks.{RunsAlike, merge_from-RunsAlike, run_block-block_of}

-- the lines are not empty
abbrev pub IsSome : List ConvertedLine → Type 0
IsSome [] = ⊥
IsSome (line ∷ rest) = Unit

-- what follows a block: the jump to the end of the if, where there is one
abbrev pub finish : {S : Type 0} → Text → Outcome S → Outcome S
finish endlabel r = proceed r (λ s. if length endlabel == 0 then proceeds s else jumps endlabel s)

proceed_nothing : {S : Type 0} (r : Outcome S) → proceed r (λ s. proceeds s) ≡ r
proceed_nothing (proceeds s) = refl
proceed_nothing (jumps label s) = refl

module _ {S : Type 0} (effect : LabelStatement → S → S) (test : Expression → S → Bool × S) where
  -- a condition and its block, with the jump to the end
  abbrev pub run_branch : Branch → Text → S → Outcome S
  run_branch b endlabel s =
      let t = test b.condition s in
      if t.0 then finish endlabel (run_lines effect test (proceeds t.1) b.lines) else proceeds t.1

  -- If they are one line, it runs as the lines that were merged.
  abbrev OneLine : List ConvertedLine → List ConvertedLine → Type 0
  OneLine lines (line ∷ []) =
      (s : S)
      → run_statements effect test line.statements s ≡ run_lines effect test (proceeds s) lines
  OneLine lines [] = Unit
  OneLine lines (line ∷ next ∷ more) = Unit

  merged_or_nil-OneLine :
      (first : ConvertedLine) (rest : List ConvertedLine) (r : Merged LabelStatement)
      → RunsAlike effect test (new_line first) rest r
      → OneLine (first ∷ rest) (merged_or_nil r)
  unfolding run_lines
  merged_or_nil-OneLine first rest (merged []) h = tt
  merged_or_nil-OneLine first rest (merged (line ∷ [])) h = h
  merged_or_nil-OneLine first rest (merged (line ∷ next ∷ more)) h = tt
  merged_or_nil-OneLine first rest (too_long lines) h = tt

  merge_nestable_elements-OneLine :
      (c : Converter) (lines : List ConvertedLine) → OneLine lines (merge_nestable_elements c lines)
  unfolding merge_nestable_elements merge_statement_elements
  merge_nestable_elements-OneLine c [] = tt
  merge_nestable_elements-OneLine c (first ∷ rest) = merged_or_nil-OneLine first rest _ (
      merge_from-RunsAlike effect test converted_length (max_line_length c.uses_time_tracking)
        (new_line first) first.has_eol rest)

  goto_end-run :
      (endlabel : Text) (s : S)
      → run_statements effect test (goto_end endlabel) s
        ≡ (if length endlabel == 0 then proceeds s else jumps endlabel s)
  unfolding run_statements run_statement
  goto_end-run endlabel s = elim (Bool-cases (length endlabel == 0)) [
    | inl e ↦ rw e refl
    | inr e ↦ rw e refl
  ]

  -- the statements of the if, where it can be one
  abbrev Inlines : List ConvertedLine → Text → Option (List LabelStatement) → Type 0
  Inlines lines endlabel none = Unit
  Inlines lines endlabel (some l) =
      (s : S)
      → run_statements effect test l s ≡ finish endlabel (run_lines effect test (proceeds s) lines)

  inline_statements-Inlines :
      (lines : List ConvertedLine) (endlabel : Text) (m : List ConvertedLine)
      → IsSome m
      → OneLine lines m
      → Inlines lines endlabel (inline_statements m endlabel)
  inline_statements-Inlines lines endlabel [] p h = absurd p
  inline_statements-Inlines lines endlabel (line ∷ next ∷ more) p h = tt
  inline_statements-Inlines lines endlabel (line ∷ []) p h =
      elim (Bool-cases (length line.label == 0)) [
        | inr e ↦ rw e tt
        | inl e ↦ rw e (λ s.
            run_statements-append effect test line.statements (goto_end endlabel) s
            ∙ proceed_equal (run_statements effect test line.statements s) _ _
                (λ s'. goto_end-run endlabel s')
            ∙ ap (finish endlabel) (h s))
      ]

  inline_line-run :
      (p : Position) (condition : Expression) (l : List LabelStatement) (s : S)
      → run_line effect test (proceeds s) (inline_line p condition l) ≡ (
          if (test condition s).0
          then run_statements effect test l (test condition s).1
          else proceeds (test condition s).1)
  unfolding run_line run_statements inline_line run_statement
  inline_line-run p condition l s =
      let t = test condition s in
      proceed_nothing (
        run_statement effect test (if_then p condition (without_duplicates_in (block_of l) false))
          s)
      ∙ if_equal effect test p condition (block_of l) s
      ∙ ap (λ (r : Outcome S). if t.0 then r else proceeds t.1)
          (run_block-block_of effect test l t.1)

  -- what convertConditionInline gives, if it gives a line
  abbrev pub InlineRuns : Branch → Text → Option ConvertedLine → Type 0
  InlineRuns b endlabel none = Unit
  InlineRuns b endlabel (some line) =
      (line.label ≡ [])
      × ((s : S) → run_line effect test (proceeds s) line ≡ run_branch b endlabel s)

  checked-InlineRuns :
      (b : Branch) (endlabel : Text) (long : Bool) (l : List LabelStatement)
      → Inlines b.lines endlabel (some l)
      → InlineRuns b endlabel (if long then none else some (inline_line b.position b.condition l))
  unfolding inline_line
  checked-InlineRuns b endlabel true l h = tt
  checked-InlineRuns b endlabel false l h = (
    refl,
    λ s.
        let t = test b.condition s in
        inline_line-run b.position b.condition l s
        ∙ ap (λ (r : Outcome S). if t.0 then r else proceeds t.1) (h t.1),
  )

  inlined-InlineRuns :
      (c : Converter) (b : Branch) (endlabel : Text) (r : Option (List LabelStatement))
      → Inlines b.lines endlabel r
      → InlineRuns b endlabel (elim r [
        | none ↦ none
        | some statements ↦
            let line : ConvertedLine = inline_line b.position b.condition statements in
            if ltb (max_line_length c.uses_time_tracking) (converted_length line.statements)
            then none
            else some line
      ])
  inlined-InlineRuns c b endlabel none h = tt
  inlined-InlineRuns c b endlabel (some l) h = checked-InlineRuns b endlabel _ l h

  pub convert_condition_inline-InlineRuns :
      (c : Converter) (b : Branch) (endlabel : Text)
      → IsSome (merge_nestable_elements c b.lines)
      → InlineRuns b endlabel (convert_condition_inline c b endlabel)
  unfolding convert_condition_inline
  convert_condition_inline-InlineRuns c b endlabel p =
      inlined-InlineRuns c b endlabel
        (inline_statements (merge_nestable_elements c b.lines) endlabel)
        (inline_statements-Inlines b.lines endlabel (merge_nestable_elements c b.lines) p
          (merge_nestable_elements-OneLine c b.lines))
