-- ===== src/Nolol/Converter/Ifs/Jumped.antt =====
-- pkg/nolol/converter_ifs.go: how the lines run that jump around the block of a condition.
use yodk.Common.{
  ◌≡◌, refl, ap, ◌∙◌, ℕ, Bool, true, false, not, List, [], ◌∷◌, ◌++◌, if◌then◌else◌, ◌==◌, length,
  Bool-cases, inl, inr, arith,
}
use yodk.Text.{Text, codes, text_eq}
use yodk.Text.Laws.{text_eq_refl}
use yodk.Ast.{unknown_position, Expression, unary_operation}
use yodk.Ast.Visitor.{accepted}
use yodk.Optimizers.Inversion.{optimize_expression}
use yodk.Nolol.Ast.{LabelStatement, if_then, goto_label, ConvertedLine, block_of}
use yodk.Nolol.Converter.{Converter, Converted, skip_label}
use yodk.Nolol.Converter.Ensured.{Returns}
use yodk.Nolol.Converter.Running.{
  Outcome, proceeds, jumps, run_statement, run_statements, run_lines, run_lines-append,
}
use yodk.Nolol.Converter.Ifs.{Branch, made_line, block_lines, end_line, convert_condition_multiline}
use yodk.Nolol.Converter.Ifs.Blocks.{Passes, Passes-append, run_lines-Passes}
use yodk.Nolol.Converter.Ifs.Cleaned.{block_lines-run, block_lines-Passes}
use yodk.Nolol.Converter.Ifs.Inlined.{finish, run_branch}

-- the outcome does not jump to the label
abbrev pub AvoidsLabel : {S : Type 0} → Text → Outcome S → Type 0
AvoidsLabel own (proceeds s) = Unit
AvoidsLabel own (jumps label s) = text_eq own label ≡ false

skip_nonempty : (c : Converter) (index : ℕ) → (length (skip_label c index) == 0) ≡ false
skip_nonempty c index = ground arith

module _ {S : Type 0} (effect : LabelStatement → S → S) (test : Expression → S → Bool × S) where
  -- the lines behind the block
  abbrev behind_block : Converter → ℕ → Text → List ConvertedLine
  behind_block c index endlabel =
      end_line endlabel ++ made_line unknown_position (skip_label c index) [] ∷ []

  skip-passed :
      (c : Converter) (index : ℕ) (r : Outcome S)
      → AvoidsLabel (skip_label c index) r
      → run_lines effect test r (made_line unknown_position (skip_label c index) [] ∷ []) ≡ r
  unfolding run_lines run_statements
  skip-passed c index (proceeds s) h = refl
  skip-passed c index (jumps label s) h = ground (arith, h)

  behind_block-run :
      (c : Converter) (index : ℕ) (endlabel : Text) (r : Outcome S)
      → text_eq (skip_label c index) endlabel ≡ false
      → AvoidsLabel (skip_label c index) r
      → run_lines effect test r (behind_block c index endlabel) ≡ finish endlabel r
  unfolding run_lines run_statements run_statement
  behind_block-run c index endlabel (proceeds s) e h = elim (Bool-cases (length endlabel == 0)) [
    | inl z ↦ rw z refl
    | inr z ↦ rw z (skip-passed c index (jumps endlabel s) e)
  ]
  behind_block-run c index endlabel (jumps label s) e h = elim (Bool-cases (length endlabel == 0)) [
    | inl z ↦ rw z (skip-passed c index (jumps label s) h)
    | inr z ↦ rw z (skip-passed c index (jumps label s) h)
  ]

  behind_block-skip :
      (c : Converter) (index : ℕ) (endlabel : Text) (s : S)
      → run_lines effect test (jumps (skip_label c index) s) (behind_block c index endlabel)
        ≡ proceeds s
  unfolding run_lines run_statements
  behind_block-skip c index endlabel s =
      let same = text_eq_refl (skip_label c index) in
      elim (Bool-cases (length endlabel == 0)) [
        | inl z ↦ rw z (rw (same, skip_nonempty c index) refl)
        | inr z ↦ rw z (rw (same, skip_nonempty c index) refl)
      ]

  -- the opposite of a condition
  abbrev pub Negates : Expression → Expression → Type 0
  Negates opposite condition =
      (s : S) → test opposite s ≡ (not (test condition s).0, (test condition s).1)

  abbrev multiline : Converter → Branch → ℕ → Text → Expression → List ConvertedLine
  multiline c b index endlabel opposite =
      made_line b.position [] (
        if_then b.position opposite (block_of (goto_label b.position (skip_label c index) ∷ []))
        ∷ [])
      ∷ (block_lines c b ++ behind_block c index endlabel)

  -- What the code of a condition and its block does: it runs as they do, and is passed by jumps to labels
  -- that it does not have.
  abbrev pub BranchRuns : Converter → Branch → ℕ → Text → List ConvertedLine → Type 0
  BranchRuns c b index endlabel lines =
      ((s : S) → run_lines effect test (proceeds s) lines ≡ run_branch effect test b endlabel s)
      × ((label : Text)
          → text_eq (skip_label c index) label ≡ false
          → Passes label b.lines
          → Passes label lines)

  -- What the label behind a block needs to be: no other label, and no target of the block.
  abbrev pub IsFreshFor : Text → Branch → Text → Type 0
  IsFreshFor own b endlabel =
      Passes own b.lines
      × (text_eq own endlabel ≡ false)
      × ((s : S) → AvoidsLabel own (run_lines effect test (proceeds s) b.lines))

  behind_block-Passes :
      (c : Converter) (index : ℕ) (endlabel label : Text)
      → text_eq (skip_label c index) label ≡ false
      → Passes label (behind_block c index endlabel)
  behind_block-Passes c index endlabel label h = elim (Bool-cases (length endlabel == 0)) [
    | inl z ↦ rw z (ground (arith, h), tt)
    | inr z ↦ rw z (refl, (ground (arith, h), tt))
  ]

  -- behind the test of the opposite
  tested-run :
      (c : Converter) (b : Branch) (index : ℕ) (endlabel : Text) (t : Bool) (s : S)
      → IsFreshFor (skip_label c index) b endlabel
      → run_lines effect test
          (if not t then jumps (skip_label c index) s else proceeds s)
          (block_lines c b ++ behind_block c index endlabel)
        ≡ (if t then finish endlabel (run_lines effect test (proceeds s) b.lines) else proceeds s)
  tested-run c b index endlabel true s h =
      run_lines-append effect test (proceeds s) (block_lines c b) (behind_block c index endlabel)
      ∙ ap (λ (r : Outcome S). run_lines effect test r (behind_block c index endlabel))
          (block_lines-run effect test c b (proceeds s))
      ∙ behind_block-run c index endlabel (run_lines effect test (proceeds s) b.lines) h.1 (h.2 s)
  tested-run c b index endlabel false s h =
      run_lines-append effect test (jumps (skip_label c index) s) (block_lines c b)
        (behind_block c index endlabel)
      ∙ ap (λ (r : Outcome S). run_lines effect test r (behind_block c index endlabel))
          (run_lines-Passes effect test (skip_label c index) s (block_lines c b)
            (block_lines-Passes effect test c b (skip_label c index) h.0))
      ∙ behind_block-skip c index endlabel s

  opposite-run :
      (c : Converter) (b : Branch) (index : ℕ) (opposite : Expression) (s : S)
      → Negates opposite b.condition
      → run_statements effect test
          (if_then b.position opposite (block_of (goto_label b.position (skip_label c index) ∷ []))
            ∷ [])
          s
        ≡ (if not (test b.condition s).0
            then jumps (skip_label c index) (test b.condition s).1
            else proceeds (test b.condition s).1)
  unfolding run_statements run_statement
  opposite-run c b index opposite s n = elim (Bool-cases (test b.condition s).0) [
    | inl e ↦ rw (n s, e) refl
    | inr e ↦ rw (n s, e) refl
  ]

  multiline-BranchRuns :
      (c : Converter) (b : Branch) (index : ℕ) (endlabel : Text) (opposite : Expression)
      → IsFreshFor (skip_label c index) b endlabel
      → Negates opposite b.condition
      → BranchRuns c b index endlabel (multiline c b index endlabel opposite)
  unfolding run_lines
  multiline-BranchRuns c b index endlabel opposite h n =
      let rest = block_lines c b ++ behind_block c index endlabel in
      (
        λ s.
            ap (λ (r : Outcome S). run_lines effect test r rest)
              (opposite-run c b index opposite s n)
            ∙ tested-run c b index endlabel (test b.condition s).0 (test b.condition s).1 h,
        λ label e p. (
          refl,
          Passes-append label (block_lines c b) (behind_block c index endlabel)
              (block_lines-Passes effect test c b label p)
              (behind_block-Passes c index endlabel label e),
        ),
      )

  -- the opposite that the optimizer gives
  abbrev pub IsInverted : Expression → Type 0
  IsInverted condition =
      (opposite : Expression) × (optimize_expression
          (unary_operation unknown_position (codes "not") condition)
        ≡ accepted opposite tt)
      × Negates opposite condition

  abbrev pub Converts : Converter → Branch → ℕ → Text → Converted (List ConvertedLine) → Type 0
  Converts c b index endlabel m =
      Returns (λ lines c'. (c' ≡ c) × BranchRuns c b index endlabel lines) m

  pub convert_condition_multiline-Converts :
      (c : Converter) (b : Branch) (index : ℕ) (endlabel : Text)
      → IsFreshFor (skip_label c index) b endlabel
      → IsInverted b.condition
      → Converts c b index endlabel (convert_condition_multiline c b index endlabel)
  unfolding convert_condition_multiline
  convert_condition_multiline-Converts c b index endlabel h (opposite, e, n) =
      rw e (refl, multiline-BranchRuns c b index endlabel opposite h n)
