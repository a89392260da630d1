-- ===== src/Nolol/Converter/Running.antt =====
-- pkg/nolol/converter_ifs.go and converter_gotos.go: how converted lines run, to say what the passes over
-- them keep. What a statement does and what a condition tests, which may change variables too, is given;
-- neither fails.
use yodk.Common.{
  ◌≡◌, refl, sym, ◌∙◌, ℕ, zero, suc, Bool, not, ◌&&◌, List, [], ◌∷◌, ◌++◌, if◌then◌else◌, ◌==◌,
  length,
}
use yodk.Text.{Text, text_eq}
use yodk.Ast.{Expression}
use yodk.Nolol.Ast.{
  LabelStatement, LabelStatements, assign, if_then, change, goto_label, no_statement, statement,
  ConvertedLine,
}

-- Statements proceed to those behind them, or jump to a label.
pub data Outcome (S : Type 0) : Type 0 where
  proceeds : S → Outcome S
  jumps : Text → S → Outcome S

abbrev pub proceed : {S : Type 0} → Outcome S → (S → Outcome S) → Outcome S
proceed (proceeds s) k = k s
proceed (jumps label s) k = jumps label s

pub proceed_equal :
    {S : Type 0} (r : Outcome S) (k l : S → Outcome S)
    → ((s : S) → k s ≡ l s)
    → proceed r k ≡ proceed r l
proceed_equal (proceeds s) k l h = h s
proceed_equal (jumps label s) k l h = refl

proceed_assoc :
    {S : Type 0} (r : Outcome S) (k l : S → Outcome S)
    → proceed (proceed r k) l ≡ proceed r (λ s. proceed (k s) l)
proceed_assoc (proceeds s) k l = refl
proceed_assoc (jumps label s) k l = refl

-- a line that a jump to a label goes to
abbrev pub leads_to : Text → ConvertedLine → Bool
leads_to label line = not (length line.label == 0) && text_eq line.label label

module _ {S : Type 0} (effect : LabelStatement → S → S) (test : Expression → S → Bool × S) where
  unfoldable mutual
    pub run_statement : LabelStatement → S → Outcome S
    run_statement (assign position name operator value) s =
        proceeds (effect (assign position name operator value) s)
    run_statement (change d) s = proceeds (effect (change d) s)
    run_statement (goto_label position label) s = jumps label s
    run_statement (if_then position condition block) s =
        let t = test condition s in
        let inside = run_block block t.1 in if t.0 then inside else proceeds t.1

    pub run_block : LabelStatements → S → Outcome S
    run_block no_statement s = proceeds s
    run_block (statement first rest) s = proceed (run_statement first s) (run_block rest)

  unfoldable pub run_statements : List LabelStatement → S → Outcome S
  unfolding run_statement
  run_statements [] s = proceeds s
  run_statements (first ∷ rest) s = proceed (run_statement first s) (run_statements rest)

  -- A line is run when the one before proceeds, or when it is jumped to.
  unfoldable pub run_line : Outcome S → ConvertedLine → Outcome S
  unfolding run_statements
  run_line (proceeds s) line = run_statements line.statements s
  run_line (jumps label s) line =
      if leads_to label line then run_statements line.statements s else jumps label s

  -- The lines once through; jumps go forward. The last ones may lead to lines before.
  unfoldable pub run_lines : Outcome S → List ConvertedLine → Outcome S
  unfolding run_line
  run_lines r [] = r
  run_lines r (line ∷ rest) = run_lines (run_line r line) rest

  -- The program as it goes on: behind the last line, or to jump back, it is gone through again.
  unfoldable pub run_rounds : ℕ → Outcome S → List ConvertedLine → Outcome S
  unfolding run_lines
  run_rounds zero r lines = r
  run_rounds (suc n) r lines = run_rounds n (run_lines r lines) lines

  pub run_lines-append :
      (r : Outcome S) (a b : List ConvertedLine)
      → run_lines r (a ++ b) ≡ run_lines (run_lines r a) b
  unfolding run_lines
  run_lines-append r [] b = refl
  run_lines-append r (line ∷ rest) b = run_lines-append (run_line r line) rest b

  pub run_statements-append :
      (a b : List LabelStatement) (s : S)
      → run_statements (a ++ b) s ≡ proceed (run_statements a s) (run_statements b)
  unfolding run_statements
  run_statements-append [] b s = refl
  run_statements-append (first ∷ rest) b s =
      proceed_equal (run_statement first s) _ _ (λ s'. run_statements-append rest b s')
      ∙ sym (proceed_assoc (run_statement first s) (run_statements rest) (run_statements b))
