-- ===== src/Nolol/Converter/Ifs/Cleaned.antt =====
-- pkg/nolol/converter_ifs.go: a try to convert a block to an inline if does not change how it runs.
use yodk.Common.{
  ◌≡◌, refl, ap, ◌∙◌, Bool, List, [], ◌∷◌, map, if◌then◌else◌, ◌==◌, length, Bool-cases, inl, inr,
}
use yodk.Text.{Text}
use yodk.Ast.{Expression}
use yodk.Nolol.Ast.{LabelStatement, if_then, assign, change, goto_label, ConvertedLine}
use yodk.Nolol.Converter.{Converter}
use yodk.Nolol.Converter.Gotos.Duplicates.{if_equal}
use yodk.Nolol.Converter.Running.{
  Outcome, proceeds, jumps, proceed, proceed_equal, leads_to, run_statement, run_statements,
  run_line, run_lines,
}
use yodk.Nolol.Converter.Ifs.{Branch, merge_nestable_elements, cleaned, cleaned_line, block_lines}
use yodk.Nolol.Converter.Ifs.Blocks.{Passes}

-- the block of a branch, and what a try to inline it leaves
block_lines_or {ℓ} :
    (P : List ConvertedLine → Type ℓ) (c : Converter) (b : Branch)
    → P b.lines
    → P (map cleaned_line b.lines)
    → P (block_lines c b)
unfolding block_lines
block_lines_or P c b p q = either (merge_nestable_elements c b.lines)
  where
    either :
        (m : List ConvertedLine)
        → P (elim m [
          | [] ↦ b.lines
          | line ∷ [] ↦ if length line.label == 0 then map cleaned_line b.lines else b.lines
          | line ∷ next ∷ rest ↦ b.lines
        ])
    either [] = p
    either (line ∷ []) = elim (Bool-cases (length line.label == 0)) [
      | inl e ↦ rw e q
      | inr e ↦ rw e p
    ]
    either (line ∷ next ∷ rest) = p

cleaned-Passes :
    (label : Text) (lines : List ConvertedLine)
    → Passes label lines
    → Passes label (map cleaned_line lines)
cleaned-Passes label [] h = tt
cleaned-Passes label (line ∷ rest) h = (h.0, cleaned-Passes label rest h.1)

module _ {S : Type 0} (effect : LabelStatement → S → S) (test : Expression → S → Bool × S) where
  cleaned-run :
      (l : List LabelStatement) (s : S)
      → run_statements effect test (map cleaned l) s ≡ run_statements effect test l s
  unfolding run_statements run_statement
  cleaned-run [] s = refl
  cleaned-run (if_then p condition block ∷ rest) s =
      ap (λ r. proceed r (run_statements effect test (map cleaned rest)))
        (if_equal effect test p condition block s)
      ∙ proceed_equal (run_statement effect test (if_then p condition block) s) _ _
          (λ s'. cleaned-run rest s')
  cleaned-run (assign p name operator value ∷ rest) s =
      cleaned-run rest (effect (assign p name operator value) s)
  cleaned-run (change d ∷ rest) s = cleaned-run rest (effect (change d) s)
  cleaned-run (goto_label p label ∷ rest) s = refl

  cleaned_line-run :
      (line : ConvertedLine) (r : Outcome S)
      → run_line effect test r (cleaned_line line) ≡ run_line effect test r line
  unfolding run_line
  cleaned_line-run line (proceeds s) = cleaned-run line.statements s
  cleaned_line-run line (jumps label s) =
      ap (λ (r : Outcome S). if leads_to label line then r else jumps label s)
        (cleaned-run line.statements s)

  cleaned_lines-run :
      (lines : List ConvertedLine) (r : Outcome S)
      → run_lines effect test r (map cleaned_line lines) ≡ run_lines effect test r lines
  unfolding run_lines
  cleaned_lines-run [] r = refl
  cleaned_lines-run (line ∷ rest) r =
      ap (λ (o : Outcome S). run_lines effect test o (map cleaned_line rest))
        (cleaned_line-run line r)
      ∙ cleaned_lines-run rest (run_line effect test r line)

  pub block_lines-run :
      (c : Converter) (b : Branch) (r : Outcome S)
      → run_lines effect test r (block_lines c b) ≡ run_lines effect test r b.lines
  block_lines-run c b r =
      block_lines_or (λ l. run_lines effect test r l ≡ run_lines effect test r b.lines) c b refl
        (cleaned_lines-run b.lines r)

  pub block_lines-Passes :
      (c : Converter) (b : Branch) (label : Text)
      → Passes label b.lines
      → Passes label (block_lines c b)
  block_lines-Passes c b label h =
      block_lines_or (Passes label) c b h (cleaned-Passes label b.lines h)
