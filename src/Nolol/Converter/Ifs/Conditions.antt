-- ===== src/Nolol/Converter/Ifs/Conditions.antt =====
-- pkg/nolol/converter_ifs.go: what an if and its blocks need to keep to, and how a condition runs.
use yodk.Common.{
  ◌≡◌, refl, ℕ, suc, Bool, false, List, [], ◌∷◌, ◌++◌, Option, none, some, if◌then◌else◌, arith,
}
use yodk.Text.{Text, text_eq}
use yodk.Ast.{Expression}
use yodk.Nolol.Ast.{LabelStatement, ConvertedLine}
use yodk.Nolol.Converter.{Converter, converted, endif_label, skip_label}
use yodk.Nolol.Converter.Running.{Outcome, proceeds, jumps, run_line, run_lines}
use yodk.Nolol.Converter.Ifs.{
  Branch, merge_nestable_elements, convert_condition, convert_condition_inline,
  convert_condition_multiline, end_label_of, else_lines,
}
use yodk.Nolol.Converter.Ifs.Blocks.{Passes}
use yodk.Nolol.Converter.Ifs.Inlined.{IsSome, InlineRuns, convert_condition_inline-InlineRuns}
use yodk.Nolol.Converter.Ifs.Jumped.{
  AvoidsLabel, IsFreshFor, IsInverted, Converts, convert_condition_multiline-Converts,
}

pub Passes-split :
    (label : Text) (a b : List ConvertedLine)
    → Passes label (a ++ b)
    → Passes label a × Passes label b
Passes-split label [] b p = (tt, p)
Passes-split label (line ∷ rest) b p = let q = Passes-split label rest b p.1 in ((p.0, q.0), q.1)

unlabelled-Passes :
    (label : Text) (line : ConvertedLine) → line.label ≡ [] → Passes label (line ∷ [])
unlabelled-Passes label line h = (rw h refl, tt)

-- the blocks behind a block
abbrev pub later_lines : List Branch → Option (List ConvertedLine) → List ConvertedLine
later_lines [] else_block = else_lines else_block
later_lines (b ∷ rest) else_block = b.lines ++ later_lines rest else_block

-- A block proceeds, or jumps to a label that neither the if itself nor a block behind it has.
abbrev pub LeavesIf : {S : Type 0} → Converter → List ConvertedLine → Outcome S → Type 0
LeavesIf c later (proceeds s) = Unit
LeavesIf c later (jumps label s) =
    (text_eq (endif_label c) label ≡ false)
    × ((j : ℕ) → text_eq (skip_label c j) label ≡ false)
    × Passes label later

pub skip-avoided :
    {S : Type 0} (c : Converter) (later : List ConvertedLine) (index : ℕ) (r : Outcome S)
    → LeavesIf c later r
    → AvoidsLabel (skip_label c index) r
skip-avoided c later index (proceeds s) h = tt
skip-avoided c later index (jumps label s) h = h.1 index

pub endif-avoided :
    {S : Type 0} (c : Converter) (later : List ConvertedLine) (r : Outcome S)
    → LeavesIf c later r
    → AvoidsLabel (endif_label c) r
endif-avoided c later (proceeds s) h = tt
endif-avoided c later (jumps label s) h = h.0

pub skip-endif :
    (c : Converter) (index : ℕ) (else_block : Option (List ConvertedLine)) (rest : List Branch)
    → text_eq (skip_label c index) (end_label_of else_block rest (endif_label c)) ≡ false
unfolding text_eq
skip-endif c index (some lines) rest = ground arith
skip-endif c index none [] = ground arith
skip-endif c index none (b ∷ rest) = ground arith

module _ {S : Type 0} (effect : LabelStatement → S → S) (test : Expression → S → Bool × S) where
  -- An if tests its conditions one after the other, and runs the block of the first that holds.
  unfoldable pub run_branches : List Branch → Option (List ConvertedLine) → S → Outcome S
  run_branches [] else_block s = run_lines effect test (proceeds s) (else_lines else_block)
  run_branches (b ∷ rest) else_block s =
      let t = test b.condition s in
      let others = run_branches rest else_block t.1 in
      if t.0 then run_lines effect test (proceeds t.1) b.lines else others

  -- A block of an if: it has lines that can be merged, its condition has an opposite, it has no label of
  -- the if, and it does not jump to a block behind it.
  pub record FitsBranch (c : Converter) (index : ℕ) (b : Branch) (later : List ConvertedLine)
      : Type 0 where
    pub merges : IsSome (merge_nestable_elements c b.lines)
    pub inverts : IsInverted effect test b.condition
    pub no_endif : Passes (endif_label c) b.lines
    pub no_skip : Passes (skip_label c index) b.lines
    pub leaves : (s : S) → LeavesIf c later (run_lines effect test (proceeds s) b.lines)

  abbrev pub FitsIf : Converter → ℕ → List Branch → Option (List ConvertedLine) → Type 0
  FitsIf c index [] else_block =
      Passes (endif_label c) (else_lines else_block)
      × ((s : S) → LeavesIf c [] (run_lines effect test (proceeds s) (else_lines else_block)))
  FitsIf c index (b ∷ rest) else_block =
      FitsBranch c index b (later_lines rest else_block) × FitsIf c (suc index) rest else_block

  pub convert_condition-Converts :
      (c : Converter) (b : Branch) (index : ℕ) (endlabel : Text)
      → IsSome (merge_nestable_elements c b.lines)
      → IsInverted effect test b.condition
      → IsFreshFor effect test (skip_label c index) b endlabel
      → Converts effect test c b index endlabel (convert_condition c b index endlabel)
  unfolding convert_condition run_lines run_line
  convert_condition-Converts c b index endlabel m n f =
      either (convert_condition_inline c b endlabel)
        (convert_condition_inline-InlineRuns effect test c b endlabel m)
    where
      either :
          (r : Option ConvertedLine)
          → InlineRuns effect test b endlabel r
          → Converts effect test c b index endlabel (elim r [
            | some line ↦ converted (line ∷ []) c
            | none ↦ convert_condition_multiline c b index endlabel
          ])
      either (some line) h = (refl, (h.1, λ label e p. unlabelled-Passes label line h.0))
      either none h = convert_condition_multiline-Converts effect test c b index endlabel f n
