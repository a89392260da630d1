-- ===== src/Nolol/Converter/Ifs/Blocks.antt =====
-- pkg/nolol/converter_ifs.go: how a condition runs with its block, as an if of one line and as gotos.
use yodk.Common.{
  ◌≡◌, refl, sym, ap, ◌∙◌, ℕ, Bool, true, false, List, [], ◌∷◌, ◌++◌, if◌then◌else◌, ◌==◌, length,
  ltb,
}
use yodk.Text.{Text}
use yodk.Ast.{Expression}
use yodk.Nolol.Ast.{LabelStatement, ConvertedLine, block_of}
use yodk.Nolol.Merging.{
  Merged, merged, too_long, merge_from, after_line, new_line, append_line, appends,
}
use yodk.Nolol.Converter.Gotos.Duplicates.{and_left}
use yodk.Nolol.Converter.Running.{
  Outcome, proceeds, jumps, proceed, proceed_equal, leads_to, run_statement, run_block,
  run_statements, run_line, run_lines, run_statements-append,
}

-- no line has the label
abbrev pub Passes : Text → List ConvertedLine → Type 0
Passes label [] = Unit
Passes label (line ∷ rest) = (leads_to label line ≡ false) × Passes label rest

pub Passes-append :
    (label : Text) (a b : List ConvertedLine)
    → Passes label a
    → Passes label b
    → Passes label (a ++ b)
Passes-append label [] b p q = q
Passes-append label (line ∷ rest) b p q = (p.0, Passes-append label rest b p.1 q)

module _ {S : Type 0} (effect : LabelStatement → S → S) (test : Expression → S → Bool × S) where
  pub run_lines-Passes :
      (label : Text) (s : S) (lines : List ConvertedLine)
      → Passes label lines
      → run_lines effect test (jumps label s) lines ≡ jumps label s
  unfolding run_lines
  run_lines-Passes label s [] p = refl
  run_lines-Passes label s (line ∷ rest) p = rw p.0 (run_lines-Passes label s rest p.1)

  pub run_block-block_of :
      (l : List LabelStatement) (s : S)
      → run_block effect test (block_of l) s ≡ run_statements effect test l s
  unfolding run_statement run_statements
  run_block-block_of [] s = refl
  run_block-block_of (first ∷ rest) s =
      proceed_equal (run_statement effect test first s) _ _ (λ s'. run_block-block_of rest s')

  unlabelled_line :
      (line : ConvertedLine) (r : Outcome S)
      → (length line.label == 0) ≡ true
      → run_line effect test r line ≡ proceed r (run_statements effect test line.statements)
  unfolding run_line
  unlabelled_line line (proceeds s) h = refl
  unlabelled_line line (jumps label s) h = rw h refl

  -- What merging makes of a line and those behind it: some line, and if it is one, it runs as they do.
  abbrev pub RunsAlike : ConvertedLine → List ConvertedLine → Merged LabelStatement → Type 0
  RunsAlike current rest (merged []) = ⊥
  RunsAlike current rest (merged (line ∷ [])) =
      (s : S)
      → run_statements effect test line.statements s
        ≡ run_lines effect test (run_statements effect test current.statements s) rest
  RunsAlike current rest (merged (line ∷ next ∷ more)) = Unit
  RunsAlike current rest (too_long lines) = Unit

  after_line-RunsAlike :
      (current line next : ConvertedLine) (rest all : List ConvertedLine)
      (r : Merged LabelStatement)
      → RunsAlike next rest r
      → RunsAlike current all (after_line line r)
  after_line-RunsAlike current line next rest all (merged []) h = absurd h
  after_line-RunsAlike current line next rest all (merged (x ∷ [])) h = tt
  after_line-RunsAlike current line next rest all (merged (x ∷ y ∷ more)) h = tt
  after_line-RunsAlike current line next rest all (too_long lines) h = tt

  appended-RunsAlike :
      (current line : ConvertedLine) (rest : List ConvertedLine) (r : Merged LabelStatement)
      → (length line.label == 0) ≡ true
      → RunsAlike (append_line current line) rest r
      → RunsAlike current (line ∷ rest) r
  unfolding run_lines
  appended-RunsAlike current line rest (merged []) e h = h
  appended-RunsAlike current line rest (merged (x ∷ [])) e h = λ s.
      h s
      ∙ ap (λ (o : Outcome S). run_lines effect test o rest)
          (run_statements-append effect test current.statements line.statements s
            ∙ sym (unlabelled_line line (run_statements effect test current.statements s) e))
  appended-RunsAlike current line rest (merged (x ∷ y ∷ more)) e h = tt
  appended-RunsAlike current line rest (too_long lines) e h = tt

  unless_closed :
      (current line : ConvertedLine) (rest : List ConvertedLine) (closed long joins : Bool)
      (next longer : Merged LabelStatement)
      → RunsAlike current (line ∷ rest) next
      → (joins ≡ true → RunsAlike current (line ∷ rest) longer)
      → RunsAlike current (line ∷ rest) (
          if closed
          then next
          else if long
          then too_long (current ∷ [])
          else if joins
          then longer
          else next)
  unless_closed current line rest true long joins next longer h k = h
  unless_closed current line rest false true joins next longer h k = tt
  unless_closed current line rest false false true next longer h k = k refl
  unless_closed current line rest false false false next longer h k = h

  module _ (line_length : List LabelStatement → ℕ) (max : ℕ) where
    pub merge_from-RunsAlike :
        (current : ConvertedLine) (closed : Bool) (rest : List ConvertedLine)
        → RunsAlike current rest (merge_from line_length max current closed rest)
    unfolding merge_from run_lines
    merge_from-RunsAlike current closed [] = λ s. refl
    merge_from-RunsAlike current closed (line ∷ rest) =
        unless_closed current line rest closed (ltb max (line_length current.statements))
          (appends line_length max current line)
          (after_line current (merge_from line_length max (new_line line) line.has_eol rest))
          (merge_from line_length max (append_line current line) line.has_eol rest)
          (after_line-RunsAlike current current (new_line line) rest (line ∷ rest) _
            (merge_from-RunsAlike (new_line line) line.has_eol rest))
          (λ e.
            appended-RunsAlike current line rest _ (and_left (length line.label == 0) _ e)
              (merge_from-RunsAlike (append_line current line) line.has_eol rest))
