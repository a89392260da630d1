-- ===== src/Nolol/Converter/Ifs/Meaning.antt =====
-- pkg/nolol/converter_ifs.go: the lines of a converted if run as its conditions and blocks.
use yodk.Common.{
  ◌≡◌, refl, sym, ap, ◌∙◌, ℕ, suc, Bool, true, false, List, [], ◌∷◌, ◌++◌, Option, none, some,
  if◌then◌else◌, ◌==◌, length, arith,
}
use mathlib.Core.Path.{subst}
use yodk.Text.{Text}
use yodk.Text.Laws.{text_eq_refl}
use yodk.Ast.{unknown_position, Expression}
use yodk.Nolol.Ast.{LabelStatement, ConvertedLine}
use yodk.Nolol.Converter.{Converter, converted, ◌>>=◌, endif_label, skip_label}
use yodk.Nolol.Converter.Ensured.{Returns, Returns-bind}
use yodk.Nolol.Converter.Running.{
  Outcome, proceeds, jumps, run_statements, run_line, run_lines, run_lines-append,
}
use yodk.Nolol.Converter.Ifs.{
  Branch, made_line, convert_condition, end_label_of, convert_conditions, else_lines, convert_if,
}
use yodk.Nolol.Converter.Ifs.Blocks.{run_lines-Passes}
use yodk.Nolol.Converter.Ifs.Inlined.{finish}
use yodk.Nolol.Converter.Ifs.Jumped.{AvoidsLabel, BranchRuns}
use yodk.Nolol.Converter.Ifs.Conditions.{
  Passes-split, later_lines, LeavesIf, skip-avoided, endif-avoided, skip-endif, run_branches,
  FitsBranch, FitsIf, convert_condition-Converts,
}

abbrev endif_line : Converter → ConvertedLine
endif_line c = made_line unknown_position (endif_label c) []

-- the lines behind the last condition
abbrev last_lines : Converter → Option (List ConvertedLine) → List ConvertedLine
last_lines c else_block = else_lines else_block ++ endif_line c ∷ []

endif_nonempty : (c : Converter) → (length (endif_label c) == 0) ≡ false
endif_nonempty c = ground arith

module _ {S : Type 0} (effect : LabelStatement → S → S) (test : Expression → S → Bool × S) where
  endif-passed :
      (c : Converter) (r : Outcome S)
      → AvoidsLabel (endif_label c) r
      → run_lines effect test r (endif_line c ∷ []) ≡ r
  unfolding run_lines run_statements run_line
  endif-passed c (proceeds s) h = refl
  endif-passed c (jumps label s) h = ground (arith, h)

  endif-reached :
      (c : Converter) (s : S)
      → run_lines effect test (jumps (endif_label c) s) (endif_line c ∷ []) ≡ proceeds s
  unfolding run_lines run_statements run_line
  endif-reached c s = rw (text_eq_refl (endif_label c), endif_nonempty c) refl

  split_run :
      (r : Outcome S) (a b t : List ConvertedLine)
      → run_lines effect test r ((a ++ b) ++ t)
        ≡ run_lines effect test (run_lines effect test r a) (b ++ t)
  split_run r a b t =
      run_lines-append effect test r (a ++ b) t
      ∙ ap (λ (o : Outcome S). run_lines effect test o t) (run_lines-append effect test r a b)
      ∙ sym (run_lines-append effect test (run_lines effect test r a) b t)

  -- How the code of some conditions runs, with the lines behind it: from its start, at a jump to the end
  -- of the if, and at a jump to a label that it does not have.
  record IfRuns (c : Converter) (branches : List Branch) (else_block : Option (List ConvertedLine))
      (lines : List ConvertedLine) : Type 0 where
    runs :
        (s : S)
        → run_lines effect test (proceeds s) (lines ++ last_lines c else_block)
          ≡ run_branches effect test branches else_block s
    ends :
        (s : S)
        → run_lines effect test (jumps (endif_label c) s) (lines ++ last_lines c else_block)
          ≡ proceeds s
    passes :
        (label : Text) (s : S)
        → LeavesIf {S = S} c (later_lines branches else_block) (jumps label s)
        → run_lines effect test (jumps label s) (lines ++ last_lines c else_block) ≡ jumps label s

  no_condition-IfRuns :
      (c : Converter) (index : ℕ) (else_block : Option (List ConvertedLine))
      → FitsIf effect test c index [] else_block
      → IfRuns c [] else_block []
  unfolding run_branches
  no_condition-IfRuns c index else_block h =
      let end = endif_line c ∷ [] in
      let lines = else_lines else_block in
      let behind = λ (r : Outcome S). run_lines effect test r end in
      record {
        runs = λ s.
            run_lines-append effect test (proceeds s) lines end
            ∙ endif-passed c (run_lines effect test (proceeds s) lines)
                (endif-avoided c [] _ (h.1 s));
        ends = λ s.
            run_lines-append effect test (jumps (endif_label c) s) lines end
            ∙ ap behind (run_lines-Passes effect test (endif_label c) s lines h.0)
            ∙ endif-reached c s;
        passes = λ label s l.
            run_lines-append effect test (jumps label s) lines end
            ∙ ap behind (run_lines-Passes effect test label s lines l.2)
            ∙ endif-passed c (jumps label s) l.0;
      }

  -- a block, with the jump to the end, in front of the other conditions
  finish-run :
      (c : Converter) (rest : List Branch) (else_block : Option (List ConvertedLine))
      (more : List ConvertedLine) (r : Outcome S)
      → IfRuns c rest else_block more
      → LeavesIf c (later_lines rest else_block) r
      → run_lines effect test
          (finish (end_label_of else_block rest (endif_label c)) r)
          (more ++ last_lines c else_block)
        ≡ r
  unfolding run_branches run_lines
  finish-run c rest (some lines) more (proceeds s) i l = rw (endif_nonempty c) (i.ends s)
  finish-run c (b ∷ rest) none more (proceeds s) i l = rw (endif_nonempty c) (i.ends s)
  finish-run c [] none more (proceeds s) i l = i.runs s
  finish-run c rest else_block more (jumps label s) i l = i.passes label s l

  condition-IfRuns :
      (c : Converter) (index : ℕ) (b : Branch) (rest : List Branch)
      (else_block : Option (List ConvertedLine)) (lines more : List ConvertedLine)
      → FitsBranch effect test c index b (later_lines rest else_block)
      → BranchRuns effect test c b index (end_label_of else_block rest (endif_label c)) lines
      → IfRuns c rest else_block more
      → IfRuns c (b ∷ rest) else_block (lines ++ more)
  unfolding run_branches
  condition-IfRuns c index b rest else_block lines more f h i =
      let last = last_lines c else_block in
      let behind = λ (r : Outcome S). run_lines effect test r (more ++ last) in
      record {
        runs = λ s.
            split_run (proceeds s) lines more last
            ∙ ap behind (h.0 s)
            ∙ chosen (test b.condition s).0 (test b.condition s).1;
        ends = λ s.
            split_run (jumps (endif_label c) s) lines more last
            ∙ ap behind (
                run_lines-Passes effect test (endif_label c) s lines
                  (h.1 (endif_label c) (skip-endif c index (some []) []) f.no_endif))
            ∙ i.ends s;
        passes = λ label s l.
            let p = Passes-split label b.lines (later_lines rest else_block) l.2 in
            split_run (jumps label s) lines more last
            ∙ ap behind (run_lines-Passes effect test label s lines (h.1 label (l.1 index) p.0))
            ∙ i.passes label s (l.0, l.1, p.1);
      }
    where
      chosen :
          (t : Bool) (s : S)
          → run_lines effect test
              (if t
                then finish
                    (end_label_of else_block rest (endif_label c))
                    (run_lines effect test (proceeds s) b.lines)
                else proceeds s)
              (more ++ last_lines c else_block)
            ≡ (if t
                then run_lines effect test (proceeds s) b.lines
                else run_branches effect test rest else_block s)
      chosen true s =
          finish-run c rest else_block more (run_lines effect test (proceeds s) b.lines) i
            (f.leaves s)
      chosen false s = i.runs s

  converted-IfRuns :
      (c : Converter) (index : ℕ) (branches : List Branch)
      (else_block : Option (List ConvertedLine))
      → FitsIf effect test c index branches else_block
      → Returns
          (λ lines c'. (c' ≡ c) × IfRuns c branches else_block lines)
          (convert_conditions else_block index branches c)
  unfolding convert_conditions
  converted-IfRuns c index [] else_block h = (refl, no_condition-IfRuns c index else_block h)
  converted-IfRuns c index (b ∷ rest) else_block h =
      let f = h.0 in
      let endlabel = end_label_of else_block rest (endif_label c) in
      let own = skip_label c index in
      Returns-bind (λ lines c'. (c' ≡ c) × BranchRuns effect test c b index endlabel lines) _
        (convert_condition c b index endlabel) _
        (convert_condition-Converts effect test c b index endlabel f.merges f.inverts (
          f.no_skip,
          skip-endif c index else_block rest,
          λ s. skip-avoided c (later_lines rest else_block) index _ (f.leaves s),
        ))
        (λ lines c₁ p.
          subst
            (λ c₂.
              Returns (λ l c'. (c' ≡ c) × IfRuns c (b ∷ rest) else_block l)
                (convert_conditions else_block (suc index) rest c₂
                  >>= (λ x. converted (lines ++ x.0) x.1)))
            (sym p.0)
            (Returns-bind (λ l c'. (c' ≡ c) × IfRuns c rest else_block l) _
              (convert_conditions else_block (suc index) rest c) _
              (converted-IfRuns c (suc index) rest else_block h.1)
              (λ more c₂ q.
                (q.0, condition-IfRuns c index b rest else_block lines more f p.1 q.1))))

  -- Of an if whose blocks have lines that can be merged, have no label of the if, and do not jump to such a
  -- label or into later blocks, and whose conditions the optimizer turns to their opposites, the converted
  -- lines run as the if: they test the conditions in order and run the block of the first that holds, or
  -- the else-block. That is so whichever conditions become ifs of one line, and which become gotos. The
  -- conversion does not fail, and the counter of the labels of ifs is increased by one.
  pub convert_if-run :
      (c : Converter) (branches : List Branch) (else_block : Option (List ConvertedLine))
      → FitsIf effect test c 0 branches else_block
      → Returns
          (λ lines c'.
            (c' ≡ record c { iflabelcounter = suc c.iflabelcounter })
            × ((s : S)
                → run_lines effect test (proceeds s) lines
                  ≡ run_branches effect test branches else_block s))
          (convert_if branches else_block c)
  unfolding convert_if
  convert_if-run c branches else_block h =
      Returns-bind (λ lines c'. (c' ≡ c) × IfRuns c branches else_block lines) _
        (convert_conditions else_block 0 branches c) _ (converted-IfRuns c 0 branches else_block h)
        (λ lines c₁ p. (
          ap (λ (x : Converter). record x { iflabelcounter = suc x.iflabelcounter }) p.0,
          λ s. p.1.runs s,
        ))
