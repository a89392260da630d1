-- ===== src/Nolol/Converter/Loops/Meaning.antt =====
-- pkg/nolol/converter_loops.go: the lines of a converted loop run as its condition and its block.
use yodk.Common.{
  ◌≡◌, refl, sym, ap, ◌∙◌, ℕ, Bool, true, false, List, [], ◌∷◌, ◌++◌, if◌then◌else◌, ◌==◌, length,
  Bool-cases, inl, inr, arith,
}
use yodk.Text.{codes, text_eq}
use yodk.Text.Laws.{text_eq_refl}
use yodk.Ast.{Position, unknown_position, Expression, unary_operation}
use yodk.Ast.Positions.{start}
use yodk.Ast.Visitor.{accepted}
use yodk.Vm.Decimals.{Decimals}
use yodk.Optimizers.Static
use yodk.Optimizers.Inversion
use yodk.Nolol.Ast.{LabelStatement, if_then, goto_label, ConvertedLine, block_of}
use yodk.Nolol.Converter.{Converter, while_label, endwhile_label}
use yodk.Nolol.Converter.Ensured.{Returns, Returns-bind}
use yodk.Nolol.Converter.Running.{
  Outcome, proceeds, jumps, run_statement, run_statements, run_line, run_lines, run_lines-append,
}
use yodk.Nolol.Converter.Ifs.{made_line}
use yodk.Nolol.Converter.Ifs.Blocks.{Passes, run_lines-Passes}
use yodk.Nolol.Converter.Ifs.Jumped.{Negates}
use yodk.Nolol.Converter.Loops.{is_always_true, check_condition, convert_while_loop}

while_nonempty : (n : ℕ) → (length (while_label n) == 0) ≡ false
while_nonempty n = ground arith

endwhile_nonempty : (n : ℕ) → (length (endwhile_label n) == 0) ≡ false
endwhile_nonempty n = ground arith

endwhile-while : (n : ℕ) → text_eq (endwhile_label n) (while_label n) ≡ false
unfolding text_eq
endwhile-while n = ground arith

-- What becomes of the body: at its end the loop is begun again, and `break` leaves it.
abbrev pub repeat : {S : Type 0} → ℕ → Outcome S → Outcome S
repeat n (proceeds s) = jumps (while_label n) s
repeat n (jumps label s) = if text_eq (endwhile_label n) label then proceeds s else jumps label s

module _ {S : Type 0} (effect : LabelStatement → S → S) (test : Expression → S → Bool × S) where
  -- One iteration: the condition is tested, and the block is run if it holds.
  abbrev pub run_iteration : ℕ → Expression → List ConvertedLine → S → Outcome S
  run_iteration n condition lines s =
      let t = test condition s in
      if t.0 then repeat n (run_lines effect test (proceeds t.1) lines) else proceeds t.1

  -- the lines behind the block
  abbrev behind_body : ℕ → Position → List ConvertedLine
  behind_body n position =
      made_line unknown_position [] (goto_label unknown_position (while_label n) ∷ [])
      ∷ made_line position (endwhile_label n) []
      ∷ []

  behind_body-run :
      (n : ℕ) (position : Position) (r : Outcome S)
      → run_lines effect test r (behind_body n position) ≡ repeat n r
  unfolding run_lines run_line run_statements run_statement
  behind_body-run n position (proceeds s) = rw (endwhile-while n) (ground arith)
  behind_body-run n position (jumps label s) =
      elim (Bool-cases (text_eq (endwhile_label n) label)) [
        | inl e ↦ rw (e, endwhile_nonempty n) refl
        | inr e ↦ rw (e, endwhile_nonempty n) refl
      ]

  -- the test at the start of the loop
  abbrev Checks : ℕ → Expression → List LabelStatement → Type 0
  Checks n condition check =
      (s : S)
      → run_statements effect test check s ≡ (
          if (test condition s).0
          then proceeds (test condition s).1
          else jumps (endwhile_label n) (test condition s).1)

  abbrev loop_lines : ℕ → Position → List LabelStatement → List ConvertedLine → List ConvertedLine
  loop_lines n position check lines =
      made_line position (while_label n) check ∷ (lines ++ behind_body n position)

  tested-run :
      (n : ℕ) (position : Position) (lines : List ConvertedLine) (t : Bool) (s : S)
      → Passes (endwhile_label n) lines
      → run_lines effect test
          (if t then proceeds s else jumps (endwhile_label n) s)
          (lines ++ behind_body n position)
        ≡ (if t then repeat n (run_lines effect test (proceeds s) lines) else proceeds s)
  tested-run n position lines true s h =
      run_lines-append effect test (proceeds s) lines (behind_body n position)
      ∙ behind_body-run n position (run_lines effect test (proceeds s) lines)
  tested-run n position lines false s h =
      run_lines-append effect test (jumps (endwhile_label n) s) lines (behind_body n position)
      ∙ ap (λ (r : Outcome S). run_lines effect test r (behind_body n position))
          (run_lines-Passes effect test (endwhile_label n) s lines h)
      ∙ behind_body-run n position (jumps (endwhile_label n) s)
      ∙ rw (text_eq_refl (endwhile_label n)) refl

  -- Running the lines of a loop, from the line before and from a jump to its start
  abbrev pub LoopRuns : ℕ → Expression → List ConvertedLine → List ConvertedLine → Type 0
  LoopRuns n condition lines code =
      (s : S)
      → (run_lines effect test (proceeds s) code ≡ run_iteration n condition lines s)
        × (run_lines effect test (jumps (while_label n) s) code ≡ run_iteration n condition lines s)

  start-entered :
      (n : ℕ) (position : Position) (check : List LabelStatement) (s : S)
      → run_line effect test (jumps (while_label n) s) (made_line position (while_label n) check)
        ≡ run_statements effect test check s
  unfolding run_line
  start-entered n position check s = rw (text_eq_refl (while_label n), while_nonempty n) refl

  loop_lines-LoopRuns :
      (n : ℕ) (position : Position) (condition : Expression) (check : List LabelStatement)
      (lines : List ConvertedLine)
      → Checks n condition check
      → Passes (endwhile_label n) lines
      → LoopRuns n condition lines (loop_lines n position check lines)
  unfolding run_lines run_line
  loop_lines-LoopRuns n position condition check lines h p = λ s.
      let rest = lines ++ behind_body n position in
      let iterates =
        ap (λ (r : Outcome S). run_lines effect test r rest) (h s)
        ∙ tested-run n position lines (test condition s).0 (test condition s).1 p in
      (
        iterates,
        ap (λ (r : Outcome S). run_lines effect test r rest) (start-entered n position check s)
            ∙ iterates,
      )

  module _ {N : Type 0} (D : Decimals N) where
    -- What the optimizers make of the condition tests the same, or the opposite; a constant that is not
    -- zero always holds.
    pub record FitsLoop (condition folded opposite : Expression) : Type 0 where
      pub folds : Static.optimize_expression D condition ≡ accepted folded tt
      pub same : (s : S) → test folded s ≡ test condition s
      pub always : is_always_true D folded ≡ true → (s : S) → test folded s ≡ (true, s)
      pub inverts :
          Inversion.optimize_expression (unary_operation (start folded) (codes "not") folded)
          ≡ accepted opposite tt
      pub negates : Negates effect test opposite folded

    opposite-Checks :
        (n : ℕ) (position p : Position) (condition opposite : Expression)
        → Negates effect test opposite condition
        → Checks n condition
            (if_then p opposite (block_of (goto_label position (endwhile_label n) ∷ [])) ∷ [])
    unfolding run_statements run_statement
    opposite-Checks n position p condition opposite h s = elim (Bool-cases (test condition s).0) [
      | inl e ↦ rw (h s, e) refl
      | inr e ↦ rw (h s, e) refl
    ]

    check_condition-Checks :
        (n : ℕ) (position p : Position) (condition folded opposite : Expression) (c : Converter)
        → FitsLoop condition folded opposite
        → Returns
            (λ check c'. (c' ≡ c) × Checks n condition check)
            (check_condition D position p (endwhile_label n) folded c)
    unfolding check_condition run_statements
    check_condition-Checks n position p condition folded opposite c f =
        elim (Bool-cases (is_always_true D folded)) [
          | inl e ↦ rw e (refl, λ s. rw (sym (f.same s), f.always e s) refl)
          | inr e ↦
              rw (e, f.inverts)
                (
                  refl,
                  λ s.
                      opposite-Checks n position p folded opposite f.negates s ∙ rw (f.same s) refl,
                )
        ]

    -- The code of a loop whose block does not have the label of the loop's end, and whose condition the
    -- optimizers keep and turn to its opposite, where a constant that is not zero always holds: going
    -- through it once is one iteration, from the line before it and from a jump to its start. The condition
    -- is tested; if it holds the block runs, and then the loop is begun again, unless the block has jumped
    -- elsewhere or to the end of the loop; if it does not hold, the lines behind the loop are next. The
    -- conversion does not fail.
    pub convert_while_loop-run :
        (n : ℕ) (position : Position) (condition folded opposite : Expression)
        (lines : List ConvertedLine) (c : Converter)
        → FitsLoop condition folded opposite
        → Passes (endwhile_label n) lines
        → Returns
            (λ code c'. (c' ≡ c) × LoopRuns n condition lines code)
            (convert_while_loop D n position condition lines c)
    unfolding convert_while_loop
    convert_while_loop-run n position condition folded opposite lines c f h = rw f.folds (
        Returns-bind (λ check c'. (c' ≡ c) × Checks n condition check) _
          (check_condition D position (start condition) (endwhile_label n) folded c) _
          (check_condition-Checks n position (start condition) condition folded opposite c f)
          (λ check c₁ p. (p.0, loop_lines-LoopRuns n position condition check lines p.1 h)))
