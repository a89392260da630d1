-- ===== src/Nolol/Converter/Gotos/Duplicates.antt =====
-- pkg/nolol/converter_gotos.go: removeDuplicateGotos removes what is never reached.
use yodk.Common.{
  ◌≡◌, refl, ap, ◌∙◌, ℕ, zero, suc, Bool, true, false, ◌&&◌, List, [], ◌∷◌, if◌then◌else◌, ◌==◌,
  length, Bool-cases, inl, inr, arith,
}
use yodk.Ast.{Position, Expression}
use yodk.Nolol.Ast.{
  LabelStatement, LabelStatements, assign, if_then, change, goto_label, no_statement, statement,
  ConvertedLine,
}
use yodk.Nolol.Converter.Gotos.{
  without_duplicate, without_duplicates_in, without_duplicates, remove_duplicate_gotos,
}
use yodk.Nolol.Converter.Running.{
  Outcome, proceeds, jumps, proceed, proceed_equal, leads_to, run_statement, run_block,
  run_statements, run_line, run_lines, run_rounds,
}

abbrev Jumps : {S : Type 0} → Outcome S → Type 0
Jumps (proceeds s) = ⊥
Jumps (jumps label s) = Unit

proceed-Jumps :
    {S : Type 0} (r : Outcome S) (k : S → Outcome S) → ((s : S) → Jumps (k s)) → Jumps (proceed r k)
proceed-Jumps (proceeds s) k h = h s
proceed-Jumps (jumps label s) k h = tt

pub and_left : (a b : Bool) → (a && b) ≡ true → a ≡ true
and_left a b h = ground (arith, h)

pub and_right : (a b : Bool) → (a && b) ≡ true → b ≡ true
and_right a b h = ground (arith, h)

module _ {S : Type 0} (effect : LabelStatement → S → S) (test : Expression → S → Bool × S) where
  -- in the block of an if
  pub without_duplicates_in_lem :
      (block : LabelStatements) (s : S)
      → run_block effect test (without_duplicates_in block false) s ≡ run_block effect test block s
  unfolding run_statement without_duplicate
  without_duplicates_in_lem no_statement s = refl
  without_duplicates_in_lem (statement (goto_label p label) rest) s = refl
  without_duplicates_in_lem (statement (assign p name operator value) rest) s =
      without_duplicates_in_lem rest (effect (assign p name operator value) s)
  without_duplicates_in_lem (statement (change d) rest) s =
      without_duplicates_in_lem rest (effect (change d) s)
  without_duplicates_in_lem (statement (if_then p condition block) rest) s =
      let t = test condition s in
      ap
        (λ (r : Outcome S).
          proceed (if t.0 then r else proceeds t.1)
            (run_block effect test (without_duplicates_in rest false)))
        (without_duplicates_in_lem block t.1)
      ∙ proceed_equal (run_statement effect test (if_then p condition block) s) _ _
          (λ s'. without_duplicates_in_lem rest s')

  pub if_equal :
      (p : Position) (condition : Expression) (block : LabelStatements) (s : S)
      → run_statement effect test (if_then p condition (without_duplicates_in block false)) s
        ≡ run_statement effect test (if_then p condition block) s
  unfolding run_statement
  if_equal p condition block s =
      let t = test condition s in
      ap (λ (r : Outcome S). if t.0 then r else proceeds t.1) (without_duplicates_in_lem block t.1)

  -- the statements of a line that is reached; behind a last goto nothing is
  without_duplicates_lem :
      (l : List LabelStatement) (s : S)
      → (run_statements effect test ((without_duplicates l false).0) s
          ≡ run_statements effect test l s)
        × ((without_duplicates l false).1 ≡ true → Jumps (run_statements effect test l s))
  unfolding run_statements run_statement without_duplicates without_duplicate
  without_duplicates_lem [] s = (refl, λ e. absurd (cc e))
  without_duplicates_lem (goto_label p label ∷ rest) s = (refl, λ e. tt)
  without_duplicates_lem (assign p name operator value ∷ rest) s =
      without_duplicates_lem rest (effect (assign p name operator value) s)
  without_duplicates_lem (change d ∷ rest) s = without_duplicates_lem rest (effect (change d) s)
  without_duplicates_lem (if_then p condition block ∷ rest) s =
      let ran = run_statement effect test (if_then p condition block) s in
      (
        ap
              (λ (r : Outcome S).
                proceed r (run_statements effect test ((without_duplicates rest false).0)))
              (if_equal p condition block s)
            ∙ proceed_equal ran _ _ (λ s'. (without_duplicates_lem rest s').0),
        λ e. proceed-Jumps ran _ (λ s'. (without_duplicates_lem rest s').1 e),
      )

  -- a line; nothing is removed at its start unless it is only passed
  line_lem :
      (line : ConvertedLine) (b : Bool) (r : Outcome S)
      → (b ≡ true → Jumps r × ((length line.label == 0) ≡ true))
      → (run_line effect test r
            (record line { statements = (without_duplicates line.statements b).0 })
          ≡ run_line effect test r line)
        × ((without_duplicates line.statements b).1 ≡ true → Jumps (run_line effect test r line))
  unfolding run_line
  line_lem line true (proceeds s) h = absurd ((h refl).0)
  line_lem line true (jumps label s) h = rw (h refl).1 (refl, λ e. tt)
  line_lem line false (proceeds s) h = without_duplicates_lem line.statements s
  line_lem line false (jumps label s) h = elim (Bool-cases (leads_to label line)) [
    | inl e ↦ rw e (without_duplicates_lem line.statements s)
    | inr e ↦ rw e (refl, λ d. tt)
  ]

  lines_lem :
      (lines : List ConvertedLine) (b : Bool) (r : Outcome S)
      → (b ≡ true → Jumps r)
      → run_lines effect test r (remove_duplicate_gotos lines b) ≡ run_lines effect test r lines
  unfolding run_lines remove_duplicate_gotos
  lines_lem [] b r h = refl
  lines_lem (line ∷ rest) b r h =
      let b' : Bool = b && (length line.label == 0) in
      let w = without_duplicates line.statements b' in
      let step = line_lem line b' r (λ e.
        (h (and_left b (length line.label == 0) e), and_right b (length line.label == 0) e)) in
      ap (λ o. run_lines effect test o (remove_duplicate_gotos rest w.1)) step.0
      ∙ lines_lem rest w.1 (run_line effect test r line) step.1

  -- A program runs as before when removeDuplicateGotos has removed gotos, from its start and from every
  -- label, however often it is gone through.
  pub remove_duplicate_gotos-run_rounds :
      (n : ℕ) (r : Outcome S) (lines : List ConvertedLine)
      → run_rounds effect test n r (remove_duplicate_gotos lines false)
        ≡ run_rounds effect test n r lines
  unfolding run_rounds
  remove_duplicate_gotos-run_rounds zero r lines = refl
  remove_duplicate_gotos-run_rounds (suc n) r lines =
      ap (λ o. run_rounds effect test n o (remove_duplicate_gotos lines false))
        (lines_lem lines false r (λ e. absurd (cc e)))
      ∙ remove_duplicate_gotos-run_rounds n (run_lines effect test r lines) lines
