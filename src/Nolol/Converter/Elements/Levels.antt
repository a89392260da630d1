-- ===== src/Nolol/Converter/Elements/Levels.antt =====
-- pkg/nolol/converter.go: the loops that a statement stands in, and the numbers of loops.
use yodk.Common.{◌≡◌, refl, sym, ap, ◌∙◌, ℕ, suc, List, [], ◌∷◌, Option, none, some, arith}
use mathlib.Core.Path.{subst}
use yodk.Text.{Text}
use yodk.Ast.{Position, Expression}
use yodk.Vm.Decimals.{Decimals}
use yodk.Nolol.Ast.{
  NololExpression, Element, statement_line, definition, wait_directive, multiline_if, while_loop,
  Block, no_element, element, Branches, no_branch, branch, ElseElements, no_else_elements,
  else_elements, LabelStatement, ConvertedLine,
}
use yodk.Nolol.Converter.{Converter, Converted, converted, ◌>>=◌, set_definition}
use yodk.Nolol.Converter.Stays.{
  StaysIn, stays, binds, stays_rules, optimized-StaysIn, binds_equal, binds_after,
  convert_expression-StaysIn, convert_statements-StaysIn,
}
use yodk.Nolol.Converter.Expressions.{convert_expression}
use yodk.Nolol.Converter.Ifs.{
  Branch, convert_if, convert_conditions, convert_condition, convert_condition_inline,
  convert_condition_multiline,
}
use yodk.Nolol.Converter.Loops.{convert_wait, convert_while_loop, check_condition}
use yodk.Nolol.Converter.Elements.{
  convert_element, convert_block, convert_branches, convert_else, enter_loop, leave_loop, in_loop,
}

convert_wait-StaysIn :
    (p : Position) (e : Expression) (s : List LabelStatement) (c : Converter)
    → StaysIn c (convert_wait p e s c)
unfolding convert_wait
convert_wait-StaysIn p e s c = search stays_rules

convert_condition_multiline-StaysIn :
    (b : Branch) (index : ℕ) (label : Text) (c : Converter)
    → StaysIn c (convert_condition_multiline c b index label)
unfolding convert_condition_multiline
convert_condition_multiline-StaysIn b index label c = search (stays_rules, optimized-StaysIn)

inline_or-StaysIn :
    (r : Option ConvertedLine) (c : Converter) (m : Converted (List ConvertedLine))
    → StaysIn c m
    → StaysIn c (elim r [ some line ↦ converted (line ∷ []) c | none ↦ m ])
inline_or-StaysIn (some line) c m h = search stays_rules
inline_or-StaysIn none c m h = h

convert_condition-StaysIn :
    (b : Branch) (index : ℕ) (label : Text) (c : Converter)
    → StaysIn c (convert_condition c b index label)
unfolding convert_condition
convert_condition-StaysIn b index label c =
    inline_or-StaysIn (convert_condition_inline c b label) c
      (convert_condition_multiline c b index label)
      (convert_condition_multiline-StaysIn b index label c)

convert_conditions-StaysIn :
    (else_block : Option (List ConvertedLine)) (index : ℕ) (branches : List Branch) (c : Converter)
    → StaysIn c (convert_conditions else_block index branches c)
unfolding convert_conditions
convert_conditions-StaysIn else_block index [] c = search stays_rules
convert_conditions-StaysIn else_block index (b ∷ rest) c =
    search (
      stays_rules,
      convert_condition-StaysIn,
      convert_conditions-StaysIn else_block (suc index) rest,
    )

convert_if-StaysIn :
    (branches : List Branch) (else_block : Option (List ConvertedLine)) (c : Converter)
    → StaysIn c (convert_if branches else_block c)
unfolding convert_if
convert_if-StaysIn branches else_block c =
    binds c (convert_conditions else_block 0 branches c) _
      (convert_conditions-StaysIn else_block 0 branches c)
      (λ lines c₁. stays _ _ (record { levels = refl; loops = omega arith; ifs = omega arith }))

abbrev nothing : Converter → Converted (List ConvertedLine)
nothing c = converted [] c

defined-StaysIn :
    (name : Text) (value : Expression) (c : Converter)
    → StaysIn c (nothing (set_definition name value c))
unfolding set_definition
defined-StaysIn name value c =
    stays _ _ (record { levels = refl; loops = omega arith; ifs = omega arith })

module _ {N : Type 0} (D : Decimals N) where
  check_condition-StaysIn :
      (p start : Position) (label : Text) (e : Expression) (c : Converter)
      → StaysIn c (check_condition D p start label e c)
  unfolding check_condition
  check_condition-StaysIn p start label e c = search (stays_rules, optimized-StaysIn)

  convert_while_loop-StaysIn :
      (n : ℕ) (p : Position) (e : Expression) (lines : List ConvertedLine) (c : Converter)
      → StaysIn c (convert_while_loop D n p e lines c)
  unfolding convert_while_loop
  convert_while_loop-StaysIn n p e lines c =
      search (stays_rules, optimized-StaysIn, check_condition-StaysIn)

  -- A loop behind its condition: its labels have the number behind the loopcounter, and the loops around
  -- it are restored when it is left.
  abbrev pub behind_condition :
      Converter → Position → Block → Expression → Converter → Converted (List ConvertedLine)
  behind_condition c position block condition' c₁ = do
    (lines, c₂) ← convert_block D block c₁
    (result, c₃) ← convert_while_loop D (suc c.loopcounter) position condition' lines c₂
    converted result (record c₃ { loop_level = c.loop_level })

  -- The loopcounter is increased by one, and the loop is the innermost one.
  abbrev pub numbered_loop :
      Position → NololExpression → Block → Converter → Converted (List ConvertedLine)
  numbered_loop position condition block c = do
    (condition', c₁) ← convert_expression D condition (record c {
      loopcounter = suc c.loopcounter;
      loop_level = suc c.loopcounter ∷ c.loop_level;
    })
    behind_condition c position block condition' c₁

  -- the code that converts a loop, behind its body
  abbrev loop_end :
      Position → Expression → List ConvertedLine → Converter → Converted (List ConvertedLine)
  loop_end position condition' lines c₂ = do
    (result, c₃) ←
        in_loop (λ loopnr. convert_while_loop D loopnr position condition' lines c₂) c₂.loop_level
    converted result (leave_loop c₃)

  abbrev numbered_end :
      Converter
      → Position
      → Expression
      → List ConvertedLine
      → Converter
      → Converted (List ConvertedLine)
  numbered_end c position condition' lines c₂ = do
    (result, c₃) ← convert_while_loop D (suc c.loopcounter) position condition' lines c₂
    converted result (record c₃ { loop_level = c.loop_level })

  left_loop :
      (c : Converter) (n : ℕ) (outer : List ℕ)
      → c.loop_level ≡ n ∷ outer
      → leave_loop c ≡ record c { loop_level = outer }
  left_loop c n outer h = ground (arith, h)

  inside_loop :
      (c : Converter) (n : ℕ) (outer : List ℕ) (f : ℕ → Converted (List ConvertedLine))
      → c.loop_level ≡ n ∷ outer
      → in_loop f c.loop_level ≡ f n
  inside_loop c n outer f h = rw h refl

  loop_end_lem :
      (c c₂ : Converter) (position : Position) (condition' : Expression)
      (lines : List ConvertedLine)
      → c₂.loop_level ≡ suc c.loopcounter ∷ c.loop_level
      → loop_end position condition' lines c₂ ≡ numbered_end c position condition' lines c₂
  loop_end_lem c c₂ position condition' lines h =
      let convert_loop = λ (n : ℕ). convert_while_loop D n position condition' lines c₂ in
      ap (λ m. m >>= (λ x. converted x.0 (leave_loop x.1)))
        (inside_loop c₂ (suc c.loopcounter) c.loop_level convert_loop h)
      ∙ binds_equal c₂ (convert_loop (suc c.loopcounter)) _ _
          (convert_while_loop-StaysIn (suc c.loopcounter) position condition' lines c₂)
          (λ result c₃ t.
            ap (converted result) (left_loop c₃ (suc c.loopcounter) c.loop_level (t.levels ∙ h)))

  numbered_loop_equal :
      (p : Position) (e : NololExpression) (block : Block) (c : Converter)
      → ((c' : Converter) → StaysIn c' (convert_block D block c'))
      → convert_element D (while_loop p e block) c ≡ numbered_loop p e block c
  unfolding convert_element
  numbered_loop_equal p e block c h =
      binds_equal (enter_loop c) (convert_expression D e (enter_loop c)) _ _
        (convert_expression-StaysIn D e (enter_loop c))
        (λ e' c₁ s.
          binds_equal c₁ (convert_block D block c₁) _ _ (h c₁)
            (λ lines c₂ t. loop_end_lem c c₂ p e' lines (t.levels ∙ s.levels)))

  numbered_loop-StaysIn :
      (p : Position) (e : NololExpression) (block : Block) (c : Converter)
      → ((c' : Converter) → StaysIn c' (convert_block D block c'))
      → StaysIn c (numbered_loop p e block c)
  numbered_loop-StaysIn p e block c h =
      binds_after c (enter_loop c) (convert_expression D e (enter_loop c)) _
        (convert_expression-StaysIn D e (enter_loop c))
        (λ e' c₁ s. binds_after c c₁ (convert_block D block c₁) _ (h c₁) (λ lines c₂ t.
          binds_after c c₂ (convert_while_loop D (suc c.loopcounter) p e' lines c₂) _
            (convert_while_loop-StaysIn (suc c.loopcounter) p e' lines c₂)
            (λ result c₃ u. stays _ _ (record {
              levels = refl;
              loops = omega (arith, s.loops, t.loops, u.loops);
              ifs = omega (arith, s.ifs, t.ifs, u.ifs);
            }))))

  mutual
    unfolding convert_element

    element-StaysIn : (e : Element) (c : Converter) → StaysIn c (convert_element D e c)
    element-StaysIn (statement_line line) c = search (stays_rules, convert_statements-StaysIn)
    element-StaysIn (definition p name value) c =
        binds c (convert_expression D value c) _ (convert_expression-StaysIn D value c)
          (λ value' c₁. defined-StaysIn name value' c₁)
    element-StaysIn (wait_directive p e s) c =
        search (
          stays_rules, convert_expression-StaysIn, convert_statements-StaysIn, convert_wait-StaysIn,
        )
    element-StaysIn (multiline_if branches else_part) c =
        search (stays_rules, branches-StaysIn branches, else-StaysIn else_part, convert_if-StaysIn)
    element-StaysIn (while_loop p e block) c =
        subst (StaysIn c) (sym (numbered_loop_equal p e block c (block-StaysIn block)))
          (numbered_loop-StaysIn p e block c (block-StaysIn block))

    block-StaysIn : (block : Block) (c : Converter) → StaysIn c (convert_block D block c)
    block-StaysIn no_element c = search stays_rules
    block-StaysIn (element e rest) c = search (stays_rules, element-StaysIn e, block-StaysIn rest)

    branches-StaysIn :
        (branches : Branches) (c : Converter) → StaysIn c (convert_branches D branches c)
    branches-StaysIn no_branch c = search stays_rules
    branches-StaysIn (branch p e block rest) c =
        search (stays_rules, convert_expression-StaysIn, block-StaysIn block, branches-StaysIn rest)

    else-StaysIn :
        (else_part : ElseElements) (c : Converter) → StaysIn c (convert_else D else_part c)
    else-StaysIn no_else_elements c = search stays_rules
    else-StaysIn (else_elements block) c = search (stays_rules, block-StaysIn block)

  -- The elements of a block leave the loops around them as they are, and no counter is decreased. With the
  -- block as its body, a loop increases the loopcounter by one when it is entered, and its labels have that
  -- number, whatever the block holds; getCurrentLoopNumber does not panic.
  pub convert_block-Levels :
      (p : Position) (condition : NololExpression) (block : Block) (c : Converter)
      → StaysIn c (convert_block D block c)
        × (convert_element D (while_loop p condition block) c ≡ numbered_loop p condition block c)
  convert_block-Levels p condition block c =
      (block-StaysIn block c, numbered_loop_equal p condition block c (block-StaysIn block))
