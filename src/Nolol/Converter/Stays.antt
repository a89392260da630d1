-- ===== src/Nolol/Converter/Stays.antt =====
-- pkg/nolol/converter.go: what the conversion of expressions and statements leaves as it is.
use yodk.Common.{
  ◌≡◌, refl, ◌∙◌, ℕ, ◌≤◌, Bool, true, false, List, [], ◌∷◌, Option, none, some, if◌then◌else◌,
  arith,
}
use yodk.Text.{Text, is, to_lower}
use yodk.Ast.{
  Position, Dereference, Expression, string_constant, number_constant, dereference, unary_operation,
  binary_operation,
}
use yodk.Vm.Decimals.{Decimals}
use yodk.Optimizers.Static.{Folded, folded, unchanged, panics}
use yodk.Ast.Visitor.{Accepted, accepted, rejected, exhausted}
use yodk.Nolol.Ast.{
  NololExpression, string_literal, number_literal, variable, unary, binary, func_call, Arguments,
  no_argument, argument, NololStatement, nolol_assignment, nolol_dereference, nolol_goto,
  break_statement, continue_statement,
}
use yodk.Nolol.Converter.{Converter, Converted, converted, failed, ◌>>=◌, optimized, get_definition}
use yodk.Nolol.Converter.Expressions.{
  optimized_name, replaced_dereference, convert_dereference, fold_operation, convert_again,
  convert_func_call, convert_unary, convert_time, convert_expression, convert_arguments,
  assign_definition, convert_assignment, as_statement, goto_of_loop, convert_statement,
  convert_statements,
}

-- The loops around are those that were there, and no counter was decreased.
pub record Stays (c c' : Converter) : Type 0 where
  pub levels : c'.loop_level ≡ c.loop_level
  pub loops : c.loopcounter ≤ c'.loopcounter
  pub ifs : c.iflabelcounter ≤ c'.iflabelcounter

pub Stays-refl : (c : Converter) → Stays c c
Stays-refl c = record { levels = refl; loops = omega arith; ifs = omega arith }

pub Stays-trans : (a b c : Converter) → Stays a b → Stays b c → Stays a c
Stays-trans a b c s t = record {
  levels = t.levels ∙ s.levels;
  loops = omega (arith, s.loops, t.loops);
  ifs = omega (arith, s.ifs, t.ifs);
}

-- what a function returns when it is called with a converter
pub data StaysIn {ℓ} {A : Type ℓ} (c : Converter) : Converted A → Type ℓ where
  stays : (a : A) (c' : Converter) → Stays c c' → StaysIn c (converted a c')
  fails : (msg : Text) → StaysIn c (failed msg)

pub returns {ℓ} : {A : Type ℓ} (a : A) (c : Converter) → StaysIn c (converted a c)
returns a c = stays a c (Stays-refl c)

pub later {ℓ} :
    {A : Type ℓ} (b c : Converter) (m : Converted A) → Stays b c → StaysIn c m → StaysIn b m
later b c _ s (stays a c' t) = stays a c' (Stays-trans b c c' s t)
later b c _ s (fails msg) = fails msg

pub binds {ℓ κ} :
    {A : Type ℓ} {B : Type κ} (c : Converter) (m : Converted A) (f : A × Converter → Converted B)
    → StaysIn c m
    → ((a : A) (c' : Converter) → StaysIn c' (f (a, c')))
    → StaysIn c (m >>= f)
binds c _ f (stays a c' t) k = later c c' (f (a, c')) t (k a c')
binds c _ f (fails msg) k = fails msg

-- what follows a step may rely on what the step leaves as it is
pub binds_equal {ℓ κ} :
    {A : Type ℓ} {B : Type κ} (c : Converter) (m : Converted A) (f g : A × Converter → Converted B)
    → StaysIn c m
    → ((a : A) (c' : Converter) → Stays c c' → f (a, c') ≡ g (a, c'))
    → (m >>= f) ≡ (m >>= g)
binds_equal c _ f g (stays a c' t) k = k a c' t
binds_equal c _ f g (fails msg) k = refl

pub binds_after {ℓ κ} :
    {A : Type ℓ} {B : Type κ} (b c : Converter) (m : Converted A) (f : A × Converter → Converted B)
    → StaysIn c m
    → ((a : A) (c' : Converter) → Stays c c' → StaysIn b (f (a, c')))
    → StaysIn b (m >>= f)
binds_after b c _ f (stays a c' t) k = k a c' t
binds_after b c _ f (fails msg) k = fails msg

pub if-StaysIn {ℓ} :
    {A : Type ℓ} (c : Converter) (b : Bool) (m n : Converted A)
    → StaysIn c m
    → StaysIn c n
    → StaysIn c (if b then m else n)
if-StaysIn c true m n s t = s
if-StaysIn c false m n s t = t

pub ruleset stays_rules = (returns, fails, binds, if-StaysIn)

pub optimized-StaysIn :
    (r : Accepted (Unit {0}) Expression) (c : Converter) → StaysIn c (optimized r c)
optimized-StaysIn (accepted e s) c = search stays_rules
optimized-StaysIn (rejected msg) c = search stays_rules
optimized-StaysIn exhausted c = search stays_rules

pub optimized_name-StaysIn : (name : Text) (c : Converter) → StaysIn c (optimized_name name c)
unfolding optimized_name
optimized_name-StaysIn name c =
    stays _ _ (record { levels = refl; loops = omega arith; ifs = omega arith })

pub replaced_dereference-StaysIn :
    (d : Dereference) (e : Expression) (c : Converter) → StaysIn c (replaced_dereference d e c)
unfolding replaced_dereference
replaced_dereference-StaysIn d (dereference v) c = search stays_rules
replaced_dereference-StaysIn d _ c = search stays_rules

pub replacement-StaysIn {ℓ} :
    {A : Type ℓ} (c : Converter) (r : Option Expression) (f : Expression → Converted A)
    (m : Converted A)
    → ((e : Expression) → StaysIn c (f e))
    → StaysIn c m
    → StaysIn c (elim r [ some e ↦ f e | none ↦ m ])
replacement-StaysIn c (some e) f m h g = h e
replacement-StaysIn c none f m h g = g

pub convert_dereference-StaysIn :
    (d : Dereference) (c : Converter) → StaysIn c (convert_dereference d c)
unfolding convert_dereference
convert_dereference-StaysIn d c =
    replacement-StaysIn c (get_definition d.variable c) _ _
      (λ e. replaced_dereference-StaysIn d e c) (search (stays_rules, optimized_name-StaysIn))

pub assign_definition-StaysIn :
    (p : Position) (operator : Text) (value e : Expression) (c : Converter)
    → StaysIn c (assign_definition p operator value e c)
unfolding assign_definition
assign_definition-StaysIn p operator value (dereference v) c = search stays_rules
assign_definition-StaysIn p operator value _ c = search stays_rules

pub convert_assignment-StaysIn :
    (p : Position) (name operator : Text) (value : Expression) (c : Converter)
    → StaysIn c (convert_assignment p name operator value c)
unfolding convert_assignment
convert_assignment-StaysIn p name operator value c =
    replacement-StaysIn c (get_definition name c) _ _
      (λ e. assign_definition-StaysIn p operator value e c)
      (search (stays_rules, optimized_name-StaysIn))

module _ {N : Type 0} (D : Decimals N) where
  fold_operation-StaysIn :
      (e : Expression) (r : Folded) (c : Converter) → StaysIn c (fold_operation D e r c)
  unfolding fold_operation
  fold_operation-StaysIn e unchanged c = search stays_rules
  fold_operation-StaysIn e panics c = search stays_rules
  fold_operation-StaysIn e (folded repl) c = search stays_rules

  convert_again-StaysIn : (e : Expression) (c : Converter) → StaysIn c (convert_again D e c)
  unfolding convert_again
  convert_again-StaysIn (string_constant p value) c = search stays_rules
  convert_again-StaysIn (number_constant p value) c = search stays_rules
  convert_again-StaysIn (dereference d) c = convert_dereference-StaysIn d c
  convert_again-StaysIn (unary_operation p operator e) c =
      search (stays_rules, convert_again-StaysIn e)
  convert_again-StaysIn (binary_operation operator e1 e2) c =
      search
        (stays_rules, convert_again-StaysIn e1, convert_again-StaysIn e2, fold_operation-StaysIn)

  convert_unary-StaysIn :
      (p : Position) (name : Text) (arguments : List Expression) (c : Converter)
      → StaysIn c (convert_unary D p name arguments c)
  unfolding convert_unary
  convert_unary-StaysIn p name [] c = search stays_rules
  convert_unary-StaysIn p name (e ∷ []) c = convert_again-StaysIn (unary_operation p name e) c
  convert_unary-StaysIn p name (e ∷ e' ∷ rest) c = search stays_rules

  convert_func_call-StaysIn :
      (p : Position) (function : Text) (arguments : List Expression) (c : Converter)
      → StaysIn c (convert_func_call D p function arguments c)
  unfolding convert_func_call convert_time
  convert_func_call-StaysIn p function arguments c =
      if-StaysIn c (is (to_lower function) "time") _ _
        (later c (record c { uses_time_tracking = true }) _
          (record { levels = refl; loops = omega arith; ifs = omega arith })
          (search (stays_rules, optimized_name-StaysIn)))
        (search (stays_rules, convert_unary-StaysIn))

  mutual
    unfolding convert_expression

    pub convert_expression-StaysIn :
        (e : NololExpression) (c : Converter) → StaysIn c (convert_expression D e c)
    convert_expression-StaysIn (string_literal p value) c = search stays_rules
    convert_expression-StaysIn (number_literal p value) c = search stays_rules
    convert_expression-StaysIn (variable d) c = convert_dereference-StaysIn d c
    convert_expression-StaysIn (unary p operator e) c =
        search (stays_rules, convert_expression-StaysIn e)
    convert_expression-StaysIn (binary operator e1 e2) c = search (
      stays_rules,
      convert_expression-StaysIn e1,
      convert_expression-StaysIn e2,
      fold_operation-StaysIn,
    )
    convert_expression-StaysIn (func_call p function arguments) c =
        search (stays_rules, convert_arguments-StaysIn arguments, convert_func_call-StaysIn)

    convert_arguments-StaysIn :
        (es : Arguments) (c : Converter) → StaysIn c (convert_arguments D es c)
    convert_arguments-StaysIn no_argument c = search stays_rules
    convert_arguments-StaysIn (argument e rest) c =
        search (stays_rules, convert_expression-StaysIn e, convert_arguments-StaysIn rest)

  as_statement-StaysIn : (e : Expression) (c : Converter) → StaysIn c (as_statement D e c)
  as_statement-StaysIn (dereference d) c = search stays_rules
  as_statement-StaysIn (string_constant p value) c = search stays_rules
  as_statement-StaysIn (number_constant p value) c = search stays_rules
  as_statement-StaysIn (unary_operation p operator e) c = search stays_rules
  as_statement-StaysIn (binary_operation operator e1 e2) c = search stays_rules

  goto_of_loop-StaysIn :
      (label : ℕ → Text) (msg : Text) (p : Position) (c : Converter) (levels : List ℕ)
      → StaysIn c (goto_of_loop D label msg p c levels)
  goto_of_loop-StaysIn label msg p c [] = search stays_rules
  goto_of_loop-StaysIn label msg p c (n ∷ rest) = search stays_rules

  convert_statement-StaysIn :
      (s : NololStatement) (c : Converter) → StaysIn c (convert_statement D s c)
  unfolding convert_statement
  convert_statement-StaysIn (nolol_assignment p name operator value) c =
      search (stays_rules, convert_expression-StaysIn, convert_assignment-StaysIn)
  convert_statement-StaysIn (nolol_dereference d) c =
      search (stays_rules, convert_dereference-StaysIn, as_statement-StaysIn)
  convert_statement-StaysIn (nolol_goto p label) c = search stays_rules
  convert_statement-StaysIn (break_statement p) c = search (stays_rules, goto_of_loop-StaysIn)
  convert_statement-StaysIn (continue_statement p) c = search (stays_rules, goto_of_loop-StaysIn)

  pub convert_statements-StaysIn :
      (s : List NololStatement) (c : Converter) → StaysIn c (convert_statements D s c)
  unfolding convert_statements
  convert_statements-StaysIn [] c = search stays_rules
  convert_statements-StaysIn (s ∷ rest) c =
      search (stays_rules, convert_statement-StaysIn, convert_statements-StaysIn rest)
