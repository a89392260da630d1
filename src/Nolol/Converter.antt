-- ===== src/Nolol/Converter.antt =====
-- pkg/nolol/converter.go: the state of the converter, the results of its functions, and the labels that it
-- makes. Positions that stand in the tree are kept; for those of lines that the converter adds, and for
-- those of errors, there is none.
pub mod Ensured
pub mod Stays
pub mod Expressions
pub mod Gotos
pub mod Running
pub mod Ifs
pub mod Loops
pub mod Elements
pub mod Lengths
pub mod Whole
use yodk.Common.{
  ℕ, zero, suc, ◌+◌, ◌-◌, ◌/◌, ◌%◌, Bool, true, false, List, [], ◌∷◌, ◌++◌, Option, none, some,
  if◌then◌else◌, ◌==◌,
}
use yodk.Text.{Text, codes, to_lower}
use yodk.Text.Map.{Map, lookup, insert}
use yodk.Ast.{Expression, Position}
use yodk.Ast.Visitor.{Accepted, accepted, rejected, exhausted}
use yodk.Optimizers.Names.{VariableNameOptimizer, new_variable_name_optimizer}
use yodk.Nolol.Ast.{LabelStatement, goto_label}

-- Converter; the innermost loop stands first in `loop_level`. The other fields of the source are not used
-- here, or are the results of functions.
pub record Converter : Type 0 where
  pub definitions : Map Expression
  pub uses_time_tracking : Bool
  pub iflabelcounter : ℕ
  pub waitlabelcounter : ℕ
  pub loopcounter : ℕ
  pub loop_level : List ℕ
  pub varname_optimizer : VariableNameOptimizer

-- NewConverter
unfoldable pub new_converter : Converter
unfolding new_variable_name_optimizer
new_converter = record {
  definitions = [];
  uses_time_tracking = false;
  iflabelcounter = 0;
  waitlabelcounter = 0;
  loopcounter = 0;
  loop_level = [];
  varname_optimizer = new_variable_name_optimizer;
}

-- What a function of the converter returns: a value and the converter, or the message of an error.
pub data Converted {ℓ} (A : Type ℓ) : Type ℓ where
  converted : A → Converter → Converted A
  failed : Text → Converted A

infixl 1 ◌>>=◌
abbrev pub ◌>>=◌ {ℓ κ} :
    {A : Type ℓ} {B : Type κ} → Converted A → (A × Converter → Converted B) → Converted B
converted a c >>= f = f (a, c)
failed msg >>= f = failed msg

-- the expression that an optimizer returns
abbrev pub optimized : Accepted (Unit {0}) Expression → Converter → Converted Expression
optimized (accepted e s) c = converted e c
optimized (rejected msg) c = failed msg
optimized exhausted c = failed []

-- %d, on fuel: the digits before those that are there
unfoldable pub digits_before : ℕ → ℕ → Text → Text
digits_before zero n text = text
digits_before (suc fuel) n text =
    let more = digits_before fuel (n / 10) ((n % 10 + 48) ∷ text) in
    if n / 10 == 0 then (n % 10 + 48) ∷ text else more

-- strconv.Itoa and %d, of a number that is not negative
unfoldable pub itoa : ℕ → Text
unfolding digits_before
itoa n = digits_before (suc n) n []

-- fmt.Sprintf("endif%d", c.iflabelcounter), and the other labels
abbrev pub endif_label : Converter → Text
endif_label c = codes "endif" ++ itoa c.iflabelcounter

abbrev pub skip_label : Converter → ℕ → Text
skip_label c index = codes "iflbl" ++ (itoa c.iflabelcounter ++ (codes "-" ++ itoa index))

abbrev pub wait_label : Converter → Text
wait_label c = codes "wait" ++ itoa c.waitlabelcounter

abbrev pub while_label : ℕ → Text
while_label loopnr = codes "while" ++ itoa loopnr

abbrev pub endwhile_label : ℕ → Text
endwhile_label loopnr = codes "endwhile" ++ itoa loopnr

-- getDefinition
unfoldable pub get_definition : Text → Converter → Option Expression
unfolding lookup
get_definition name c = lookup (to_lower name) c.definitions

-- setDefinition
unfoldable pub set_definition : Text → Expression → Converter → Converter
unfolding insert
set_definition name val c = record c { definitions = insert (to_lower name) val c.definitions }
