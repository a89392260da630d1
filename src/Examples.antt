-- ===== src/Examples.antt =====
-- Concrete inputs: numbers, expressions, programs and VMs on which the theorems are applied.
pub mod Optimizing
pub mod Naming
pub mod Running
pub mod Other
pub mod Parsing
pub mod Printing
pub mod Merging
pub mod Converting
pub mod Sources
use yodk.Common.{
  true, ◌≡◌, refl, ap, ℕ, zero, suc, ◌+◌, ◌-◌, ◌*◌, ◌/◌, ◌%◌, List, [], ◌∷◌, not, Option, none,
  some, if◌then◌else◌, ◌==◌, ltb, leb, arith, false,
}
use mathlib.Core.Option
use yodk.Common.Int.{pos}
use yodk.Text.{Text, codes}
use yodk.Ast.{
  Position, Expression, number_constant, dereference, unary_operation, binary_operation, absent,
  unknown_position, Program, Line, nil, cons, goto_statement, assignment,
}
use yodk.Vm.Decimals.{Decimals, DecimalLaws}
use yodk.Vm.State.{Vm, create, running, set_variable}
use yodk.Vm.Variable.{number}

-- A number as a text: as many ones.
unfoldable pub tally_text : ℕ → Text
tally_text zero = []
tally_text (suc n) = b'1' ∷ tally_text n

unfoldable pub read_tally : Text → Option ℕ
read_tally [] = some 0
read_tally (c ∷ s) =
    let rest = read_tally s in if c == b'1' then Option.map (λ (n : ℕ). suc n) rest else none

-- The natural numbers as a small instance of the decimals.
abbrev pub tally : Decimals ℕ
tally = record {
  zero_decimal = 0;
  one = 1;
  minus_one = 0;
  from_string = read_tally;
  to_string = tally_text;
  plus = λ m n. m + n;
  minus = λ m n. m - n;
  times = λ m n. m * n;
  divide = λ m n. m / n;
  modulo = λ m n. m % n;
  power = λ m n. m;
  abs = λ n. n;
  sin = λ n. n;
  cos = λ n. n;
  tan = λ n. n;
  atan = λ n. n;
  sqrt = λ n. n;
  asin = λ n. n;
  acos = λ n. n;
  modulo_returns = λ m n. ltb 0 n;
  power_returns = λ m n. true;
  sqrt_returns = λ n. true;
  asin_returns = λ n. true;
  acos_returns = λ n. true;
  equal = λ m n. m == n;
  greater_than_or_equal = λ m n. leb n m;
  less_than_or_equal = λ m n. leb m n;
  greater_than = λ m n. ltb n m;
  less_than = λ m n. ltb m n;
  int_part = λ n. pos n;
}

read_tally-tally_text : (n : ℕ) → read_tally (tally_text n) ≡ some n
unfolding read_tally tally_text
read_tally-tally_text zero = refl
read_tally-tally_text (suc n) = rw (read_tally-tally_text n) refl

pub tally-DecimalLaws : DecimalLaws tally
tally-DecimalLaws = record {
  equal-zero_zero = refl;
  equal-one_zero = refl;
  from_string-to_string = read_tally-tally_text;
  ge-not-lt = λ m n. ground arith;
  le-not-gt = λ m n. ground arith;
}

abbrev pub here : Position
here = record { file = []; line = 1; coloumn = 1 }

-- a number literal, and the value of a variable
abbrev pub literal : Text → Expression
literal value = number_constant here value

abbrev pub var : Text → Expression
var name = dereference (record {
  position = here;
  variable = name;
  operator = [];
  pre_post = absent;
  is_statement = false;
})

-- goto 1
abbrev pub first_line : Line
first_line = record {
  position = here;
  statements = cons (goto_statement here (literal (codes "1"))) nil;
  comment = [];
}

abbrev pub endless : Program
endless = record { lines = first_line ∷ [] }

-- a VM in which x is 2
abbrev pub with_x : Vm ℕ
with_x = set_variable (codes "X") (number 2) (create endless [] [])
