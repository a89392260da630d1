-- ===== src/Vm/Decimals.antt =====
-- The decimal numbers of github.com/shopspring/decimal and the functions of Go's `math` that the VM
-- calls: a parameter of the model. A number stands for its value, so equal numbers are one element.
use yodk.Common.{◌≡◌, Bool, true, false, not, Option, some}
use yodk.Common.Int.{ℤ}
use yodk.Text.{Text}

pub record Decimals (N : Type 0) : Type 0 where
  -- decimal.Zero, and decimal.NewFromFloat at 1 and at -1
  pub zero_decimal : N
  pub one : N
  pub minus_one : N
  -- decimal.NewFromString and Decimal.String
  pub from_string : Text → Option N
  pub to_string : N → Text
  -- Add, Sub, Mul, Div, Mod, Pow
  pub plus : N → N → N
  pub minus : N → N → N
  pub times : N → N → N
  pub divide : N → N → N
  pub modulo : N → N → N
  pub power : N → N → N
  -- Abs, Sin, Cos, Tan, Atan, and math.Sqrt, math.Asin, math.Acos between Float64 and NewFromFloat
  pub abs : N → N
  pub sin : N → N
  pub cos : N → N
  pub tan : N → N
  pub atan : N → N
  pub sqrt : N → N
  pub asin : N → N
  pub acos : N → N
  -- Whether Mod, Pow, and NewFromFloat behind math.Sqrt, math.Asin and math.Acos return: Mod panics at
  -- the divisor 0, and NewFromFloat at NaN. Where they do not, the value above stands for nothing.
  pub modulo_returns : N → N → Bool
  pub power_returns : N → N → Bool
  pub sqrt_returns : N → Bool
  pub asin_returns : N → Bool
  pub acos_returns : N → Bool
  -- Equal, GreaterThanOrEqual, LessThanOrEqual, GreaterThan, LessThan
  pub equal : N → N → Bool
  pub greater_than_or_equal : N → N → Bool
  pub less_than_or_equal : N → N → Bool
  pub greater_than : N → N → Bool
  pub less_than : N → N → Bool
  -- IntPart
  pub int_part : N → ℤ

-- What the code relies on: 0 and 1 differ, a number that is printed is read back, and the orders
-- are the complements of one another.
pub record DecimalLaws {N : Type 0} (D : Decimals N) : Type 0 where
  pub equal-zero_zero : D.equal D.zero_decimal D.zero_decimal ≡ true
  pub equal-one_zero : D.equal D.one D.zero_decimal ≡ false
  pub from_string-to_string : (n : N) → D.from_string (D.to_string n) ≡ some n
  pub ge-not-lt : (m n : N) → D.greater_than_or_equal m n ≡ not (D.less_than m n)
  pub le-not-gt : (m n : N) → D.less_than_or_equal m n ≡ not (D.greater_than m n)
