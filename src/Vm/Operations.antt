-- ===== src/Vm/Operations.antt =====
-- pkg/vm/operations.go: the operators of yolol on values.
pub mod Logic
use yodk.Common.{
  Bool, true, false, not, ◌&&◌, ◌||◌, Option, none, some, if◌then◌else◌, ◌+◌, length, take, drop,
  ◌++◌,
}
use yodk.Text.{Text, is, text_eq, to_lower, last_index, slice_to, slice_from}
use yodk.Vm.Decimals.{Decimals}
use yodk.Vm.Variable.{
  Variable, number, string, is_number, is_string, same_type, to_text, to_number, itoa,
}

-- The errors of the VM, with the values that their messages show. `abort_line` is errAbortLine.
pub data Error : Type 0 where
  unary_needs_number unknown_unary unknown_number_operator unknown_string_operator : Text → Error
  division_by_zero condition_is_string abort_line : Error
  goto_string already_empty unknown_deref_operator not_a_number : Text → Error

pub data Result {ℓ} (A : Type ℓ) : Type ℓ where
  ok : A → Result A
  err : Error → Result A

module _ {N : Type 0} (D : Decimals N) where
  -- the truth values that the comparisons return
  unfoldable pub truth : Bool → N
  truth b = if b then D.one else D.zero_decimal

  -- a number that is not zero
  unfoldable pub is_true : N → Bool
  is_true n = not (D.equal n D.zero_decimal)

  -- the cases of the operator switch in RunUnaryOperation
  unfoldable pub number_unary : N → Text → Result (Variable N)
  unfolding truth
  number_unary n operator =
      let op : Text = to_lower operator in
      if is op "-"
      then ok (number (D.times n D.minus_one))
      else if is op "not"
      then ok (number (truth (D.equal n D.zero_decimal)))
      else if is op "abs"
      then ok (number (D.abs n))
      else if is op "sqrt"
      then ok (number (D.sqrt n))
      else if is op "sin"
      then ok (number (D.sin n))
      else if is op "cos"
      then ok (number (D.cos n))
      else if is op "tan"
      then ok (number (D.tan n))
      else if is op "asin"
      then ok (number (D.asin n))
      else if is op "acos"
      then ok (number (D.acos n))
      else if is op "atan"
      then ok (number (D.atan n))
      else err (unknown_unary operator)

  -- RunUnaryOperation
  unfoldable pub run_unary_operation : Variable N → Text → Result (Variable N)
  unfolding number_unary is_number to_number
  run_unary_operation arg operator =
      if not (is_number arg)
      then err (unary_needs_number operator)
      else number_unary (to_number D arg) operator

  -- the operator switch of RunBinaryOperation for numbers
  unfoldable pub number_binary : N → N → Text → Result (Variable N)
  unfolding truth is_true
  number_binary m n op =
      if is op "+"
      then ok (number (D.plus m n))
      else if is op "-"
      then ok (number (D.minus m n))
      else if is op "*"
      then ok (number (D.times m n))
      else if is op "/"
      then (if D.equal n D.zero_decimal then err division_by_zero else ok (number (D.divide m n)))
      else if is op "%"
      then ok (number (D.modulo m n))
      else if is op "^"
      then ok (number (D.power m n))
      else if is op "=="
      then ok (number (truth (D.equal m n)))
      else if is op "!="
      then ok (number (truth (not (D.equal m n))))
      else if is op ">="
      then ok (number (truth (D.greater_than_or_equal m n)))
      else if is op "<="
      then ok (number (truth (D.less_than_or_equal m n)))
      else if is op ">"
      then ok (number (truth (D.greater_than m n)))
      else if is op "<"
      then ok (number (truth (D.less_than m n)))
      else if is op "and"
      then ok (number (truth (is_true m && is_true n)))
      else if is op "or"
      then ok (number (truth (is_true m || is_true n)))
      else err (unknown_number_operator op)

  -- the operator switch of RunBinaryOperation for strings
  unfoldable pub string_binary : Text → Text → Text → Result (Variable N)
  unfolding truth
  string_binary s t op =
      if is op "+"
      then ok (string (s ++ t))
      else if is op "-"
      then ok (elim (last_index s t) [
        | some i ↦ string (slice_to s i ++ slice_from s (i + length t))
        | none ↦ string s
      ])
      else if is op "=="
      then ok (number (truth (text_eq s t)))
      else if is op "!="
      then ok (number (truth (not (text_eq s t))))
      else err (unknown_string_operator op)

  -- the automatic cast of one operand: a number becomes its text
  unfoldable pub as_string : Variable N → Variable N
  unfolding is_string itoa
  as_string arg = if not (is_string arg) then string (itoa D arg) else arg

  -- both switches of RunBinaryOperation, on operands of one type
  unfoldable pub run_same_type : Variable N → Variable N → Text → Result (Variable N)
  unfolding number_binary string_binary is_number to_number to_text
  run_same_type arg1 arg2 operator =
      if is_number arg1
      then number_binary (to_number D arg1) (to_number D arg2) operator
      else string_binary (to_text arg1) (to_text arg2) operator

  -- whether RunUnaryOperation returns; else a function of decimal panics
  unfoldable pub unary_returns : Variable N → Text → Bool
  unary_returns (string s) operator = true
  unary_returns (number n) operator =
      let op : Text = to_lower operator in
      if is op "sqrt"
      then D.sqrt_returns n
      else if is op "asin"
      then D.asin_returns n
      else if is op "acos"
      then D.acos_returns n
      else true

  -- whether RunBinaryOperation returns
  unfoldable pub binary_returns : Variable N → Variable N → Text → Bool
  binary_returns (number m) (number n) op =
      if is op "%" then D.modulo_returns m n else if is op "^" then D.power_returns m n else true
  binary_returns _ _ op = true

  -- RunBinaryOperation
  unfoldable pub run_binary_operation : Variable N → Variable N → Text → Result (Variable N)
  unfolding run_same_type as_string same_type
  run_binary_operation arg1 arg2 operator =
      if not (same_type arg1 arg2)
      then run_same_type (as_string arg1) (as_string arg2) operator
      else run_same_type arg1 arg2 operator
