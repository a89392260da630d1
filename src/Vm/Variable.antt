-- ===== src/Vm/Variable.antt =====
-- pkg/vm/variable.go: the values of yolol variables.
use yodk.Common.{
  Bool, true, false, ◌&&◌, none, some, if◌then◌else◌, leb, length, take, drop, ◌-◌, ◌++◌, [],
}
use yodk.Text.{Text, codes, text_eq, has_prefix, has_suffix}
use yodk.Vm.Decimals.{Decimals}

-- Variable: the dynamic value is a decimal or a string.
pub data Variable (N : Type 0) : Type 0 where
  number : N → Variable N
  string : Text → Variable N

module _ {N : Type 0} where
  -- Variable.IsNumber
  unfoldable pub is_number : Variable N → Bool
  is_number (number n) = true
  is_number (string s) = false

  -- Variable.IsString
  unfoldable pub is_string : Variable N → Bool
  is_string (number n) = false
  is_string (string s) = true

  -- Variable.SameType
  unfoldable pub same_type : Variable N → Variable N → Bool
  unfolding is_number
  same_type (number m) other = is_number other
  same_type (string s) other = elim (is_number other) [ true ↦ false | false ↦ true ]

  -- Variable.TypeName
  unfoldable pub type_name : Variable N → Text
  unfolding is_string
  type_name v = if is_string v then codes "string" else codes "number"

  -- Variable.String
  unfoldable pub to_text : Variable N → Text
  to_text (number n) = []
  to_text (string s) = s

module _ {N : Type 0} (D : Decimals N) where
  -- VariableFromString
  unfoldable pub variable_from_string : Text → Variable N
  variable_from_string str =
      if has_prefix str (codes "\"") && (has_suffix str (codes "\"") && leb 2 (length str))
      then string (take (length str - 2) (drop 1 str))
      else elim (D.from_string str) [ some deci ↦ number deci | none ↦ string str ]

  -- Variable.Number
  unfoldable pub to_number : Variable N → N
  to_number (number n) = n
  to_number (string s) = D.zero_decimal

  -- Variable.Equals
  unfoldable pub equals : Variable N → Variable N → Bool
  unfolding same_type is_string is_number to_text to_number
  equals v other =
      if same_type v other
      then (if is_string v
          then text_eq (to_text v) (to_text other)
          else if is_number v
          then D.equal (to_number v) (to_number other)
          else false)
      else false

  -- Variable.Itoa
  unfoldable pub itoa : Variable N → Text
  itoa (number n) = D.to_string n
  itoa (string s) = []

  -- Variable.Repr
  unfoldable pub repr : Variable N → Text
  unfolding is_number itoa to_text
  repr v = if is_number v then itoa v else codes "\"" ++ (to_text v ++ codes "\"")
