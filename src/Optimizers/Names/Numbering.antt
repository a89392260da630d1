-- ===== src/Optimizers/Names/Numbering.antt =====
-- pkg/optimizers/variable_names.go: the names that getNextVarName makes, as numbers.
use yodk.Common.{
  ℕ, zero, suc, ◌+◌, ◌-◌, ◌*◌, ◌≤◌, ◌<◌, ◌≡◌, ◌≢◌, refl, ap, sym, ◌∙◌, [], ◌∷◌, length, arith,
  false,
}
use Prim.Native.Nat.{◌^◌}
use native.Mathlib.Nat.{pow-suc}
use yodk.Text.{Text, codes, has_prefix}
use yodk.Optimizers.Names.{last_digit, without_last_digit, name_loop, var_name}

-- A name as a number: its letters are the digits 1 to 26 to the base 26.
unfoldable pub number_of : Text → ℕ
number_of [] = 0
number_of (c ∷ s) = (c - 96) * 26 ^ length s + number_of s

-- one round takes off the last digit
digits_lem : (n : ℕ) → 0 < n → n ≡ 26 * without_last_digit n + last_digit n
unfolding without_last_digit last_digit
digits_lem n h = ground arith

last_digit_bounds : (n : ℕ) → (1 ≤ last_digit n) × (last_digit n ≤ 26)
unfolding last_digit
last_digit_bounds n = ground arith

without_last_digit-lt : (n : ℕ) → 0 < n → without_last_digit n < n
unfolding without_last_digit
without_last_digit-lt n h = ground arith

number_of-cons : (c : ℕ) (s : Text) → number_of (c ∷ s) ≡ (c - 96) * 26 ^ length s + number_of s
unfolding number_of
number_of-cons c s = refl

number_of-name_loop :
    (fuel n : ℕ) (s : Text)
    → n ≤ fuel
    → number_of (name_loop fuel n s) ≡ n * 26 ^ length s + number_of s
unfolding name_loop
number_of-name_loop zero zero s h = omega arith
number_of-name_loop zero (suc n) s h = absurd (omega arith)
number_of-name_loop (suc fuel) zero s h = omega arith
number_of-name_loop (suc fuel) (suc n) s h =
    let w = without_last_digit (suc n) in
    let d = last_digit (suc n) in
    let p = 26 ^ length s in
    let letter : d - 1 + 97 - 96 ≡ d = omega (arith, last_digit_bounds (suc n)) in
    omega (
      arith,
      number_of-name_loop fuel w ((d - 1 + 97) ∷ s)
          (omega (arith, without_last_digit-lt (suc n) (omega arith))),
      number_of-cons (d - 1 + 97) s,
      ap (λ (t : ℕ). t * p) letter,
      ap (λ (t : ℕ). t * p) (digits_lem (suc n) (omega arith)),
      ap (λ (t : ℕ). w * t) (pow-suc 26 (length s)),
    )

-- The number of a generated name is the number that it was generated from.
pub number_of-var_name : (n : ℕ) → number_of (var_name n) ≡ n
unfolding var_name number_of
number_of-var_name n = omega (arith, number_of-name_loop n n [] (omega arith))

-- Two numbers never give one name.
pub var_name-injective : (m n : ℕ) → var_name m ≡ var_name n → m ≡ n
var_name-injective m n h = sym (number_of-var_name m) ∙ ap number_of h ∙ number_of-var_name n

-- a letter from a to z
abbrev pub IsLetter : ℕ → Type 0
IsLetter c = (97 ≤ c) × (c ≤ 122)

abbrev pub AllLetters : Text → Type 0
AllLetters [] = Unit
AllLetters (c ∷ s) = IsLetter c × AllLetters s

name_loop-AllLetters : (fuel n : ℕ) (s : Text) → AllLetters s → AllLetters (name_loop fuel n s)
unfolding name_loop
name_loop-AllLetters zero n s a = a
name_loop-AllLetters (suc fuel) zero s a = a
name_loop-AllLetters (suc fuel) (suc n) s a =
    name_loop-AllLetters fuel _ _ (omega (arith, last_digit_bounds (suc n)), a)

name_loop-ne-nil : (fuel n c : ℕ) (s : Text) → name_loop fuel n (c ∷ s) ≢ []
unfolding name_loop
name_loop-ne-nil zero n c s = cc
name_loop-ne-nil (suc fuel) zero c s = cc
name_loop-ne-nil (suc fuel) (suc n) c s = name_loop-ne-nil fuel _ _ (c ∷ s)

-- A generated name consists of one or more of the letters a to z.
pub var_name-AllLetters : (n : ℕ) → 0 < n → AllLetters (var_name n) × (var_name n ≢ [])
unfolding var_name name_loop
var_name-AllLetters zero h = absurd (omega arith)
var_name-AllLetters (suc n) h =
    (name_loop-AllLetters (suc n) (suc n) [] tt, name_loop-ne-nil n _ _ [])

-- So it never names a global variable.
pub var_name-local : (n : ℕ) → 0 < n → has_prefix (var_name n) (codes ":") ≡ false
unfolding has_prefix
var_name-local n h = go (var_name n) (var_name-AllLetters n h).0
  where
    go : (s : Text) → AllLetters s → has_prefix s (codes ":") ≡ false
    go [] a = refl
    go (c ∷ s) a = ground arith
