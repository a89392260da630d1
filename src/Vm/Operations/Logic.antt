-- ===== src/Vm/Operations/Logic.antt =====
-- The operators `not`, `and`, `or` and the comparisons on values: what they need and what they give.
use yodk.Common.{Bool, true, false, not, ◌&&◌, ◌||◌, ◌≡◌, refl, ap, sym, ◌∙◌}
use yodk.Text.{Text, codes, text_eq, to_lower}
use yodk.Vm.Decimals.{Decimals, DecimalLaws}
use yodk.Vm.Variable.{Variable, number, string}
use yodk.Vm.Operations.{ok, truth, is_true, run_unary_operation, run_binary_operation}

module _ {N : Type 0} (D : Decimals N) (L : DecimalLaws D) where
  pub is_true-truth : (b : Bool) → is_true D (truth D b) ≡ b
  unfolding is_true truth
  is_true-truth true = rw L.equal-one_zero
  is_true-truth false = rw L.equal-zero_zero

-- `and` and `or` on two numbers
abbrev pub connective : Bool → Bool → Bool → Bool
connective true a b = a && b
connective false a b = a || b

abbrev pub connective_name : Bool → Text
connective_name true = codes "and"
connective_name false = codes "or"

pub not-not : (b : Bool) → not (not b) ≡ b
not-not true = refl
not-not false = refl

not-swap : {a b : Bool} → a ≡ not b → b ≡ not a
not-swap {b} e = rw e (sym (not-not b))

pub ok-injective : {A : Type 0} {a b : A} → ok a ≡ ok b → a ≡ b
ok-injective h = cc

module _ {N : Type 0} (D : Decimals N) where
  -- a value that is the number of a truth value
  abbrev pub of_bool : Bool → Variable N
  of_bool b = number (truth D b)

  pub not_number :
      (n : N) → run_unary_operation D (number n) (codes "not") ≡ ok (of_bool (not (is_true D n)))
  unfolding run_unary_operation is_true text_eq to_lower
  not_number n = ap (λ (b : Bool). ok (of_bool b)) (sym (not-not (D.equal n D.zero_decimal)))

  pub connective_numbers :
      (c : Bool) (m n : N)
      → run_binary_operation D (number m) (number n) (connective_name c)
        ≡ ok (of_bool (connective c (is_true D m) (is_true D n)))
  unfolding run_binary_operation text_eq
  connective_numbers true m n = refl
  connective_numbers false m n = refl

  -- `not` fails on a string
  pub not-eq-ok :
      (x z : Variable N)
      → run_unary_operation D x (codes "not") ≡ ok z
      → (n : N) × (x ≡ number n) × (z ≡ of_bool (not (is_true D n)))
  not-eq-ok (number n) z h = (n, refl, ok-injective (sym h ∙ not_number n))
  not-eq-ok (string s) z h = unfold run_unary_operation in (cc)

  -- `and` and `or` fail unless both operands are numbers
  pub connective-eq-ok :
      (c : Bool) (x y z : Variable N)
      → run_binary_operation D x y (connective_name c) ≡ ok z
      → (m : N) × (n : N) × (x ≡ number m)
        × (y ≡ number n)
        × (z ≡ of_bool (connective c (is_true D m) (is_true D n)))
  unfolding run_binary_operation text_eq
  connective-eq-ok c (number m) (number n) z h =
      (m, n, refl, refl, ok-injective (sym h ∙ connective_numbers c m n))
  connective-eq-ok true (number m) (string t) z h = cc
  connective-eq-ok true (string s) (number n) z h = cc
  connective-eq-ok true (string s) (string t) z h = cc
  connective-eq-ok false (number m) (string t) z h = cc
  connective-eq-ok false (string s) (number n) z h = cc
  connective-eq-ok false (string s) (string t) z h = cc

  -- The comparison op' is the negation of op, wherever op is defined.
  abbrev pub Inverts : Text → Text → Type 0
  Inverts op op' =
      (x y z : Variable N)
      → run_binary_operation D x y op ≡ ok z
      → (b : Bool) × (z ≡ of_bool b) × (run_binary_operation D x y op' ≡ ok (of_bool (not b)))

  inverted :
      (b b' : Bool) (z : Variable N)
      → ok (of_bool b) ≡ ok z
      → b' ≡ not b
      → (a : Bool) × (z ≡ of_bool a) × (ok (of_bool b') ≡ ok (of_bool (not a)))
  inverted b b' z h e = (b, ok-injective (sym h), ap (λ (a : Bool). ok (of_bool a)) e)

  module _ (L : DecimalLaws D) where
    pub Inverts-ge_lt : Inverts (codes ">=") (codes "<")
    unfolding run_binary_operation text_eq
    Inverts-ge_lt (number m) (number n) z h = inverted _ _ z h (not-swap (L.ge-not-lt m n))
    Inverts-ge_lt (number m) (string t) z h = cc
    Inverts-ge_lt (string s) (number n) z h = cc
    Inverts-ge_lt (string s) (string t) z h = cc

    pub Inverts-le_gt : Inverts (codes "<=") (codes ">")
    unfolding run_binary_operation text_eq
    Inverts-le_gt (number m) (number n) z h = inverted _ _ z h (not-swap (L.le-not-gt m n))
    Inverts-le_gt (number m) (string t) z h = cc
    Inverts-le_gt (string s) (number n) z h = cc
    Inverts-le_gt (string s) (string t) z h = cc

    pub Inverts-lt_ge : Inverts (codes "<") (codes ">=")
    unfolding run_binary_operation text_eq
    Inverts-lt_ge (number m) (number n) z h = inverted _ _ z h (L.ge-not-lt m n)
    Inverts-lt_ge (number m) (string t) z h = cc
    Inverts-lt_ge (string s) (number n) z h = cc
    Inverts-lt_ge (string s) (string t) z h = cc

    pub Inverts-gt_le : Inverts (codes ">") (codes "<=")
    unfolding run_binary_operation text_eq
    Inverts-gt_le (number m) (number n) z h = inverted _ _ z h (L.le-not-gt m n)
    Inverts-gt_le (number m) (string t) z h = cc
    Inverts-gt_le (string s) (number n) z h = cc
    Inverts-gt_le (string s) (string t) z h = cc

    pub Inverts-eq_ne : Inverts (codes "==") (codes "!=")
    unfolding run_binary_operation text_eq
    Inverts-eq_ne (number m) (number n) z h = inverted _ _ z h (refl)
    Inverts-eq_ne (number m) (string t) z h = inverted _ _ z h (refl)
    Inverts-eq_ne (string s) (number n) z h = inverted _ _ z h (refl)
    Inverts-eq_ne (string s) (string t) z h = inverted _ _ z h (refl)

    pub Inverts-ne_eq : Inverts (codes "!=") (codes "==")
    unfolding run_binary_operation text_eq
    Inverts-ne_eq (number m) (number n) z h = inverted _ _ z h (sym (not-not _))
    Inverts-ne_eq (number m) (string t) z h = inverted _ _ z h (sym (not-not _))
    Inverts-ne_eq (string s) (number n) z h = inverted _ _ z h (sym (not-not _))
    Inverts-ne_eq (string s) (string t) z h = inverted _ _ z h (sym (not-not _))
