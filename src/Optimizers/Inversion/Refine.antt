-- ===== src/Optimizers/Inversion/Refine.antt =====
-- When one computation may stand in the place of another: for its value, and, where only the truth
-- of the value counts, for its truth. The rewriting steps of the optimizer are such refinements.
use yodk.Common.{◌≡◌, refl, ap, ap₂, sym, ◌∙◌, Bool, true, false, not}
use mathlib.Core.Path.{subst}
use yodk.Text.{Text, codes}
use yodk.Vm.Decimals.{Decimals, DecimalLaws}
use yodk.Vm.Variable.{Variable, number}
use yodk.Vm.Operations.{ok, is_true, truth, run_unary_operation, run_binary_operation}
use yodk.Vm.Operations.Logic.{
  is_true-truth, of_bool, not_number, connective, connective_name, connective_numbers, not-eq-ok,
  connective-eq-ok, Inverts, not-not,
}
use yodk.Vm.State.{Vm, M, done}
use yodk.Vm.State.Laws.{and_then-done, lift-done}
use yodk.Vm.Expressions.Laws.{unary_of, binary_of}

-- de Morgan
connective-not : (c a b : Bool) → connective (not c) (not a) (not b) ≡ not (connective c a b)
connective-not true true b = refl
connective-not true false b = refl
connective-not false true b = refl
connective-not false false b = refl

not-connective : (c a b : Bool) → not (connective (not c) a b) ≡ connective c (not a) (not b)
not-connective true true b = refl
not-connective true false b = refl
not-connective false true b = refl
not-connective false false b = refl

number-injective : {N : Type 0} {m n : N} → number m ≡ number n → m ≡ n
number-injective h = cc

module _ {N : Type 0} (D : Decimals N) where
  -- Wherever `m` succeeds, `m'` succeeds with the same value and state.
  abbrev pub ValueOf : M N (Variable N) → M N (Variable N) → Type 0
  ValueOf m m' = (v v' : Vm N) (x : Variable N) → m v ≡ done x v' → m' v ≡ done x v'

  -- Wherever `m` succeeds with a number, `m'` succeeds with one that is as true, and the same state.
  abbrev pub TruthOf : M N (Variable N) → M N (Variable N) → Type 0
  TruthOf m m' =
      (v v' : Vm N) (n : N)
      → m v ≡ done (number n) v'
      → (n' : N) × (m' v ≡ done (number n') v') × (is_true D n' ≡ is_true D n)

  pub ValueOf-TruthOf : {m m' : M N (Variable N)} → ValueOf m m' → TruthOf m m'
  ValueOf-TruthOf r v v' n h = (n, r v v' (number n) h, refl)

  pub ValueOf-trans : {m₁ m₂ m₃ : M N (Variable N)} → ValueOf m₁ m₂ → ValueOf m₂ m₃ → ValueOf m₁ m₃
  ValueOf-trans r s v v' x h = s v v' x (r v v' x h)

  pub TruthOf-trans : {m₁ m₂ m₃ : M N (Variable N)} → TruthOf m₁ m₂ → TruthOf m₂ m₃ → TruthOf m₁ m₃
  TruthOf-trans r s v v' n h =
      let (n₁, h₁, e₁) = r v v' n h in let (n₂, h₂, e₂) = s v v' n₁ h₁ in (n₂, h₂, e₂ ∙ e₁)

  -- A unary operation succeeds if its operand does and the operator does.
  unary-done :
      (op : Text) (m : M N (Variable N)) (v v' : Vm N) (z : Variable N)
      → unary_of D op m v ≡ done z v'
      → (x : Variable N) × (m v ≡ done x v') × (run_unary_operation D x op ≡ ok z)
  unary-done op m v v' z h =
      let (x, v₁, hm, hl) = and_then-done (m v) _ h in
      let (r, e) = lift-done _ hl in (x, subst (λ w. m v ≡ done x w) e hm, r)

  unary-run :
      (op : Text) (m : M N (Variable N)) (v v' : Vm N) (x z : Variable N)
      → m v ≡ done x v'
      → run_unary_operation D x op ≡ ok z
      → unary_of D op m v ≡ done z v'
  unary-run op m v v' x z hm r = rw (hm, r)

  binary-done :
      (op : Text) (m₁ m₂ : M N (Variable N)) (v v' : Vm N) (z : Variable N)
      → binary_of D op m₁ m₂ v ≡ done z v'
      → (x : Variable N) × (y : Variable N) × (v₁ : Vm N) × (m₁ v ≡ done x v₁)
        × (m₂ v₁ ≡ done y v')
        × (run_binary_operation D x y op ≡ ok z)
  binary-done op m₁ m₂ v v' z h =
      let (x, v₁, h₁, k) = and_then-done (m₁ v) _ h in
      let (y, v₂, h₂, hl) = and_then-done (m₂ v₁) _ k in
      let (r, e) = lift-done _ hl in (x, y, v₁, h₁, subst (λ w. m₂ v₁ ≡ done y w) e h₂, r)

  binary-run :
      (op : Text) (m₁ m₂ : M N (Variable N)) (v v₁ v' : Vm N) (x y z : Variable N)
      → m₁ v ≡ done x v₁
      → m₂ v₁ ≡ done y v'
      → run_binary_operation D x y op ≡ ok z
      → binary_of D op m₁ m₂ v ≡ done z v'
  binary-run op m₁ m₂ v v₁ v' x y z h₁ h₂ r = rw (h₁, h₂, r)

  -- Congruence: `not`, `and` and `or` see only the truth of their operands.
  pub not-cong :
      {m m' : M N (Variable N)}
      → TruthOf m m'
      → ValueOf (unary_of D (codes "not") m) (unary_of D (codes "not") m')
  not-cong {m} {m'} r v v' z h =
      let (x, hm, hr) = unary-done (codes "not") m v v' z h in
      let (n, xn, zn) = not-eq-ok D x z hr in
      let (n', hm', t) = r v v' n (subst (λ y. m v ≡ done y v') xn hm) in
      unary-run (codes "not") m' v v' (number n') z hm'
        (not_number D n' ∙ ap (λ (b : Bool). ok (of_bool D (not b))) t ∙ ap ok (sym zn))

  pub unary-cong :
      (op : Text) {m m' : M N (Variable N)}
      → ValueOf m m'
      → ValueOf (unary_of D op m) (unary_of D op m')
  unary-cong op {m} {m'} r v v' z h =
      let (x, hm, hr) = unary-done op m v v' z h in unary-run op m' v v' x z (r v v' x hm) hr

  pub binary-cong :
      (op : Text) {m₁ m₁' m₂ m₂' : M N (Variable N)}
      → ValueOf m₁ m₁'
      → ValueOf m₂ m₂'
      → ValueOf (binary_of D op m₁ m₂) (binary_of D op m₁' m₂')
  binary-cong op {m₁} {m₁'} {m₂} {m₂'} r s v v' z h =
      let (x, y, v₁, h₁, h₂, hr) = binary-done op m₁ m₂ v v' z h in
      binary-run op m₁' m₂' v v₁ v' x y z (r v v₁ x h₁) (s v₁ v' y h₂) hr

  pub connective-cong :
      (c : Bool) {m₁ m₁' m₂ m₂' : M N (Variable N)}
      → TruthOf m₁ m₁'
      → TruthOf m₂ m₂'
      → ValueOf (binary_of D (connective_name c) m₁ m₂) (binary_of D (connective_name c) m₁' m₂')
  connective-cong c {m₁} {m₁'} {m₂} {m₂'} r s v v' z h =
      let (x, y, v₁, h₁, h₂, hr) = binary-done (connective_name c) m₁ m₂ v v' z h in
      let (a, b, xa, yb, zc) = connective-eq-ok D c x y z hr in
      let (a', h₁', ta) = r v v₁ a (subst (λ w. m₁ v ≡ done w v₁) xa h₁) in
      let (b', h₂', tb) = s v₁ v' b (subst (λ w. m₂ v₁ ≡ done w v') yb h₂) in
      binary-run (connective_name c) m₁' m₂' v v₁ v' (number a') (number b') z h₁' h₂' (
        connective_numbers D c a' b'
        ∙ ap₂ (λ (p q : Bool). ok (of_bool D (connective c p q))) ta tb
        ∙ ap ok (sym zc))

  module _ (L : DecimalLaws D) where
    is_true-of_bool : {n : N} {b : Bool} → number n ≡ of_bool D b → is_true D n ≡ b
    is_true-of_bool {b} h = ap (is_true D) (number-injective h) ∙ is_true-truth D L b

    -- pushDownNots at a comparison
    pub push-comparison :
        (op op' : Text)
        → Inverts D op op'
        → (m₁ m₂ : M N (Variable N))
        → ValueOf (unary_of D (codes "not") (binary_of D op m₁ m₂)) (binary_of D op' m₁ m₂)
    push-comparison op op' inv m₁ m₂ v v' z h =
        let (w, hb, hr) = unary-done (codes "not") (binary_of D op m₁ m₂) v v' z h in
        let (x, y, v₁, h₁, h₂, hw) = binary-done op m₁ m₂ v v' w hb in
        let (b, wb, r) = inv x y w hw in
        let (n, wn, zn) = not-eq-ok D w z hr in
        let tb : is_true D n ≡ b = is_true-of_bool (sym wn ∙ wb) in
        binary-run op' m₁ m₂ v v₁ v' x y z h₁ h₂
          (r ∙ ap (λ (a : Bool). ok (of_bool D (not a))) (sym tb) ∙ ap ok (sym zn))

    -- pushDownNots at `and` and `or`
    pub push-connective :
        (c : Bool) (m₁ m₂ : M N (Variable N))
        → ValueOf (unary_of D (codes "not") (binary_of D (connective_name c) m₁ m₂)) (
            binary_of D
              (connective_name (not c))
              (unary_of D (codes "not") m₁)
              (unary_of D (codes "not") m₂))
    push-connective c m₁ m₂ v v' z h =
        let (w, hb, hr) =
          unary-done (codes "not") (binary_of D (connective_name c) m₁ m₂) v v' z h in
        let (x, y, v₁, h₁, h₂, hw) = binary-done (connective_name c) m₁ m₂ v v' w hb in
        let (a, b, xa, yb, wc) = connective-eq-ok D c x y w hw in
        let (n, wn, zn) = not-eq-ok D w z hr in
        let tn = is_true-of_bool (sym wn ∙ wc) in
        let left = truth D (not (is_true D a)) in
        let right = truth D (not (is_true D b)) in
        binary-run (connective_name (not c)) (unary_of D (codes "not") m₁)
          (unary_of D (codes "not") m₂) v v₁ v' (number left) (number right) z
          (unary-run (codes "not") m₁ v v₁ (number a) (number left)
            (subst (λ u. m₁ v ≡ done u v₁) xa h₁) (not_number D a))
          (unary-run (codes "not") m₂ v₁ v' (number b) (number right)
            (subst (λ u. m₂ v₁ ≡ done u v') yb h₂) (not_number D b))
          (connective_numbers D (not c) left right
            ∙ ap₂ (λ (p q : Bool). ok (of_bool D (connective (not c) p q))) (is_true-truth D L _)
                (is_true-truth D L _)
            ∙ ap (λ (p : Bool). ok (of_bool D p)) (connective-not c _ _ ∙ ap not (sym tn))
            ∙ ap ok (sym zn))

    -- pushDownNots at a second `not`: the value becomes one that is as true
    pub push-not :
        (m : M N (Variable N)) → TruthOf (unary_of D (codes "not") (unary_of D (codes "not") m)) m
    push-not m v v' k h =
        let (w, hw, hr) = unary-done (codes "not") (unary_of D (codes "not") m) v v' (number k) h in
        let (x, hm, hx) = unary-done (codes "not") m v v' w hw in
        let (n, xn, wn) = not-eq-ok D x w hx in
        let (j, wj, kj) = not-eq-ok D w (number k) hr in
        let tj = is_true-of_bool (sym wj ∙ wn) in
        let tk = is_true-of_bool kj in
        (n, subst (λ u. m v ≡ done u v') xn hm, sym (tk ∙ ap not tj ∙ not-not (is_true D n)))

    -- bubbleUpNots
    pub bubble-connective :
        (c : Bool) (m₁ m₂ : M N (Variable N))
        → ValueOf
            (binary_of D
              (connective_name c)
              (unary_of D (codes "not") m₁)
              (unary_of D (codes "not") m₂))
            (unary_of D (codes "not") (binary_of D (connective_name (not c)) m₁ m₂))
    bubble-connective c m₁ m₂ v v' z h =
        let (x, y, v₁, h₁, h₂, hw) =
          binary-done (connective_name c) (unary_of D (codes "not") m₁)
            (unary_of D (codes "not") m₂) v v' z h in
        let (x₀, k₁, r₁) = unary-done (codes "not") m₁ v v₁ x h₁ in
        let (y₀, k₂, r₂) = unary-done (codes "not") m₂ v₁ v' y h₂ in
        let (a, xa, xt) = not-eq-ok D x₀ x r₁ in
        let (b, yb, yt) = not-eq-ok D y₀ y r₂ in
        let (p, q, xp, yq, zc) = connective-eq-ok D c x y z hw in
        let tp = is_true-of_bool (sym xp ∙ xt) in
        let tq = is_true-of_bool (sym yq ∙ yt) in
        let joined = truth D (connective (not c) (is_true D a) (is_true D b)) in
        unary-run (codes "not") (binary_of D (connective_name (not c)) m₁ m₂) v v' (number joined) z
          (binary-run (connective_name (not c)) m₁ m₂ v v₁ v' (number a) (number b) (number joined)
            (subst (λ u. m₁ v ≡ done u v₁) xa k₁) (subst (λ u. m₂ v₁ ≡ done u v') yb k₂)
            (connective_numbers D (not c) a b))
          (not_number D joined
            ∙ ap (λ (t : Bool). ok (of_bool D (not t))) (is_true-truth D L _)
            ∙ ap (λ (t : Bool). ok (of_bool D t))
                (not-connective c _ _ ∙ ap₂ (connective c) (sym tp) (sym tq))
            ∙ ap ok (sym zc))
