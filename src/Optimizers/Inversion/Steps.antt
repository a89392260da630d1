-- ===== src/Optimizers/Inversion/Steps.antt =====
-- The steps of the traversal: what AcceptChild does at one node, given what it does below.
use yodk.Common.{
  ℕ, suc, ◌≡◌, refl, Bool, true, false, not, none, some, inl, inr, Option-cases, arith, ◌⊎◌,
}
use yodk.Text.{Text, codes, is, text_eq}
use yodk.Text.Laws.{eq_of_text_eq}
use yodk.Text.Map.{lookup, AllEntries, AllEntries-lookup}
use yodk.Ast.{Position, Expression, unary_operation, binary_operation}
use yodk.Ast.Positions.{start}
use yodk.Ast.Visitor.{post_visit, keep, replace_skip, accepted, accept_child}
use yodk.Vm.Decimals.{Decimals, DecimalLaws}
use yodk.Vm.Operations.Logic.{
  connective_name, Inverts, Inverts-ge_lt, Inverts-le_gt, Inverts-lt_ge, Inverts-gt_le,
  Inverts-eq_ne, Inverts-ne_eq,
}
use yodk.Vm.Expressions.{run_expr}
use yodk.Optimizers.Inversion.{inversions, andor, negation, push_into, bubble_up, visit}
use yodk.Optimizers.Inversion.Placed.{Place, value, truth}
use yodk.Optimizers.Inversion.Refine.{
  ValueOf, TruthOf, ValueOf-TruthOf, ValueOf-trans, TruthOf-trans, not-cong, unary-cong,
  binary-cong, connective-cong, bubble-connective,
}

-- the entries of `andor`
abbrev pub IsConnective : Text → Text → Type 0
IsConnective op op' = (c : Bool) × (op ≡ connective_name c) × (op' ≡ connective_name (not c))

andor-entries : AllEntries IsConnective andor
andor-entries = ((true, refl, refl), ((false, refl, refl), tt))

pub andor-IsConnective : (op op' : Text) → lookup op andor ≡ some op' → IsConnective op op'
andor-IsConnective op op' h = AllEntries-lookup IsConnective andor op op' andor-entries h

-- what bubbleUpNots found when it returns an expression
bubble_up-some :
    (op : Text) (a b e : Expression)
    → bubble_up op a b ≡ some e
    → (p₁ : Position) × (p₂ : Position) × (l : Expression) × (r : Expression) × (opposite : Text)
      × (a ≡ negation p₁ l)
      × (b ≡ negation p₂ r)
      × (lookup op andor ≡ some opposite)
      × (e ≡ negation (start l) (binary_operation opposite l r))
unfolding bubble_up
bubble_up-some op (unary_operation p₁ op₁ l) (unary_operation p₂ op₂ r) e h =
    elim (Option-cases (lookup op andor)) [
      | inl n ↦ absurd (ground (arith, n))
      | inr (opposite, o) ↦ (
        p₁,
        p₂,
        l,
        r,
        opposite,
        ground (arith, o, eq_of_text_eq op₁ (codes "not")),
        ground (arith, o, eq_of_text_eq op₂ (codes "not")),
        o,
        ground (arith, o),
      )
    ]
bubble_up-some op _ _ e h = cc

module _ {N : Type 0} (D : Decimals N) (L : DecimalLaws D) where
  -- the entries of `inversions`
  abbrev pub IsInversion : Text → Text → Type 0
  IsInversion op op' = Inverts D op op' × (lookup op andor ≡ none)

  inversions-entries : AllEntries IsInversion inversions
  unfolding lookup text_eq
  inversions-entries = (
    (Inverts-ge_lt D L, refl),
    (
      (Inverts-le_gt D L, refl),
      (
        (Inverts-lt_ge D L, refl),
        ((Inverts-gt_le D L, refl), ((Inverts-eq_ne D L, refl), ((Inverts-ne_eq D L, refl), tt))),
      ),
    ),
  )

  pub inversions-IsInversion :
      (op op' : Text) → lookup op inversions ≡ some op' → IsInversion op op'
  inversions-IsInversion op op' h =
      AllEntries-lookup IsInversion inversions op op' inversions-entries h

  -- `e'` may stand in the place of `e`
  abbrev pub Refines : Place → Expression → Expression → Type 0
  Refines value e e' = ValueOf D (run_expr D e) (run_expr D e')
  Refines truth e e' = TruthOf D (run_expr D e) (run_expr D e')

  pub Refines-of_value :
      (place : Place) (e e' : Expression)
      → ValueOf D (run_expr D e) (run_expr D e')
      → Refines place e e'
  Refines-of_value value e e' r = r
  Refines-of_value truth e e' r = ValueOf-TruthOf D r

  -- AcceptChild with this fuel returns an expression that may stand there.
  abbrev pub Accepts : Place → ℕ → Expression → Type 0
  Accepts place fuel e =
      (e' : Expression) × (accept_child visit fuel e tt ≡ accepted e' tt) × Refines place e e'

  pub Accepts-of_value :
      (place : Place) (fuel : ℕ) (e : Expression) → Accepts value fuel e → Accepts place fuel e
  Accepts-of_value place fuel e (e', h, r) = (e', h, Refines-of_value place e e' r)

  -- bubbleUpNots keeps the value
  bubble_up_sound :
      (op : Text) (a b e : Expression)
      → bubble_up op a b ≡ some e
      → ValueOf D (run_expr D (binary_operation op a b)) (run_expr D e)
  unfolding run_expr
  bubble_up_sound op a b e h =
      let (p₁, p₂, l, r, opposite, ea, eb, eo, ee) = bubble_up-some op a b e h in
      let (c, ec, ec') = andor-IsConnective op opposite eo in
      rw (ea, eb, ee, ec, ec') (bubble-connective D L c (run_expr D l) (run_expr D r))

  -- the PostVisit of a binary operation
  settle_binary :
      (op : Text) (a b : Expression)
      → (e : Expression) × ((visit post_visit (binary_operation op a b) tt ≡ (keep e, tt))
          ⊎ (visit post_visit (binary_operation op a b) tt ≡ (replace_skip e, tt)))
        × ValueOf D (run_expr D (binary_operation op a b)) (run_expr D e)
  unfolding visit
  settle_binary op a b = elim (Option-cases (bubble_up op a b)) [
    | inl n ↦ (binary_operation op a b, inl (ground (arith, n)), λ v v' x h. h)
    | inr (e, s) ↦ (e, inr (ground (arith, s)), bubble_up_sound op a b e s)
  ]

  -- AcceptChild of a binary operation, given what it does with the operands
  Accepts-binary :
      (fuel : ℕ) (op : Text) (a b a' b' : Expression)
      → accept_child visit fuel a tt ≡ accepted a' tt
      → accept_child visit fuel b tt ≡ accepted b' tt
      → ValueOf D (run_expr D (binary_operation op a b)) (run_expr D (binary_operation op a' b'))
      → Accepts value (suc fuel) (binary_operation op a b)
  unfolding accept_child visit
  Accepts-binary fuel op a b a' b' ha hb r =
      let (e, s, q) = settle_binary op a' b' in (e, ground (arith, ha, hb, s), ValueOf-trans D r q)

  -- operands of `and` and `or`
  pub Accepts-connective :
      (fuel : ℕ) (c : Bool) (a b : Expression)
      → Accepts truth fuel a
      → Accepts truth fuel b
      → Accepts value (suc fuel) (binary_operation (connective_name c) a b)
  unfolding run_expr
  Accepts-connective fuel c a b (a', ha, ra) (b', hb, rb) =
      Accepts-binary fuel (connective_name c) a b a' b' ha hb (connective-cong D c ra rb)

  -- operands of another operator
  pub Accepts-operator :
      (fuel : ℕ) (op : Text) (a b : Expression)
      → Accepts value fuel a
      → Accepts value fuel b
      → Accepts value (suc fuel) (binary_operation op a b)
  unfolding run_expr
  Accepts-operator fuel op a b (a', ha, ra) (b', hb, rb) =
      Accepts-binary fuel op a b a' b' ha hb (binary-cong D op ra rb)

  -- AcceptChild of a unary operation that pushDownNots leaves alone
  pub Accepts-not :
      (fuel : ℕ) (pos : Position) (a : Expression)
      → push_into a ≡ none
      → Accepts truth fuel a
      → Accepts value (suc fuel) (negation pos a)
  unfolding accept_child visit run_expr text_eq
  Accepts-not fuel pos a n (a', ha, ra) = (negation pos a', ground (arith, n, ha), not-cong D ra)

  pub Accepts-unary :
      (fuel : ℕ) (pos : Position) (op : Text) (a : Expression)
      → is op "not" ≡ false
      → Accepts value fuel a
      → Accepts value (suc fuel) (unary_operation pos op a)
  unfolding accept_child visit run_expr
  Accepts-unary fuel pos op a n (a', ha, ra) =
      (unary_operation pos op a', ground (arith, n, ha), unary-cong D op ra)

  -- AcceptChild of a `not` that pushDownNots replaces
  pub Accepts-pushed :
      (fuel : ℕ) (place : Place) (pos : Position) (a e : Expression)
      → push_into a ≡ some e
      → Refines place (negation pos a) e
      → Accepts place fuel e
      → Accepts place (suc fuel) (negation pos a)
  unfolding accept_child visit text_eq
  Accepts-pushed fuel value pos a e s r (e', he, q) =
      (e', ground (arith, s, he), ValueOf-trans D r q)
  Accepts-pushed fuel truth pos a e s r (e', he, q) =
      (e', ground (arith, s, he), TruthOf-trans D r q)
