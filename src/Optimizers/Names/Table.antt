-- ===== src/Optimizers/Names/Table.antt =====
-- The table of the optimizer: one short name for each variable, and the way back.
use yodk.Common.{
  ℕ, ◌+◌, ◌<◌, ◌≡◌, ◌≢◌, ◌↔◌, ◌⊎◌, ap, sym, ◌∙◌, false, none, some, inl, inr, Bool-cases,
  Option-cases, arith, if◌then◌else◌,
}
use mathlib.Core.Path.{subst}
use mathlib.Core.Option.{some-injective}
use yodk.Text.{Text, codes, text_eq, has_prefix, to_lower}
use yodk.Text.Laws.{eq_of_text_eq}
use yodk.Text.Map.{Map, lookup, insert, lookup-insert, lookup-insert_self}
use yodk.Optimizers.Names.{
  VariableNameOptimizer, new_variable_name_optimizer, var_name, optimize_var_name,
  get_reversal_table,
}
use yodk.Optimizers.Names.Numbering.{var_name-injective}

none-some : {t : Text} → none ≡ some t → ⊥
none-some h = cc

-- Each short name in the table was generated, no two variables share one, and the reversal table
-- leads back to a spelling of the variable.
pub record IsWellFormed (o : VariableNameOptimizer) : Type 0 where
  pub positive : 0 < o.var_number
  pub generated :
      (k name : Text)
      → lookup k o.variable_mappings ≡ some name
      → (i : ℕ) × (0 < i) × (i < o.var_number) × (name ≡ var_name i)
  pub separate :
      (k k' name : Text)
      → lookup k o.variable_mappings ≡ some name
      → lookup k' o.variable_mappings ≡ some name
      → k ≡ k'
  pub reversed :
      (k name : Text)
      → lookup k o.variable_mappings ≡ some name
      → (original : Text) × (lookup name o.inverted_mappings ≡ some original)
        × (to_lower original ≡ k)

-- What is in the table of `o` is in that of `o'`.
abbrev pub Extends : VariableNameOptimizer → VariableNameOptimizer → Type 0
Extends o o' =
    (k name : Text)
    → lookup k o.variable_mappings ≡ some name
    → lookup k o'.variable_mappings ≡ some name

-- an entry of a map with one more entry: the new one, or an old one
entry_cases :
    (k j name name' : Text) (m : Map Text)
    → lookup j (insert k name m) ≡ some name'
    → ((k ≡ j) × (name ≡ name')) ⊎ ((text_eq k j ≡ false) × (lookup j m ≡ some name'))
entry_cases k j name name' m h =
    let h' : (if text_eq k j then some name else lookup j m) ≡ some name' =
      sym (lookup-insert k j name m) ∙ h in
    elim (Bool-cases (text_eq k j)) [
      | inl e ↦ inl (eq_of_text_eq k j e, some-injective _ _ (rw e at h'))
      | inr e ↦ inr (e, rw e at h')
    ]

other_entry : (k j v : Text) (m : Map Text) → (k ≡ j → ⊥) → lookup j (insert k v m) ≡ lookup j m
other_entry k j v m ne = elim (Bool-cases (text_eq k j)) [
  | inl e ↦ absurd (ne (eq_of_text_eq k j e))
  | inr e ↦ lookup-insert k j v m ∙ rw e
]

-- the table with a new variable
abbrev added : Text → VariableNameOptimizer → VariableNameOptimizer
added name o = record {
  variable_mappings = insert (to_lower name) (var_name o.var_number) o.variable_mappings;
  inverted_mappings = insert (var_name o.var_number) name o.inverted_mappings;
  var_number = o.var_number + 1;
}

module _ (o : VariableNameOptimizer) (w : IsWellFormed o) where
  -- the next name is not in the table
  next_is_new : (k : Text) → lookup k o.variable_mappings ≢ some (var_name o.var_number)
  next_is_new k h =
      let (i, pos, below, e) = w.generated k _ h in
      omega (arith, var_name-injective o.var_number i e)

  module _ (name : Text) (new : lookup (to_lower name) o.variable_mappings ≡ none) where
    added-generated :
        (k n : Text)
        → lookup k (added name o).variable_mappings ≡ some n
        → (i : ℕ) × (0 < i) × (i < o.var_number + 1) × (n ≡ var_name i)
    added-generated k n h = elim (entry_cases (to_lower name) k (var_name o.var_number) n _ h) [
      | inl (ek, en) ↦ (o.var_number, w.positive, omega arith, sym en)
      | inr (ek, old) ↦ let (i, pos, below, e) = w.generated k n old in (i, pos, omega arith, e)
    ]

    added-separate :
        (k k' n : Text)
        → lookup k (added name o).variable_mappings ≡ some n
        → lookup k' (added name o).variable_mappings ≡ some n
        → k ≡ k'
    added-separate k k' n h h' =
        elim (entry_cases (to_lower name) k (var_name o.var_number) n _ h) [
          | inl (ek, en) ↦ elim (entry_cases (to_lower name) k' (var_name o.var_number) n _ h') [
            | inl (ek', en') ↦ sym ek ∙ ek'
            | inr (ek', old') ↦ absurd (next_is_new k' (old' ∙ ap some (sym en)))
          ]
          | inr (ek, old) ↦ elim (entry_cases (to_lower name) k' (var_name o.var_number) n _ h') [
            | inl (ek', en') ↦ absurd (next_is_new k (old ∙ ap some (sym en')))
            | inr (ek', old') ↦ w.separate k k' n old old'
          ]
        ]

    added-reversed :
        (k n : Text)
        → lookup k (added name o).variable_mappings ≡ some n
        → (original : Text) × (lookup n (added name o).inverted_mappings ≡ some original)
          × (to_lower original ≡ k)
    added-reversed k n h = elim (entry_cases (to_lower name) k (var_name o.var_number) n _ h) [
      | inl (ek, en) ↦ (
        name,
        subst (λ t. lookup t (added name o).inverted_mappings ≡ some name) en
            (lookup-insert_self (var_name o.var_number) name o.inverted_mappings),
        ek,
      )
      | inr (ek, old) ↦
          let (original, there, back) = w.reversed k n old in
          (
            original,
            other_entry (var_name o.var_number) n name o.inverted_mappings
                  (λ e. next_is_new k (old ∙ ap some (sym e)))
                ∙ there,
            back,
          )
    ]

    added-Extends : Extends o (added name o)
    added-Extends k n h =
        other_entry (to_lower name) k (var_name o.var_number) o.variable_mappings
          (λ e. none-some (sym new ∙ ap (λ t. lookup t o.variable_mappings) e ∙ h))
        ∙ h

    added-IsWellFormed : IsWellFormed (added name o)
    added-IsWellFormed = record {
      positive = omega arith;
      generated = added-generated;
      separate = added-separate;
      reversed = added-reversed;
    }

  -- What OptimizeVarName does with a local variable.
  record Optimized (name result : Text) (o' : VariableNameOptimizer) : Type 0 where
    table : IsWellFormed o'
    found : lookup (to_lower name) o'.variable_mappings ≡ some result
    extends : Extends o o'

  optimize_local :
      (name : Text)
      → has_prefix name (codes ":") ≡ false
      → Optimized name (optimize_var_name name o).0 (optimize_var_name name o).1
  unfolding optimize_var_name
  optimize_local name local = elim (Option-cases (lookup (to_lower name) o.variable_mappings)) [
    | inl new ↦
        rw (local, new)
          (record {
            table = added-IsWellFormed name new;
            found = lookup-insert_self (to_lower name) (var_name o.var_number) o.variable_mappings;
            extends = added-Extends name new;
          })
    | inr (old, e) ↦ rw (local, e) (record { table = w; found = e; extends = λ k n h. h })
  ]

-- A new optimizer is well formed.
pub new-IsWellFormed : IsWellFormed new_variable_name_optimizer
unfolding new_variable_name_optimizer lookup
new-IsWellFormed = record {
  positive = omega arith;
  generated = λ k n h. absurd (none-some h);
  separate = λ k k' n h h'. absurd (none-some h);
  reversed = λ k n h. absurd (none-some h);
}

-- OptimizeVarName keeps the table well formed, whatever the name.
pub optimize_var_name-IsWellFormed :
    (name : Text) (o : VariableNameOptimizer)
    → IsWellFormed o
    → IsWellFormed (optimize_var_name name o).1
unfolding optimize_var_name
optimize_var_name-IsWellFormed name o w = elim (Bool-cases (has_prefix name (codes ":"))) [
  | inl global ↦ rw global w
  | inr local ↦ Optimized.table (optimize_local o w name local)
]

-- Two local variables that are renamed one after the other get one short name exactly when they are
-- one variable, that is when their names agree up to case.
pub optimize_var_name-eq_iff :
    (o : VariableNameOptimizer) (a b : Text)
    → IsWellFormed o
    → has_prefix a (codes ":") ≡ false
    → has_prefix b (codes ":") ≡ false
    → ((optimize_var_name a o).0 ≡ (optimize_var_name b (optimize_var_name a o).1).0)
      ↔ (to_lower a ≡ to_lower b)
optimize_var_name-eq_iff o a b w la lb =
    let first = optimize_local o w a la in
    let o₁ = (optimize_var_name a o).1 in
    let second = optimize_local o₁ first.table b lb in
    let o₂ = (optimize_var_name b o₁).1 in
    let a_found = second.extends (to_lower a) _ first.found in
    (
      (λ e.
          IsWellFormed.separate second.table (to_lower a) (to_lower b) _ a_found
            (second.found ∙ ap some (sym e))),
      λ e.
          some-injective _ _
            (sym a_found ∙ ap (λ k. lookup k o₂.variable_mappings) e ∙ second.found),
    )

-- The reversal table gives, for the short name of a local variable, a spelling of the variable.
pub get_reversal_table-optimize_var_name :
    (o : VariableNameOptimizer) (name : Text)
    → IsWellFormed o
    → has_prefix name (codes ":") ≡ false
    → (original : Text) × (lookup
          (optimize_var_name name o).0
          (get_reversal_table (optimize_var_name name o).1)
        ≡ some original)
      × (to_lower original ≡ to_lower name)
unfolding get_reversal_table
get_reversal_table-optimize_var_name o name w local =
    let r = optimize_local o w name local in IsWellFormed.reversed r.table (to_lower name) _ r.found
