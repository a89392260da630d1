-- ===== src/Text/Map.antt =====
-- Go maps with string keys, as association lists in which a key stands once.
use yodk.Common.{
  ◌≡◌, refl, List, inl, inr, Bool-cases, [], ◌∷◌, Option, none, some, if◌then◌else◌, arith,
}
use mathlib.Core.Path.{subst₂}
use mathlib.Core.Option.{some-injective}
use yodk.Text.{Text, text_eq}
use yodk.Text.Laws.{text_eq_refl, eq_of_text_eq, text_eq-sym}

abbrev pub Map {ℓ} : Type ℓ → Type ℓ
Map V = List (Text × V)

module _ {ℓ} {V : Type ℓ} where
  -- m[k], with whether the key exists
  unfoldable pub lookup : Text → Map V → Option V
  lookup k [] = none
  lookup k ((j, v) ∷ m) = if text_eq j k then some v else lookup k m

  -- m[k] = v
  unfoldable pub insert : Text → V → Map V → Map V
  insert k v [] = (k, v) ∷ []
  insert k v ((j, w) ∷ m) = if text_eq j k then (k, v) ∷ m else (j, w) ∷ insert k v m

  pub lookup-insert :
      (k j : Text) (v : V) (m : Map V)
      → lookup j (insert k v m) ≡ (if text_eq k j then some v else lookup j m)
  unfolding lookup insert
  lookup-insert k j v [] = refl
  lookup-insert k j v ((i, w) ∷ m) = ground (
    arith,
    eq_of_text_eq i k,
    eq_of_text_eq i j,
    eq_of_text_eq k j,
    text_eq_refl i,
    text_eq_refl k,
    text_eq_refl j,
    text_eq-sym i k,
    lookup-insert k j v m,
  )

  pub lookup-insert_self : (k : Text) (v : V) (m : Map V) → lookup k (insert k v m) ≡ some v
  lookup-insert_self k v m = rw (lookup-insert, text_eq_refl)

-- A property of every entry of a map.
abbrev pub AllEntries {ℓ κ} : {V : Type ℓ} → (Text → V → Type κ) → Map V → Type κ
AllEntries P [] = Unit
AllEntries P ((k, v) ∷ m) = P k v × AllEntries P m

pub AllEntries-lookup {ℓ κ} :
    {V : Type ℓ} (P : Text → V → Type κ) (m : Map V) (k : Text) (v : V)
    → AllEntries P m
    → lookup k m ≡ some v
    → P k v
unfolding lookup
AllEntries-lookup P [] k v a h = cc
AllEntries-lookup P ((j, w) ∷ m) k v a h = elim (Bool-cases (text_eq j k)) [
  | inl e ↦
      let found : some w ≡ some v = rw e at h in
      subst₂ P (eq_of_text_eq j k e) (some-injective _ _ found) a.0
  | inr e ↦ let rest : lookup k m ≡ some v = rw e at h in AllEntries-lookup P m k v a.1 rest
]
