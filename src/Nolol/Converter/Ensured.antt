-- ===== src/Nolol/Converter/Ensured.antt =====
-- pkg/nolol/converter.go: what the functions of the converter ensure when they do not fail.
use yodk.Nolol.Converter.{Converter, Converted, converted, failed, ◌>>=◌}

-- a property of what is returned
abbrev pub Ensures {ℓ κ} : {A : Type ℓ} → (A → Converter → Type κ) → Converted A → Type κ
Ensures P (converted a c) = P a c
Ensures P (failed msg) = Unit

pub Ensures-bind {ℓ κ μ ν} :
    {A : Type ℓ} {B : Type κ} (P : A → Converter → Type μ) (Q : B → Converter → Type ν)
    (m : Converted A) (f : A × Converter → Converted B)
    → Ensures P m
    → ((a : A) (c : Converter) → P a c → Ensures Q (f (a, c)))
    → Ensures Q (m >>= f)
Ensures-bind P Q (converted a c) f h k = k a c h
Ensures-bind P Q (failed msg) f h k = tt

-- The function does not fail, and what it returns has a property.
abbrev pub Returns {ℓ} : {A : Type ℓ} → (A → Converter → Type 0) → Converted A → Type 0
Returns P (converted a c) = P a c
Returns P (failed msg) = ⊥

pub Returns-bind {ℓ κ} :
    {A : Type ℓ} {B : Type κ} (P : A → Converter → Type 0) (Q : B → Converter → Type 0)
    (m : Converted A) (f : A × Converter → Converted B)
    → Returns P m
    → ((a : A) (c : Converter) → P a c → Returns Q (f (a, c)))
    → Returns Q (m >>= f)
Returns-bind P Q (converted a c) f h k = k a c h
Returns-bind P Q (failed msg) f h k = absurd h
