-- ===== src/Nolol/Labels/Numbers.antt =====
-- pkg/nolol/converter_gotos.go: which numbers the labels get.
use yodk.Common.{◌≡◌, ◌≤◌, ℕ, suc, ◌+◌, Bool, ◌&&◌, List, [], ◌∷◌, some, if◌then◌else◌}
use yodk.Text.{Text, to_lower, text_eq}
use yodk.Text.Map.{Map, lookup}
use yodk.Nolol.Merging.{StatementLine}
use yodk.Nolol.Labels.{Labelled, labelled, duplicate, exists, get_jump_label, has_label, removes}

abbrev one_if : Bool → ℕ
one_if b = if b then 1 else 0

module _ {S : Type 0} where
  -- no label that is known gets another number
  abbrev KeepsLabels : Map ℕ → Labelled S → Type 0
  KeepsLabels m (labelled labels lines) =
      (k : Text) (v : ℕ) → lookup k m ≡ some v → lookup k labels ≡ some v
  KeepsLabels m (duplicate name) = Unit

  -- the label has this number
  abbrev pub Numbers : Text → ℕ → Labelled S → Type 0
  Numbers name v (labelled labels lines) = get_jump_label name labels ≡ some v
  Numbers name v (duplicate other) = Unit

  -- the lines that are not removed
  abbrev pub kept : List (StatementLine S) → List (StatementLine S)
  kept [] = []
  kept (line ∷ rest) = if removes line then kept rest else line ∷ kept rest

  -- these lines are left
  abbrev pub Leaves : List (StatementLine S) → Labelled S → Type 0
  Leaves all (labelled labels lines) = lines ≡ all
  Leaves all (duplicate name) = Unit

  abbrev pub declares : Text → StatementLine S → Bool
  declares name line = has_label line && text_eq (to_lower line.label) (to_lower name)

  -- how many lines declare the label, in upper or lower case
  unfoldable pub declarations : Text → List (StatementLine S) → ℕ
  declarations name [] = 0
  declarations name (line ∷ rest) =
      if declares name line then suc (declarations name rest) else declarations name rest

  -- The result is labels when each label is counted once at most, and else it names one counted twice.
  abbrev pub Once : (Text → ℕ) → Labelled S → Type 0
  Once total (labelled labels lines) = (name : Text) → total name ≤ 1
  Once total (duplicate name) = 2 ≤ total name

  -- the lines that declare a label, with those before them
  abbrev total : Map ℕ → List (StatementLine S) → Text → ℕ
  total m lines name = declarations name lines + one_if (exists (get_jump_label name m))
