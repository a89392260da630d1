-- ===== src/Validators/Lengths.antt =====
-- pkg/validators/code_length.go: which code the validator accepts.
use yodk.Common.{◌≡◌, refl, ◌≤◌, List, [], ◌∷◌, ◌++◌, length, ◌==◌, Bool-cases, inl, inr}
use yodk.Text.{Text}
use yodk.Validators.{split_lines, trim_space}

-- The lines with a line break between any two.
unfoldable pub join_lines : List Text → Text
join_lines [] = []
join_lines (line ∷ []) = line
join_lines (line ∷ next ∷ rest) = line ++ 10 ∷ join_lines (next ∷ rest)

-- Every line has at most 70 characters without the white space around it.
abbrev pub Fits : List Text → Type 0
Fits [] = Unit
Fits (line ∷ rest) = (length (trim_space line) ≤ 70) × Fits rest

pub split_lines-cons :
    (s : Text) → (line : Text) × (rest : List Text) × (split_lines s ≡ line ∷ rest)
unfolding split_lines
split_lines-cons [] = ([], [], refl)
split_lines-cons (c ∷ s) =
    let (line, rest, e) = split_lines-cons s in
    elim (Bool-cases (c == 10)) [
      | inl b ↦ ([], split_lines s, rw b refl)
      | inr b ↦ (c ∷ line, rest, rw (b, e) refl)
    ]

join_lines-break :
    (line : Text) (rest : List Text) → join_lines ([] ∷ line ∷ rest) ≡ 10 ∷ join_lines (line ∷ rest)
unfolding join_lines
join_lines-break line rest = refl
