-- ===== src/Validators.antt =====
-- pkg/validators/code_length.go: whether code fits the 20 lines of 70 characters of yolol.
pub mod Lengths
use yodk.Common.{
  ℕ, suc, ◌+◌, List, [], ◌∷◌, Bool, true, false, ◌&&◌, ◌||◌, Option, none, some, if◌then◌else◌,
  ◌==◌, ltb, length,
}
use yodk.Text.{Text, codes}

-- strings.Split(code, "\n")
unfoldable pub split_lines : Text → List Text
split_lines [] = [] ∷ []
split_lines (c ∷ s) =
    if c == 10
    then [] ∷ split_lines s
    else elim (split_lines s) [ [] ↦ (c ∷ []) ∷ [] | line ∷ rest ↦ (c ∷ line) ∷ rest ]

-- a white space of ASCII: unicode.IsSpace
unfoldable pub is_space : ℕ → Bool
is_space c = (c == 32) || (ltb 8 c && ltb c 14)

unfoldable pub trim_left : Text → Text
trim_left [] = []
trim_left (c ∷ s) = if is_space c then trim_left s else c ∷ s

unfoldable pub trim_right : Text → Text
trim_right [] = []
trim_right (c ∷ s) = elim (trim_right s) [
  | [] ↦ if is_space c then [] else c ∷ []
  | d ∷ t ↦ c ∷ d ∷ t
]

-- strings.TrimSpace
unfoldable pub trim_space : Text → Text
unfolding trim_left trim_right
trim_space s = trim_right (trim_left s)

-- the parser.Error of the validator: its message, and the lines and columns it points to
pub record LengthError : Type 0 where
  pub message : Text
  pub start_line : ℕ
  pub start_coloumn : ℕ
  pub end_line : ℕ
  pub end_coloumn : ℕ

-- the loop over the lines, from the index i
unfoldable pub check_lines : ℕ → List Text → Option LengthError
unfolding trim_space
check_lines i [] = none
check_lines i (line ∷ rest) =
    if ltb 70 (length (trim_space line))
    then some (record {
      message = codes "The line has more than 70 characters";
      start_line = i + 1;
      start_coloumn = 70;
      end_line = i + 1;
      end_coloumn = length (trim_space line);
    })
    else check_lines (suc i) rest

-- ValidateCodeLength
unfoldable pub validate_code_length : Text → Option LengthError
unfolding check_lines split_lines
validate_code_length code =
    let lines : List Text = split_lines code in
    if ltb 20 (length lines)
    then some (record {
      message = codes "Program has more than 20 lines";
      start_line = 21;
      start_coloumn = 1;
      end_line = length lines;
      end_coloumn = 70;
    })
    else check_lines 0 lines
