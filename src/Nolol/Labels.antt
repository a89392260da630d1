-- ===== src/Nolol/Labels.antt =====
-- pkg/nolol/converter_gotos.go: the line numbers of labels. The program is its list of statement lines.
pub mod Numbers
use yodk.Common.{
  ℕ, suc, ◌+◌, Bool, true, false, not, ◌&&◌, List, [], ◌∷◌, Option, none, some, if◌then◌else◌, ◌==◌,
  length,
}
use yodk.Text.{Text, to_lower}
use yodk.Text.Map.{Map, lookup, insert}
use yodk.Nolol.Merging.{StatementLine}

-- getJumpLabel
unfoldable pub get_jump_label : Text → Map ℕ → Option ℕ
unfolding lookup
get_jump_label name labels = lookup (to_lower name) labels

-- setJumpLabel
unfoldable pub set_jump_label : Text → ℕ → Map ℕ → Map ℕ
unfolding insert
set_jump_label name val labels = insert (to_lower name) val labels

-- What findJumpLabels leaves: the labels and the lines, or the error at a label that is declared twice.
pub data Labelled (S : Type 0) : Type 0 where
  labelled : Map ℕ → List (StatementLine S) → Labelled S
  duplicate : Text → Labelled S

abbrev pub exists : Option ℕ → Bool
exists none = false
exists (some n) = true

module _ {S : Type 0} where
  abbrev pub has_label : StatementLine S → Bool
  has_label line = not (length line.label == 0)

  -- an empty line, which is removed
  abbrev pub removes : StatementLine S → Bool
  removes line = (length line.statements == 0) && not line.has_eol

  abbrev pub keep_line : StatementLine S → Labelled S → Labelled S
  keep_line line (labelled labels lines) = labelled labels (line ∷ lines)
  keep_line line (duplicate name) = duplicate name

  -- `if line.Label != "" { c.setJumpLabel(line.Label, linecounter) }`
  abbrev pub add_label : StatementLine S → ℕ → Map ℕ → Map ℕ
  add_label line counter labels =
      if has_label line then set_jump_label line.label counter labels else labels

  -- the visits of the lines, with `linecounter`
  unfoldable pub find_from : ℕ → Map ℕ → List (StatementLine S) → Labelled S
  unfolding get_jump_label set_jump_label
  find_from counter labels [] = labelled labels []
  find_from counter labels (line ∷ rest) =
      let next : ℕ = if removes line then counter else suc counter in
      let more = find_from next (add_label line (suc counter) labels) rest in
      if has_label line && exists (get_jump_label line.label labels)
      then duplicate line.label
      else if removes line
      then more
      else keep_line line more

  -- findJumpLabels
  unfoldable pub find_jump_labels : List (StatementLine S) → Labelled S
  unfolding find_from
  find_jump_labels lines = find_from 0 [] lines
