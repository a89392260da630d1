-- ===== src/Nolol/Converter/Gotos.antt =====
-- pkg/nolol/converter_gotos.go, for the converted lines: gotos and labels are removed, and replaced. The
-- visitors go through the statements of a line and those of its ifs.
pub mod Duplicates
use yodk.Common.{
  ℕ, Bool, true, false, not, ◌&&◌, ◌||◌, List, [], ◌∷◌, ◌++◌, map, Option, none, some,
  if◌then◌else◌, ◌==◌, length,
}
use yodk.Text.{Text, codes, text_eq}
use yodk.Text.Map.{Map}
use yodk.Ast.{
  Position, unknown_position, Statement, Statements, nil, cons, no_else, assignment, if_statement,
  goto_statement, deref_statement, number_constant,
}
use yodk.Parsing.Parser.{contains}
use yodk.Nolol.Ast.{
  LabelStatement, LabelStatements, assign, if_then, change, goto_label, no_statement, statement,
  ConvertedLine,
}
use yodk.Nolol.Merging.{StatementLine}
use yodk.Nolol.Merging.LineLength.{get_length_of_line}
use yodk.Nolol.Labels.{get_jump_label}
use yodk.Nolol.Converter.{itoa}

-- A statement as getLengthOfLine prints it: its handler writes a goto to a label as `goto XX`.
unfoldable mutual
  pub printed : LabelStatement → Statement
  printed (assign position name operator value) = assignment position name operator value
  printed (if_then position condition block) =
      if_statement position condition (printed_block block) no_else
  printed (change d) = deref_statement d
  printed (goto_label position label) =
      goto_statement position (number_constant unknown_position (codes "XX"))

  pub printed_block : LabelStatements → Statements
  printed_block no_statement = nil
  printed_block (statement s rest) = cons (printed s) (printed_block rest)

-- getLengthOfLine
unfoldable pub converted_length : List LabelStatement → ℕ
unfolding printed get_length_of_line
converted_length statements = get_length_of_line (map printed statements)

-- a node that is kept, in front of the others
abbrev pub keep_statement : Option LabelStatement → LabelStatements → LabelStatements
keep_statement none rest = rest
keep_statement (some s) rest = statement s rest

-- removeDuplicateGotos: what becomes of a statement, with `lastWasGoto` before and behind it
unfoldable mutual
  pub without_duplicate : LabelStatement → Bool → Option LabelStatement × Bool
  without_duplicate (goto_label position label) last_was_goto =
      (if last_was_goto then none else some (goto_label position label), true)
  without_duplicate (if_then position condition block) last_was_goto =
      (some (if_then position condition (without_duplicates_in block false)), false)
  without_duplicate (assign position name operator value) last_was_goto =
      (some (assign position name operator value), false)
  without_duplicate (change d) last_was_goto = (some (change d), false)

  pub without_duplicates_in : LabelStatements → Bool → LabelStatements
  without_duplicates_in no_statement last_was_goto = no_statement
  without_duplicates_in (statement s rest) last_was_goto =
      let r = without_duplicate s last_was_goto in
      keep_statement r.0 (without_duplicates_in rest r.1)

abbrev pub keep_in_line :
    Option LabelStatement → List LabelStatement × Bool → List LabelStatement × Bool
keep_in_line none r = r
keep_in_line (some s) (rest, last_was_goto) = (s ∷ rest, last_was_goto)

-- the statements of a line
unfoldable pub without_duplicates : List LabelStatement → Bool → List LabelStatement × Bool
unfolding without_duplicate
without_duplicates [] last_was_goto = ([], last_was_goto)
without_duplicates (s ∷ rest) last_was_goto =
    let r = without_duplicate s last_was_goto in keep_in_line r.0 (without_duplicates rest r.1)

-- removeDuplicateGotos; a label may be jumped to
unfoldable pub remove_duplicate_gotos : List ConvertedLine → Bool → List ConvertedLine
unfolding without_duplicates
remove_duplicate_gotos [] last_was_goto = []
remove_duplicate_gotos (line ∷ rest) last_was_goto =
    let r = without_duplicates line.statements (last_was_goto && (length line.label == 0)) in
    record line { statements = r.0 } ∷ remove_duplicate_gotos rest r.1

-- the labels of the gotos
unfoldable mutual
  pub used_labels : LabelStatement → List Text
  used_labels (goto_label position label) = label ∷ []
  used_labels (if_then position condition block) = used_labels_in block
  used_labels (assign position name operator value) = []
  used_labels (change d) = []

  pub used_labels_in : LabelStatements → List Text
  used_labels_in no_statement = []
  used_labels_in (statement s rest) = used_labels s ++ used_labels_in rest

unfoldable pub used_by : List LabelStatement → List Text
unfolding used_labels
used_by [] = []
used_by (s ∷ rest) = used_labels s ++ used_by rest

unfoldable pub used : List ConvertedLine → List Text
unfolding used_by
used [] = []
used (line ∷ rest) = used_by line.statements ++ used rest

-- the second part of removeUnusedLabels
abbrev pub without_unused : List Text → ConvertedLine → ConvertedLine
without_unused labels line = if contains labels line.label then line else record line { label = [] }

-- removeUnusedLabels
unfoldable pub remove_unused_labels : List ConvertedLine → List ConvertedLine
unfolding used contains
remove_unused_labels lines = map (without_unused (used lines)) lines

-- the goto that the first statement is
abbrev pub first_goto : List LabelStatement → Option Text
first_goto (goto_label position label ∷ rest) = some label
first_goto _ = none

abbrev pub has_statements : ConvertedLine → Bool
has_statements line = not (length line.statements == 0)

-- getTargetGoto: the label of the goto that another goto jumps to
unfoldable pub get_target_goto : Bool → Text → List ConvertedLine → Option Text
unfolding text_eq
get_target_goto foundlabel label [] = none
get_target_goto foundlabel label (line ∷ rest) =
    let found : Bool = text_eq line.label label || foundlabel in
    let more = get_target_goto found label rest in
    if not found
    then more
    else if has_statements line
    then first_goto line.statements
    else if line.has_eol
    then none
    else more

abbrev pub or_label : Option Text → Text → Text
or_label none label = label
or_label (some target) label = target

-- resolveGotoChains: the label of each goto becomes that of its target, for the targets there are
unfoldable mutual
  pub resolved : (Text → Option Text) → LabelStatement → LabelStatement
  resolved target (goto_label position label) = goto_label position (or_label (target label) label)
  resolved target (if_then position condition block) =
      if_then position condition (resolved_in target block)
  resolved target (assign position name operator value) = assign position name operator value
  resolved target (change d) = change d

  pub resolved_in : (Text → Option Text) → LabelStatements → LabelStatements
  resolved_in target no_statement = no_statement
  resolved_in target (statement s rest) = statement (resolved target s) (resolved_in target rest)

-- The statements of a line. The first one may be the target of the others, and is changed by then.
unfoldable pub resolved_line : (ConvertedLine → Text → Option Text) → ConvertedLine → ConvertedLine
unfolding resolved
resolved_line target line = elim line.statements [
  | [] ↦ line
  | s ∷ rest ↦
      let first : ConvertedLine = record line { statements = resolved (target line) s ∷ rest } in
      record first { statements = resolved (target line) s ∷ map (resolved (target first)) rest }
]

-- resolveGotoChains, behind the lines that are done
unfoldable pub resolve_from : List ConvertedLine → List ConvertedLine → List ConvertedLine
unfolding resolved_line get_target_goto
resolve_from done [] = done
resolve_from done (line ∷ rest) =
    resolve_from
      (done ++ resolved_line (λ l label. get_target_goto false label (done ++ l ∷ rest)) line ∷ [])
      rest

unfoldable pub resolve_goto_chains : List ConvertedLine → List ConvertedLine
unfolding resolve_from
resolve_goto_chains lines = resolve_from [] lines

-- What replaceGotoLabels gives: yolol, or the error at a label that no line has.
pub data Linked {ℓ} (A : Type ℓ) : Type ℓ where
  linked : A → Linked A
  unknown_label : Text → Linked A

abbrev pub link_then {ℓ κ} : {A : Type ℓ} {B : Type κ} → Linked A → (A → Linked B) → Linked B
link_then (linked a) k = k a
link_then (unknown_label label) k = unknown_label label

abbrev pub goto_line : Position → Text → Option ℕ → Linked Statement
goto_line position label none = unknown_label label
goto_line position label (some n) =
    linked (goto_statement position (number_constant position (itoa n)))

-- replaceGotoLabels
unfoldable mutual
  unfolding get_jump_label itoa

  pub replaced_goto : Map ℕ → LabelStatement → Linked Statement
  replaced_goto labels (goto_label position label) =
      goto_line position label (get_jump_label label labels)
  replaced_goto labels (if_then position condition block) =
      link_then (replaced_gotos_in labels block)
        (λ block'. linked (if_statement position condition block' no_else))
  replaced_goto labels (assign position name operator value) =
      linked (assignment position name operator value)
  replaced_goto labels (change d) = linked (deref_statement d)

  pub replaced_gotos_in : Map ℕ → LabelStatements → Linked Statements
  replaced_gotos_in labels no_statement = linked nil
  replaced_gotos_in labels (statement s rest) =
      link_then (replaced_goto labels s)
        (λ s'. link_then (replaced_gotos_in labels rest) (λ rest'. linked (cons s' rest')))

unfoldable pub replaced_gotos : Map ℕ → List LabelStatement → Linked Statements
unfolding replaced_goto
replaced_gotos labels [] = linked nil
replaced_gotos labels (s ∷ rest) =
    link_then (replaced_goto labels s)
      (λ s'. link_then (replaced_gotos labels rest) (λ rest'. linked (cons s' rest')))
