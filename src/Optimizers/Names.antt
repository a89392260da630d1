-- ===== src/Optimizers/Names.antt =====
-- pkg/optimizers/variable_names.go: local variables get short names.
pub mod Numbering
pub mod Table
use yodk.Common.{
  ℕ, zero, suc, ◌+◌, ◌-◌, ◌*◌, ◌/◌, ◌%◌, Bool, true, false, List, [], ◌∷◌, Option, none, some,
  if◌then◌else◌, ◌==◌,
}
use yodk.Text.{Text, codes, has_prefix, to_lower}
use yodk.Text.Map.{Map, lookup, insert}
use yodk.Ast.{
  Expression, string_constant, number_constant, dereference, unary_operation, binary_operation,
  Program,
}
use yodk.Ast.Visitor.{
  Visit, pre_visit, post_visit, single_visit, inter_visit1, Verdict, keep, Visitor, Accepted,
  accept_child, accept_program,
}
use yodk.Optimizers.Static.{height}

-- VariableNameOptimizer
pub record VariableNameOptimizer : Type 0 where
  pub variable_mappings : Map Text
  pub inverted_mappings : Map Text
  pub var_number : ℕ

-- NewVariableNameOptimizer
unfoldable pub new_variable_name_optimizer : VariableNameOptimizer
new_variable_name_optimizer = record {
  variable_mappings = [];
  inverted_mappings = [];
  var_number = 1;
}

-- rem of a round of the loop in getNextVarName: the last digit, from 1 to 26
unfoldable pub last_digit : ℕ → ℕ
last_digit varnum = if varnum % 26 == 0 then 26 else varnum % 26

-- varnum after a round
unfoldable pub without_last_digit : ℕ → ℕ
without_last_digit varnum = if varnum % 26 == 0 then varnum / 26 - 1 else varnum / 26

-- the loop of getNextVarName, on fuel: it puts a letter before varname
unfoldable pub name_loop : ℕ → ℕ → Text → Text
unfolding last_digit without_last_digit
name_loop zero varnum varname = varname
name_loop (suc fuel) zero varname = varname
name_loop (suc fuel) (suc n) varname =
    name_loop fuel (without_last_digit (suc n)) ((last_digit (suc n) - 1 + 97) ∷ varname)

-- The name with a given number. The loop divides, so as many rounds as the number are enough.
unfoldable pub var_name : ℕ → Text
unfolding name_loop
var_name varnum = name_loop varnum varnum []

-- getNextVarName
unfoldable pub get_next_var_name : VariableNameOptimizer → Text × VariableNameOptimizer
unfolding var_name
get_next_var_name o = (var_name o.var_number, record o { var_number = o.var_number + 1 })

-- OptimizeVarName
unfoldable pub optimize_var_name : Text → VariableNameOptimizer → Text × VariableNameOptimizer
unfolding get_next_var_name
optimize_var_name name o =
    if has_prefix name (codes ":")
    then (name, o)
    else elim (lookup (to_lower name) o.variable_mappings) [
      | some new_name ↦ (new_name, o)
      | none ↦
          let (new_name, o') = get_next_var_name o in
          (
            new_name,
            record o' {
              variable_mappings = insert (to_lower name) new_name o'.variable_mappings;
              inverted_mappings = insert new_name name o'.inverted_mappings;
            },
          )
    ]

-- GetReversalTable
unfoldable pub get_reversal_table : VariableNameOptimizer → Map Text
get_reversal_table o = o.inverted_mappings

-- Visit at a Dereference
abbrev rename_dereference : Expression → VariableNameOptimizer → Verdict × VariableNameOptimizer
unfolding optimize_var_name
rename_dereference (dereference d) o =
    let (variable', o') = optimize_var_name d.variable o in
    (keep (dereference (record d { variable = variable' })), o')
rename_dereference e o = (keep e, o)

-- Visit
unfoldable pub visit : Visitor VariableNameOptimizer
unfolding optimize_var_name
visit single_visit node o = rename_dereference node o
visit pre_visit node o = rename_dereference node o
visit post_visit node o = (keep node, o)
visit inter_visit1 node o = (keep node, o)

-- Optimize
unfoldable pub optimize : Program → VariableNameOptimizer → Accepted VariableNameOptimizer Program
unfolding visit accept_child accept_program optimize_var_name height
optimize prog o =
    accept_program (λ e s. accept_child visit (height e) e s) optimize_var_name (λ comment. comment)
      prog o
