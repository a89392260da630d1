-- ===== src/Examples/Naming.antt =====
-- The theorems on the renaming of variables, applied.
use yodk.Common.{◌≡◌, ◌↔◌, refl, false, some}
use yodk.Text.{Text, codes, has_prefix, to_lower}
use yodk.Text.Map.{lookup}
use yodk.Optimizers.Names.{
  VariableNameOptimizer, new_variable_name_optimizer, var_name, optimize_var_name,
  get_reversal_table,
}
use yodk.Optimizers.Names.Numbering.{number_of, number_of-var_name}
use yodk.Optimizers.Names.Table.{
  IsWellFormed, new-IsWellFormed, optimize_var_name-IsWellFormed, optimize_var_name-eq_iff,
  get_reversal_table-optimize_var_name,
}

abbrev fresh : VariableNameOptimizer
fresh = new_variable_name_optimizer

-- a generated name that is a keyword
var_name_keyword : var_name 240 ≡ codes "if"
unfolding var_name
var_name_keyword = refl

var_name_carry :
    (var_name 26 ≡ codes "z") × (var_name 27 ≡ codes "aa") × (var_name 703 ≡ codes "aaa")
unfolding var_name
var_name_carry = (refl, refl, refl)

is_local :
    (has_prefix (codes "Counter") (codes ":") ≡ false)
    × (has_prefix (codes "counter") (codes ":") ≡ false)
unfolding has_prefix
is_local = (refl, refl)

optimize_var_name-eq_iff_example :
    ((optimize_var_name (codes "Counter") fresh).0
      ≡ (optimize_var_name (codes "counter") (optimize_var_name (codes "Counter") fresh).1).0)
    ↔ (to_lower (codes "Counter") ≡ to_lower (codes "counter"))
optimize_var_name-eq_iff_example =
    optimize_var_name-eq_iff fresh (codes "Counter") (codes "counter") new-IsWellFormed is_local.0
      is_local.1

get_reversal_table-optimize_var_name_example :
    (original : Text) × (lookup
        (optimize_var_name (codes "Counter") fresh).0
        (get_reversal_table (optimize_var_name (codes "Counter") fresh).1)
      ≡ some original)
    × (to_lower original ≡ to_lower (codes "Counter"))
get_reversal_table-optimize_var_name_example =
    get_reversal_table-optimize_var_name fresh (codes "Counter") new-IsWellFormed is_local.0

optimize_var_name-IsWellFormed_example : IsWellFormed (optimize_var_name (codes "Counter") fresh).1
optimize_var_name-IsWellFormed_example =
    optimize_var_name-IsWellFormed (codes "Counter") fresh new-IsWellFormed

number_of-var_name_example : number_of (var_name 703) ≡ 703
number_of-var_name_example = number_of-var_name 703
