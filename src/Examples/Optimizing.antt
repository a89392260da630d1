-- ===== src/Examples/Optimizing.antt =====
-- The theorems on the optimizers of expressions, applied.
use yodk.Common.{List, ◌∷◌, ◌≡◌, refl, ℕ, true, false, [], some, map}
use yodk.Text.{codes, text_eq, to_lower}
use yodk.Text.Map.{lookup, insert}
use yodk.Ast.{
  Expression, unary_operation, binary_operation, absent, Program, Line, cons, nil, assignment,
}
use yodk.Ast.Positions.{start}
use yodk.Ast.Visitor.{accepted, rejected}
use yodk.Vm.Variable.{Variable, number, string}
use yodk.Vm.Operations.{is_true, truth, run_unary_operation, run_binary_operation, binary_returns}
use yodk.Vm.State.{Vm, done, get_variable, set_variable, create}
use yodk.Vm.Expressions.{run_expr, run_deref, value_of}
use yodk.Optimizers.Compound.{evaluate_static, remove_comments}
use yodk.Optimizers.Programs.{AllStatement, RunAlike}
use yodk.Optimizers.Programs.Lines.{evaluate_static-keeps_lines, remove_comments-keeps_lines}
use yodk.Optimizers.Static
use yodk.Optimizers.Static.Meaning.{Returns, optimize_expression-keeps_meaning}
use yodk.Optimizers.Inversion
use yodk.Optimizers.Inversion.Placed.{Placed, is_negation}
use yodk.Optimizers.Inversion.Meaning.{
  optimize_expression-keeps_value, optimize_expression-keeps_truth,
}
use yodk.Optimizers.Inversion.Doubled.{optimize_expression-not-not}
use yodk.Examples.{first_line, tally, tally-DecimalLaws, literal, var, here, with_x, read_tally}

-- x + 1 * 11
abbrev sum : Expression
sum =
    binary_operation (codes "+") (var (codes "x"))
      (binary_operation (codes "*") (literal (codes "1")) (literal (codes "11")))

-- operators that return whatever their operands are
add_returns : (x y : Variable ℕ) → binary_returns tally x y (codes "+") ≡ true
unfolding binary_returns text_eq
add_returns (number m) (number n) = refl
add_returns (number m) (string s) = refl
add_returns (string s) y = refl

times_returns : (x y : Variable ℕ) → binary_returns tally x y (codes "*") ≡ true
unfolding binary_returns text_eq
times_returns (number m) (number n) = refl
times_returns (number m) (string s) = refl
times_returns (string s) y = refl

sum-Returns : Returns tally sum
sum-Returns = (tt, (tt, tt, λ x y r s. times_returns x y), λ x y r s. add_returns x y)

-- the optimizer panics at a division by the constant 0 with `%`
modulo_zero :
    Static.optimize_expression tally
      (binary_operation (codes "%") (literal (codes "1")) (literal []))
    ≡ rejected (codes "panic")
unfolding Static.optimize_expression binary_returns text_eq read_tally
modulo_zero = refl

optimize_expression-keeps_meaning_example :
    (e' : Expression) × (Static.optimize_expression tally sum ≡ accepted e' tt)
    × ((v : Vm ℕ) → run_expr tally e' v ≡ run_expr tally sum v)
    × (start e' ≡ start sum)
unfolding read_tally
optimize_expression-keeps_meaning_example =
    optimize_expression-keeps_meaning tally tally-DecimalLaws sum (tt, ((1, refl), (2, refl)))
      sum-Returns

-- not (x == 1 and x)
abbrev condition : Expression
condition = unary_operation here (codes "not") (
    binary_operation (codes "and")
      (binary_operation (codes "==") (var (codes "x")) (literal (codes "1"))) (var (codes "x")))

x_is_two : get_variable (codes "x") with_x ≡ some (number 2)
unfolding get_variable set_variable create lookup insert text_eq to_lower
x_is_two = refl

runs : run_expr tally condition with_x ≡ done (number 1) with_x
unfolding run_expr set_variable get_variable create read_tally run_deref text_eq
    run_binary_operation value_of lookup insert to_lower run_unary_operation
runs = refl

optimize_expression-keeps_value_example :
    (e' : Expression) × (Inversion.optimize_expression condition ≡ accepted e' tt)
    × (run_expr tally e' with_x ≡ done (number 1) with_x)
unfolding Placed lookup text_eq is_negation
optimize_expression-keeps_value_example =
    optimize_expression-keeps_value tally tally-DecimalLaws condition with_x with_x (number 1)
      (refl, ((tt, tt), tt)) runs

optimize_expression-keeps_truth_example :
    (e' : Expression) × (n' : ℕ) × (Inversion.optimize_expression condition ≡ accepted e' tt)
    × (run_expr tally e' with_x ≡ done (number n') with_x)
    × (is_true tally n' ≡ is_true tally 1)
unfolding Placed lookup text_eq
optimize_expression-keeps_truth_example =
    optimize_expression-keeps_truth tally tally-DecimalLaws condition with_x with_x 1 ((tt, tt), tt)
      runs

optimize_expression-not-not_example :
    (Inversion.optimize_expression
        (unary_operation here (codes "not") (unary_operation here (codes "not") (var (codes "x"))))
      ≡ accepted (var (codes "x")) tt)
    × (run_expr tally
          (unary_operation here
            (codes "not")
            (unary_operation here (codes "not") (var (codes "x"))))
          with_x
        ≡ done (number (truth tally (is_true tally 2))) with_x)
    × (run_expr tally (var (codes "x")) with_x ≡ done (number 2) with_x)
optimize_expression-not-not_example =
    optimize_expression-not-not tally here here
      (record {
        position = here;
        variable = codes "x";
        operator = [];
        pre_post = absent;
        is_statement = false;
      })
      with_x 2 tally-DecimalLaws refl x_is_two

-- x = x + 1 * 11, and goto 1
abbrev counting : Program
counting = record {
  lines =
      record {
        position = here;
        statements = cons (assignment here (codes "x") (codes "=") sum) nil;
        comment = codes "//add";
      }
      ∷ first_line
      ∷ [];
}

evaluate_static-keeps_lines_example :
    (lines' : List Line) × (evaluate_static tally counting
      ≡ accepted (record { lines = lines' }) tt)
    × RunAlike tally counting.lines lines'
unfolding AllStatement read_tally
evaluate_static-keeps_lines_example =
    evaluate_static-keeps_lines tally tally-DecimalLaws counting
      ((((tt, ((1, refl), (2, refl))), sum-Returns), tt), ((((1, refl), tt), tt), tt))

remove_comments-keeps_lines_example :
    (lines' : List Line) × (remove_comments counting ≡ accepted (record { lines = lines' }) tt)
    × (map Line.comment lines' ≡ [] ∷ [] ∷ [])
    × RunAlike tally counting.lines lines'
remove_comments-keeps_lines_example = remove_comments-keeps_lines tally counting
