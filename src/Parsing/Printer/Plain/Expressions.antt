-- ===== src/Parsing/Printer/Plain/Expressions.antt =====
-- pkg/parser/printer.go: what Print writes for an expression.
use yodk.Common.{◌≡◌, refl, ap, ap₂, ◌∙◌, Bool, [], ◌++◌, append_assoc, if◌then◌else◌}
use yodk.Text.{Text, codes, is, has_prefix}
use yodk.Ast.{
  Expression, string_constant, number_constant, dereference, unary_operation, binary_operation,
}
use yodk.Parsing.Tokenizer.Escapes.{insert_escapes, insert_escapes-escaped}
use yodk.Parsing.Printer.{
  pre_visit, inter_visit1, is_binary, write, space, write_if, write_operator, left_parentheses,
  right_parentheses, print_binary_operation, print_deref, print_unary_operation, print_expression,
}
use yodk.Parsing.Printer.Squeezed.{
  squeeze, Adds, Adds-then, Adds-write, Adds-space, Adds-if, Adds-nothing, Adds-behind, Adds-before,
  Adds-cast, opening, closing, parenthesised, Adds-opening, Adds-closing, Adds-write_operator,
  Adds-print_deref_as,
}
use yodk.Parsing.Printer.Levels.{left_parentheses-binds_less, right_parentheses-binds_no_more}
use yodk.Parsing.Printer.Plain.{plain_expression}

regroup_unary : (o a t c : Text) → ((o ++ a) ++ t) ++ c ≡ o ++ (a ++ (t ++ c))
regroup_unary o a t c = append_assoc (o ++ a) t c ∙ append_assoc o a (t ++ c)

regroup_binary :
    (a s b o c t d : Text)
    → (((a ++ s) ++ ((b ++ o) ++ c)) ++ t) ++ d ≡ (a ++ (s ++ b)) ++ (o ++ (c ++ (t ++ d)))
regroup_binary a s b o c t d = simp append_assoc refl

pub Adds-print_expression : (e : Expression) → Adds (plain_expression e) (print_expression e)
unfolding plain_expression print_expression print_deref print_unary_operation print_binary_operation
Adds-print_expression (string_constant position value) =
    Adds-cast _ _ (print_expression (string_constant position value))
      (ap (λ (r : Text). squeeze (codes "\"" ++ (r ++ codes "\""))) (insert_escapes-escaped value))
      (Adds-write (codes "\"" ++ (insert_escapes value ++ codes "\"")))
Adds-print_expression (number_constant position value) =
    Adds-before (squeeze value) (λ p. if has_prefix value (codes "-") then space p else p)
      (write value)
      (Adds-if (λ p. has_prefix value (codes "-")) [] space (λ p. p) Adds-space Adds-nothing)
      (Adds-write value)
Adds-print_expression (dereference d) = Adds-print_deref_as d.pre_post d.variable d.operator
Adds-print_expression (unary_operation position operator exp) =
    let b : Bool = is_binary exp in
    Adds-cast _ _ (print_expression (unary_operation position operator exp))
      (regroup_unary (squeeze operator) (opening b) (plain_expression exp) (closing b))
      (Adds-then _ (closing b)
        (λ p. print_expression exp (print_unary_operation pre_visit operator exp p))
        (write_if b (codes ")"))
        (Adds-then (squeeze operator ++ opening b) (plain_expression exp)
          (print_unary_operation pre_visit operator exp) (print_expression exp)
          (Adds-then (squeeze operator) (opening b)
            (λ p. if is operator "-" then write operator (space p) else space (write operator p))
            (write_if b (codes "("))
            (Adds-if (λ p. is operator "-") (squeeze operator) (λ p. write operator (space p))
              (λ p. space (write operator p))
              (Adds-before (squeeze operator) space (write operator) Adds-space
                (Adds-write operator))
              (Adds-behind (squeeze operator) (write operator) space (Adds-write operator)
                Adds-space))
            (Adds-opening b))
          (Adds-print_expression exp))
        (Adds-closing b))
Adds-print_expression (binary_operation operator exp1 exp2) =
    let l : Bool = left_parentheses operator exp1 exp2 in
    let r : Bool = right_parentheses operator exp1 exp2 in
    Adds-cast _ _ (print_expression (binary_operation operator exp1 exp2))
      (regroup_binary (opening l) (plain_expression exp1) (closing l) (squeeze operator) (opening r)
          (plain_expression exp2) (closing r)
        ∙ ap₂
            (λ (x y : Bool).
              parenthesised x (plain_expression exp1)
              ++ (squeeze operator ++ parenthesised y (plain_expression exp2)))
            (left_parentheses-binds_less operator exp1 exp2)
            (right_parentheses-binds_no_more operator exp1 exp2))
      (Adds-then _ (closing r) _ (write_if r (codes ")"))
        (Adds-then _ (plain_expression exp2) _ (print_expression exp2)
          (Adds-then _ _
            (λ p. print_expression exp1 (print_binary_operation pre_visit operator exp1 exp2 p))
            (print_binary_operation inter_visit1 operator exp1 exp2)
            (Adds-then (opening l) (plain_expression exp1)
              (print_binary_operation pre_visit operator exp1 exp2) (print_expression exp1)
              (Adds-opening l) (Adds-print_expression exp1))
            (Adds-then (closing l ++ squeeze operator) (opening r)
              (λ p. write_operator operator (write_if l (codes ")") p)) (write_if r (codes "("))
              (Adds-then (closing l) (squeeze operator) (write_if l (codes ")"))
                (write_operator operator) (Adds-closing l) (Adds-write_operator operator))
              (Adds-opening r)))
          (Adds-print_expression exp2))
        (Adds-closing r))
