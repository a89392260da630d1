-- ===== src/Examples/Printing.antt =====
-- Runs of the printer, and its theorems applied.
use yodk.Common.{◌≡◌, refl, false, length, [], ◌∷◌}
use yodk.Text.{Text, codes}
use yodk.Ast.{
  unknown_position, absent, Expression, number_constant, string_constant, dereference,
  unary_operation, binary_operation, Statement, assignment, if_statement, goto_statement, nil, cons,
  else_block, Program,
}
use yodk.Parsing.Printer.{readable, compact, print}
use yodk.Parsing.Printer.Squeezed.{squeeze}
use yodk.Parsing.Printer.Plain.{plain_lines}
use yodk.Parsing.Printer.Plain.Programs.{squeeze-print}
use yodk.Parsing.Printer.LineCount.{printed_lines, length-print}
use yodk.Validators.{split_lines}

abbrev var : Text → Expression
var name = dereference (record {
  position = unknown_position;
  variable = name;
  operator = [];
  pre_post = absent;
  is_statement = false;
})

abbrev literal : Text → Expression
literal value = number_constant unknown_position value

abbrev set : Text → Expression → Statement
set name value = assignment unknown_position name (codes "=") value

-- x=(1+2)*-y if a then goto 1 else s="\n" end, and an empty line
abbrev small_program : Program
small_program = record {
  lines =
      record {
        position = unknown_position;
        statements =
            cons
              (set (codes "x") (
                binary_operation (codes "*")
                  (binary_operation (codes "+") (literal (codes "1")) (literal (codes "2")))
                  (unary_operation unknown_position (codes "-") (var (codes "y")))))
              (cons
                (if_statement unknown_position (var (codes "a"))
                  (cons (goto_statement unknown_position (literal (codes "1"))) nil)
                  (else_block
                    (cons (set (codes "s") (string_constant unknown_position (10 ∷ []))) nil)))
                nil);
        comment = codes "//c";
      }
      ∷ record { position = unknown_position; statements = nil; comment = [] }
      ∷ [];
}

compact_code :
    print compact small_program ≡ codes "x=(1+2)* -y if a then goto 1 else s=\"\\n\" end //c\n\n"
unfolding print yodk.Text.text_eq yodk.Text.has_prefix yodk.Parsing.Tokenizer.Escapes.insert_escapes
compact_code = refl

readable_code :
    print readable small_program
    ≡ codes "x = (1 + 2) * -y  if a then goto 1 else s = \"\\n\" end //c\n\n"
unfolding print yodk.Text.text_eq yodk.Text.has_prefix yodk.Parsing.Tokenizer.Escapes.insert_escapes
readable_code = refl

squeeze-print_example : squeeze (print compact small_program) ≡ plain_lines small_program.lines
squeeze-print_example = squeeze-print compact small_program

length-print_example :
    length (split_lines (print readable small_program)) ≡ printed_lines small_program.lines
unfolding yodk.Parsing.Printer.Breaks.breaks yodk.Parsing.Printer.LineCount.CleanStatement
length-print_example = length-print readable small_program (
  (
    (
      (refl, (refl, (refl, ((refl, (refl, refl)), (refl, (refl, refl)))))),
      (((refl, refl), ((refl, tt), ((refl, (refl, tt)), tt))), tt),
    ),
    refl,
  ),
  ((tt, refl), tt),
)
