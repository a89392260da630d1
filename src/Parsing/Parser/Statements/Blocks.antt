-- ===== src/Parsing/Parser/Statements/Blocks.antt =====
-- pkg/parser/parser.go, ParseIf: which statements end up in the two blocks.
use yodk.Common.{
  ◌≡◌, refl, ap, ◌∙◌, ℕ, zero, suc, ◌+◌, ◌<◌, List, [], ◌∷◌, ◌++◌, append_assoc, append-nil, none,
  some, length, arith,
}
use yodk.Ast.{Statement, Statements, nil, cons}
use yodk.Parsing.Parser.{Parser, Parse}
use yodk.Parsing.Parser.Statements.{append_statement, if_block_loop, else_block_loop}

-- The statements that calls of the parsing function find one after the other, up to the first nil.
pub data Found (statement : Parse Statement) : List Statement → Parser → Parser → Type 0 where
  found_end : {p q : Parser} → statement p ≡ some (none, q) → Found statement [] p q
  found_more :
      {stmt : Statement} {stmts : List Statement} {p q r : Parser}
      → statement p ≡ some (some stmt, q)
      → Found statement stmts q r
      → Found statement (stmt ∷ stmts) p r

-- a slice of statements
abbrev pub of_list : List Statement → Statements
of_list [] = nil
of_list (stmt ∷ stmts) = cons stmt (of_list stmts)

abbrev pub last_of : Statement → List Statement → Statement
last_of stmt [] = stmt
last_of stmt (next ∷ stmts) = last_of next stmts

append_statement-of_list :
    (stmts : List Statement) (stmt : Statement)
    → append_statement (of_list stmts) stmt ≡ of_list (stmts ++ stmt ∷ [])
unfolding append_statement
append_statement-of_list [] stmt = refl
append_statement-of_list (s ∷ stmts) stmt = ap (cons s) (append_statement-of_list stmts stmt)

-- The if-block that ParseIf builds is its first statements, followed by all that ParseStatement finds up
-- to the first nil, in their order, with fuel for each of them and one more.
pub if_block_loop-Found :
    (statement : Parse Statement) (fuel : ℕ) (first stmts : List Statement) (p q : Parser)
    → Found statement stmts p q
    → length stmts < fuel
    → if_block_loop fuel statement (of_list first) p ≡ some (of_list (first ++ stmts), q)
unfolding if_block_loop
if_block_loop-Found statement zero first stmts p q f h = absurd (omega arith)
if_block_loop-Found statement (suc fuel) first [] p q (found_end e) h =
    rw (if_block_loop, e, append-nil first) refl
if_block_loop-Found statement (suc fuel) first (stmt ∷ stmts) p q (found_more e f) h =
    rw (if_block_loop, e, append_statement-of_list first stmt)
      (if_block_loop-Found statement fuel (first ++ stmt ∷ []) stmts _ q f (omega arith)
        ∙ ap (λ l. some (of_list l, q)) (append_assoc first (stmt ∷ []) stmts))

-- When ParseStatement finds more than one statement behind `else`, the else-block that ParseIf builds is
-- the statements of the if-block followed by the last of them: what was found before is lost.
pub else_block_loop-Found :
    (statement : Parse Statement) (fuel : ℕ) (if_block : List Statement) (block : Statements)
    (stmt : Statement) (stmts : List Statement) (p q : Parser)
    → Found statement (stmt ∷ stmts) p q
    → length stmts + 1 < fuel
    → else_block_loop fuel statement (of_list if_block) block p
      ≡ some (of_list (if_block ++ last_of stmt stmts ∷ []), q)
unfolding else_block_loop
else_block_loop-Found statement zero if_block block stmt stmts p q f h = absurd (omega arith)
else_block_loop-Found statement (suc zero) if_block block stmt stmts p q f h = absurd (omega arith)
else_block_loop-Found statement (suc (suc fuel)) if_block block stmt [] p q
      (found_more e (found_end k)) h =
    rw (else_block_loop, e, k, append_statement-of_list if_block stmt) refl
else_block_loop-Found statement (suc (suc fuel)) if_block block stmt (next ∷ stmts) p q
      (found_more e f) h =
    rw (else_block_loop, e)
      (else_block_loop-Found statement (suc fuel) if_block _ next stmts _ q f (omega arith))
