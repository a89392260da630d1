-- ===== src/Nolol/Ast.antt =====
-- pkg/nolol/nast/ast.go: the nolol syntax tree, and the trees between nolol and yolol. Macros and
-- include directives are left out.
use yodk.Common.{List, [], ◌∷◌}
use yodk.Text.{Text}
use yodk.Ast.{Position, Dereference, Expression}
use yodk.Nolol.Merging.{StatementLine}

-- The expressions of nolol: those of yolol and FuncCall.
mutual
  pub data NololExpression : Type 0 where
    string_literal : Position → Text → NololExpression
    number_literal : Position → Text → NololExpression
    variable : Dereference → NololExpression
    unary : Position → Text → NololExpression → NololExpression
    binary : Text → NololExpression → NololExpression → NololExpression
    func_call : Position → Text → Arguments → NololExpression

  pub data Arguments : Type 0 where
    no_argument : Arguments
    argument : NololExpression → Arguments → Arguments

-- The statements of nolol; there is no inline if.
pub data NololStatement : Type 0 where
  nolol_assignment : Position → Text → Text → NololExpression → NololStatement
  nolol_dereference : Dereference → NololStatement
  nolol_goto : Position → Text → NololStatement
  break_statement continue_statement : Position → NololStatement

-- WaitDirective, Definition, MultilineIf, WhileLoop and StatementLine, and Block as a list of them. A
-- MultilineIf is the list of its positions, conditions and blocks.
mutual
  pub data Element : Type 0 where
    statement_line : StatementLine NololStatement → Element
    definition : Position → Text → NololExpression → Element
    wait_directive : Position → NololExpression → List NololStatement → Element
    multiline_if : Branches → ElseElements → Element
    while_loop : Position → NololExpression → Block → Element

  pub data Block : Type 0 where
    no_element : Block
    element : Element → Block → Block

  pub data Branches : Type 0 where
    no_branch : Branches
    branch : Position → NololExpression → Block → Branches → Branches

  pub data ElseElements : Type 0 where
    no_else_elements : ElseElements
    else_elements : Block → ElseElements

-- The statements of the converted lines: those of yolol, with GoToLabelStatement for GoToStatement. The
-- ifs that the converter makes have no else-block.
mutual
  pub data LabelStatement : Type 0 where
    assign : Position → Text → Text → Expression → LabelStatement
    if_then : Position → Expression → LabelStatements → LabelStatement
    change : Dereference → LabelStatement
    goto_label : Position → Text → LabelStatement

  pub data LabelStatements : Type 0 where
    no_statement : LabelStatements
    statement : LabelStatement → LabelStatements → LabelStatements

abbrev pub ConvertedLine : Type 0
ConvertedLine = StatementLine LabelStatement

-- a slice of statements as a block
abbrev pub block_of : List LabelStatement → LabelStatements
block_of [] = no_statement
block_of (s ∷ rest) = statement s (block_of rest)
