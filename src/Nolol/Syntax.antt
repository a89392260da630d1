-- ===== src/Nolol/Syntax.antt =====
-- pkg/nolol/nast/ast.go: the tree that the nolol parser returns, with macros and include directives.
use yodk.Common.{List, Option}
use yodk.Text.{Text}
use yodk.Ast.{Position}
use yodk.Nolol.Ast.{NololExpression, Arguments, NololStatement}
use yodk.Nolol.Merging.{StatementLine}

-- FuncCall
pub record FuncCall : Type 0 where
  pub position : Position
  pub function : Text
  pub arguments : Arguments

-- Element and NestableElement; a StatementLine has its comment behind it. A macro insertion whose FuncCall
-- is nil, behind an error, has `none`.
mutual
  pub data SourceElement : Type 0 where
    source_line : StatementLine NololStatement → Text → SourceElement
    source_definition : Position → Text → NololExpression → SourceElement
    source_wait : Position → NololExpression → List NololStatement → SourceElement
    source_if : SourceBranches → SourceElse → SourceElement
    source_while : Position → NololExpression → SourceBlock → SourceElement
    macro_insertion : Position → Option FuncCall → SourceElement
    macro_definition : Position → Text → List Text → SourceBlock → SourceElement
    include_directive : Position → Text → SourceElement

  pub data SourceBlock : Type 0 where
    no_source : SourceBlock
    source : SourceElement → SourceBlock → SourceBlock

  pub data SourceBranches : Type 0 where
    no_source_branch : SourceBranches
    source_branch : Position → NololExpression → SourceBlock → SourceBranches → SourceBranches

  pub data SourceElse : Type 0 where
    no_source_else : SourceElse
    source_else : SourceBlock → SourceElse
