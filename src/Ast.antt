-- ===== src/Ast.antt =====
-- pkg/parser/ast/ast.go and the positions of pkg/parser/ast/tokenizer.go: the yolol syntax tree.
-- A Go interface value is a data type with a constructor for each node type. Children that a failed
-- parse leaves nil do not occur.
pub mod Positions
pub mod Visitor
use yodk.Common.{ℕ, List, ◌+◌, Bool, true, false, ltb, ◌==◌, ◌&&◌, if◌then◌else◌, []}
use yodk.Text.{Text}

-- Position
pub record Position : Type 0 where
  pub file : Text
  pub line : ℕ
  pub coloumn : ℕ

-- NewPosition
unfoldable pub new_position : Text → ℕ → ℕ → Position
new_position file line coloumn = record { file = file; line = line; coloumn = coloumn }

-- UnknownPosition
abbrev pub unknown_position : Position
unknown_position = record { file = []; line = 0; coloumn = 0 }

-- Position.Add
unfoldable pub add : Position → ℕ → Position
add p col = record p { coloumn = p.coloumn + col }

-- Position.Before
unfoldable pub before : Position → Position → Bool
before p other =
    if ltb p.line other.line
    then true
    else if p.line == other.line && ltb p.coloumn other.coloumn
    then true
    else false

-- Whether the operator of a Dereference stands before or after the variable: `PrePost`.
pub data PrePost : Type 0 where
  absent pre post : PrePost

-- Dereference
pub record Dereference : Type 0 where
  pub position : Position
  pub variable : Text
  pub operator : Text
  pub pre_post : PrePost
  pub is_statement : Bool

-- Expression and the nodes that implement it.
pub data Expression : Type 0 where
  string_constant : Position → Text → Expression
  number_constant : Position → Text → Expression
  dereference : Dereference → Expression
  unary_operation : Position → Text → Expression → Expression
  binary_operation : Text → Expression → Expression → Expression

-- Statement and the nodes that implement it. `no_else` is an `ElseBlock` that is nil.
mutual
  pub data Statement : Type 0 where
    assignment : Position → Text → Text → Expression → Statement
    if_statement : Position → Expression → Statements → ElseBlock → Statement
    goto_statement : Position → Expression → Statement
    deref_statement : Dereference → Statement

  pub data Statements : Type 0 where
    nil : Statements
    cons : Statement → Statements → Statements

  pub data ElseBlock : Type 0 where
    no_else : ElseBlock
    else_block : Statements → ElseBlock

-- Line
pub record Line : Type 0 where
  pub position : Position
  pub statements : Statements
  pub comment : Text

-- Program
pub record Program : Type 0 where
  pub lines : List Line
