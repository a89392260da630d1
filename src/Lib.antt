-- ===== src/Lib.antt =====
-- The verification library of yodk, the development kit for yolol: the virtual machine, its
-- coordinator, the tokenizer, the parser and the printer, the optimizers, the validator of code
-- length, and the parser and the converter of nolol.
--
-- A yolol program is a list of lines. The tokenizer (pkg/parser/ast/tokenizer.go) splits its text
-- into tokens, and the parser (pkg/parser/parser.go) makes the syntax tree of them, or a list of
-- errors. The virtual machine (pkg/vm/vm.go) runs it in a goroutine of its own, and calls handlers;
-- other goroutines send it requests for a state. It evaluates operators by pkg/vm/operations.go on
-- the values of pkg/vm/variable.go. The coordinator (pkg/vm/coordinator.go) lets several machines
-- run one line each in turn. The optimizers (pkg/optimizers) are visitors
-- (pkg/parser/ast/visitor.go) of the syntax tree (pkg/parser/ast/ast.go) that shorten a program.
-- Nolol is a language with blocks and loops: its parser (pkg/nolol/parser.go) extends that of yolol,
-- and its converter (pkg/nolol/converter.go and the files beside it) makes a yolol program of the
-- tree.
--
-- Common: names of the libraries, Boolean tests, lists and integers.
-- Text: Go strings as lists of ASCII bytes, and maps with string keys. For ASCII, bytes and runes
--   agree.
-- Ast: the nodes (ast.go), Position (tokenizer.go); Ast.Positions: Start and End; Ast.Visitor:
--   Accept and AcceptChild with the replacement of nodes (visitor.go), on fuel.
-- Vm.Decimals: the decimals of github.com/shopspring/decimal and Go's math, a parameter. What the
--   code relies on is the record DecimalLaws.
-- Vm.Variable: Variable and its methods. Vm.Operations: RunUnaryOperation, RunBinaryOperation.
-- Vm.State: VM, Create, the setters, getVariable and setVariable. Vm.Interface: what other
--   goroutines call. Vm.Expressions: runExpr, runDeref. Vm.Control: pause, changeState,
--   receiveState, sourceLineChanged, aquireCoordinatorPermission. Vm.Statements: runStmt,
--   runAssignment, runLine. Vm.Frame: what code leaves alone; Frame.Lines: where the VM stands.
--   Vm.Run: run, the main loop, on fuel.
-- Parsing.Tokenizer: the tables and regular expressions of tokenizer.go; Next: its functions.
--   Escapes: insertEscapesIntoString. Parsing.Printer: Print (pkg/parser/printer.go); Levels: how
--   tight operators bind; Plain: the code of a tree as it is without spaces.
-- Parsing.Parser: Parser, its tests, Advance, Error and Expect; Expressions, Statements, Lines: the
--   parsing functions of parser.go. Size counts the tokens ahead.
-- Nolol.Merging: StatementLine (pkg/nolol/nast/ast.go) and mergeStatementElements
--   (pkg/nolol/converter.go). Nolol.Labels: findJumpLabels (pkg/nolol/converter_gotos.go).
--   Nolol.Ast: the nolol tree (nast/ast.go) without macros and includes, and Nolol.Syntax with them.
--   Nolol.Parser: pkg/nolol/parser.go, with Expressions, Statements, Elements and Programs.
--   Nolol.Converter: Converter, NewConverter, and the files converter_definitions.go and
--   converter_builtins.go in Expressions, converter_gotos.go in Gotos, converter_ifs.go in Ifs,
--   converter_loops.go and convertWait in Loops, convertNodes in Elements and Convert in Whole.
--   Nolol.Merging.Shorter, Nolol.Converter.Lengths: getLengthOfLine of lines that are merged.
--   Nolol.Converter.Running: how converted lines run; Stays, Ensured: what functions of the
--   converter keep.
-- Optimizers.Static: static_expressions.go. Optimizers.Inversion: expression_inversion.go.
--   Optimizers.Names: variable_names.go. Optimizers.Compound: comments.go and optimizer.go.
--   Optimizers.Programs: from expressions to programs.
-- Coordination: coordinator.go. Validators: code_length.go.
-- Examples: concrete inputs, on which the theorems are applied.
--
-- State. A method of *VM is a function from a VM to an Outcome: a value, an error, the panic
-- errKillVM, or a goroutine that is blocked; each has the VM that it leaves. The lock is not
-- modelled: all that the worker does between two receives is one sequence. The channels are the
-- lists `requests` and `grants` of what the worker receives, and handlers are the answers they give;
-- a handler does not change the VM. The operators that shorten a string cut it by bytes; the code
-- cuts runes at an index in bytes, which is the same for ASCII only. Mod panics at the divisor 0,
-- and NewFromFloat at NaN, so that `1%0`, sqrt(-1) and asin(2) end the program: unary_returns and
-- binary_returns say when an operator returns, and the static expression optimizer panics where it
-- does not. The VM is modelled for runs without such a panic: there the parameter gives any value.
--
-- A parsing function takes the parser to what it returns, where none is nil, and the parser it
-- leaves. The parser holds the list of the tokens that its tokenizer will return; the tokenizer is a
-- text and a position. A child that is nil, behind an error, is the empty string constant, and a nil
-- statement is left out: Parse then returns no tree. A virtual call p.This.ParseX is the function of
-- yolol, and in Nolol.Parser that of nolol.
--
-- The converter of nolol is a record that each function takes and returns, unless it fails with the
-- message of an error; the tree is built anew where the code changes its nodes. The visits of a node
-- and of its children are one function for each type of node, in the order of the visits. A
-- definition is copied where it is used, as in the code. Running goes through a list of lines from
-- its start to its end: a line is run when the one before proceeds to it or a jump leads to its
-- label, so that jumps back end in a second round. What statements and conditions do to the
-- variables is given there, and does not fail. Positions of lines that the converter adds, and those
-- of errors, are left out.
--
-- Fuel. The tokenizer has the number of bytes and one more, and the parsers the number of tokens and
-- three more. A traversal that replaces nodes has the height of the expression as its fuel, and
-- twice that where a visitor replaces a node before its children: each replacement before the
-- children is of a smaller expression or makes them lower. The loop of run has any fuel; without a
-- limit on the lines it need not end. A pass of the coordinator has the number of VMs, since its
-- index grows. The loop that makes a name divides its number by 26, so as many rounds as the number
-- are enough.
--
-- Not modelled: of nolol (pkg/nolol), its printer, its macros, whose arguments are nodes that
-- several places share and each changes, and its includes, which read files; testing, debugging, the
-- language server, and the command line. SkipLine and the debugging log of the parser, and the
-- printer's positions and handler of unknown nodes, are not used by the code modelled.
pub mod Common
pub mod Text
pub mod Ast
pub mod Vm
pub mod Parsing
pub mod Nolol
pub mod Optimizers
pub mod Coordination
pub mod Validators
pub mod Examples
