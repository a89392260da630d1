-- ===== src/Parsing.antt =====
-- pkg/parser: from source code to the syntax tree and back.
pub mod Tokenizer
pub mod Parser
pub mod Printer
