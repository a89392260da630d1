-- ===== src/Nolol.antt =====
-- pkg/nolol: the converter from nolol to yolol.
pub mod Merging
pub mod Ast
pub mod Syntax
pub mod Parser
pub mod Converter
pub mod Labels
