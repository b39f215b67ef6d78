-- ===== src/Compiler/Totality.antt =====
-- The lexer and the parser of crates/compiler/src/lib.rs end on every input: no panic, enough fuel.
mod Tokens
mod Expressions
mod Statements
pub mod Declarations
