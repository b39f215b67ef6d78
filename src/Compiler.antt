-- ===== src/Compiler.antt =====
-- The compiler of the contract language, crates/compiler/src/lib.rs.
pub mod Syntax
pub mod Outcome
pub mod Text
pub mod Lexer
pub mod Parser
pub mod Declarations
pub mod Operations
pub mod Lowering
pub mod Compile
pub mod Totality
pub mod Printer
pub mod Typing
pub mod Tests
