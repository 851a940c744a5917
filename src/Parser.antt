-- ===== src/Parser.antt =====
-- The seed compiler's parser (bootstrap/cpp/src/parser).
pub mod Cursor
pub mod Types
pub mod Strings
pub mod Primary
pub mod Expressions
pub mod Simple
pub mod Statements
pub mod Declarations
pub mod Functions
pub mod Program
pub mod Total
