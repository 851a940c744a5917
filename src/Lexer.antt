-- ===== src/Lexer.antt =====
-- The seed compiler's lexer (bootstrap/cpp/src/lexer).
pub mod Cursor
pub mod Keywords
pub mod Skip
pub mod Literals
pub mod Scan
