-- ===== src/Tokn.antt =====
-- The tokenizer, src/irx#tokn.c.
pub mod Types
pub mod Chars
pub mod Emit
pub mod Skip
pub mod Scan
pub mod Symbols
pub mod Run
mod Tests
pub mod Moves
pub mod Lexeme
