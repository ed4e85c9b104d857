-- ===== src/Toker.antt =====
-- parser/Toker.cc: the tokenizer.
pub mod Chars
pub mod State
pub mod Indent
pub mod Scan
pub mod Step
pub mod Read
pub mod Get
pub mod Location
pub mod Safety
pub mod Lexes
pub mod Putback
