-- ===== src/Parsing.antt =====
-- The readers of procedure source: parsing.
pub mod Lexer
pub mod Tiles
mod Reads
mod Marks
mod Rounds
pub mod Bounds
mod Examples
