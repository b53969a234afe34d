-- ===== src/Str.antt =====
-- src/str.c: comparison and counting, hexadecimal text, splitting into lines, and copies.
mod Examples
pub mod Compare
pub mod Copy
pub mod Hex
pub mod Lines
pub mod Search
