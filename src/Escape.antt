-- ===== src/Escape.antt =====
-- src/escape.c: the escape table, the string functions and their loops. The functions on raw data
-- are in Escape/Data.
mod Examples
pub mod Count
pub mod Main
pub mod Data
pub mod Encodes
pub mod RoundTrip
pub mod Table
pub mod String
pub mod Unescape
