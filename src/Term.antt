-- ===== src/Term.antt =====
-- src/term.c and include/term.h: the colors and styles of a terminal, and the parser of ANSI color
-- sequences.
mod Examples
pub mod Codes
pub mod Color
pub mod Parse
pub mod Safety
pub mod Style
