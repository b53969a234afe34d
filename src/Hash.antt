-- ===== src/Hash.antt =====
-- src/hash.c: an associative array of strings over a fifo of entries.
mod Examples
pub mod Find
pub mod Ops
pub mod World
