-- ===== src/Kvp.antt =====
-- src/kvp.c: the parser of lines of key=value pairs.
mod Examples
pub mod Typed
pub mod Decimal
pub mod Load
pub mod Entry
pub mod Sends
pub mod Pairs
pub mod Quoted
pub mod Runs
pub mod Parse
pub mod Spans
