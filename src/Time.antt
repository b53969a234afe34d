-- ===== src/Time.antt =====
-- include/nl_time.h: arithmetic on timespecs.
mod Examples
pub mod Arith
pub mod Ops
pub mod Value
