-- ===== src/Variant.antt =====
-- src/variant.c and include/variant.h.
mod Examples
pub mod Text
pub mod Read
pub mod RoundTrip
pub mod Value
pub mod Compare
pub mod Display
pub mod Memory
pub mod Order
pub mod Ownership
