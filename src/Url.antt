-- ===== src/Url.antt =====
-- src/url.c: percent-encoding and its inverse.
mod Examples
pub mod Decode
pub mod Encode
pub mod RoundTrip
