-- ===== src/Array.antt =====
-- The array below the file system: scrub-rs/src/array.
pub mod Config
pub mod Stripe
pub mod Parity
pub mod Tests
