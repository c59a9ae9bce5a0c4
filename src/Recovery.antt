-- ===== src/Recovery.antt =====
-- Parity recovery: scrub-rs/src/recovery.
pub mod Gf
pub mod Model
pub mod Engine
mod Tests
