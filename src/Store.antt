-- ===== src/Store.antt =====
-- crates/epoch-store: the on-disk records and the rate limiter.
pub mod Record
pub mod Qos
