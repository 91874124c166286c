-- ===== src/Gateway.antt =====
-- crates/epoch-gateway/src: the object directory, byte ranges, and the slice references.
pub mod Code
pub mod Range
