-- ===== src/Ec.antt =====
-- crates/epoch-ec/src: the arithmetic of stripes and shard bodies, and the bitrot frames.
pub mod Layout
