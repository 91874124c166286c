-- ===== src/Proto.antt =====
-- crates/epoch-proto/src: the identity vocabulary and the erasure parameters.
pub mod Id
pub mod CodeMode
