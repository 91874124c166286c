-- ===== src/Rpc.antt =====
-- crates/epoch-rpc: the data-plane frame.
pub mod Frame
