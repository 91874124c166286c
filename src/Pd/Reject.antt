-- ===== src/Pd/Reject.antt =====
-- crates/epoch-pd/src/cluster/mod.rs: why a replicated mutation is turned down.
pub data RejectReason : Type 0 where
  not_found invalid_transition not_removable node_not_found invalid_chunk_plan : RejectReason
  disk_unavailable affinity_violation : RejectReason
