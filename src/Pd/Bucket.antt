-- ===== src/Pd/Bucket.antt =====
-- crates/epoch-pd/src/bucket.rs: the namespaces.
use epoch_io.Common.{Bool, true, false}

pub data NsMode : Type 0 where
  flat hier : NsMode

unfoldable pub same_ns : NsMode → NsMode → Bool
same_ns flat flat = true
same_ns flat hier = false
same_ns hier flat = false
same_ns hier hier = true
