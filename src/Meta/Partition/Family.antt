-- ===== src/Meta/Partition/Family.antt =====
-- Where a split of crates/epoch-meta/src/partition/mod.rs puts the keys of one object, and which
-- partition a registry routes a coordinate to.
use epoch_io.Common.Map.{Map}
