-- ===== src/Meta.antt =====
-- crates/epoch-meta: the keys of the metadata store and the partitions of their space.
pub mod Keys
pub mod Partition
pub mod Guard
