-- ===== src/Pd.antt =====
-- crates/epoch-pd/src: the placement driver's replicated state machine and its schedulers.
pub mod Records
pub mod Reject
pub mod Node
pub mod Disk
pub mod Job
pub mod Writer
pub mod Chunk
pub mod ShardRepair
pub mod Bucket
pub mod Partition
pub mod MetaManager
pub mod State
