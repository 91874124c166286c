-- ===== src/Pd/State/Entries.antt =====
-- crates/epoch-pd/src/journal/entry.rs: the replicated commands and their answers. The variants of the
-- buckets, the configuration and the credentials are left out.
use epoch_io.Common.{ℕ, Bool, List}
use epoch_io.Pd.Reject.{RejectReason}
use epoch_io.Pd.Node.{NodeStatus}
use epoch_io.Pd.Node.Manager.{RegisterNode}
use epoch_io.Pd.Disk.{DiskStatus, RegisterDisk}
use epoch_io.Pd.Chunk.{SlotPlan}
use epoch_io.Pd.Job.{JobCommand}
use epoch_io.Pd.Partition.{PartitionBound, CreatePartition}
use epoch_io.Proto.CodeMode.{CodeMode}

-- `CreateChunkStaging` of chunk/model.rs.
pub record CreateChunkStaging : Type 0 where
  pub code_mode : CodeMode
  pub slots : List SlotPlan
  pub create_ts : ℕ
  pub epoch : ℕ

-- `CommitShardMapping` of chunk/model.rs.
pub record CommitShardMapping : Type 0 where
  pub job_id : ℕ
  pub chunk_id : ℕ
  pub index : ℕ
  pub expected_epoch : ℕ
  pub new_disk : ℕ
  pub new_create_ts : ℕ
  pub committer : ℕ

-- `CommitShardRepair` of shard_repair.rs.
pub record CommitShardRepair : Type 0 where
  pub chunk_id : ℕ
  pub index : ℕ
  pub expected_epoch : ℕ
  pub new_disk : ℕ
  pub new_create_ts : ℕ
  pub committer : ℕ

pub data PdEntry : Type 0 where
  noop : PdEntry
  register_node : RegisterNode → PdEntry
  update_node_status : ℕ → NodeStatus → PdEntry
  remove_node : ℕ → PdEntry
  register_disk : RegisterDisk → PdEntry
  update_disk_status : ℕ → DiskStatus → PdEntry
  create_chunk_staging : CreateChunkStaging → PdEntry
  commit_chunk rebump_staging seal_chunk : ℕ → PdEntry
  register_writer mark_writer_dead : ℕ → PdEntry
  job : JobCommand → PdEntry
  commit_shard_mapping : CommitShardMapping → PdEntry
  report_shard_repair : ℕ → ℕ → PdEntry
  commit_shard_repair : CommitShardRepair → PdEntry
  create_partition : CreatePartition → PdEntry
  split_partition : ℕ → PartitionBound → PdEntry
  migrate_partition : ℕ → ℕ → ℕ → PdEntry

pub data ApplyResult : Type 0 where
  applied : ApplyResult
  node_registered disk_registered chunk_staged writer_registered : ℕ → ApplyResult
  job_created shard_rebound : ℕ → ApplyResult
  shard_repair_reported : Bool → ApplyResult
  partition_created : ℕ → ApplyResult
  partition_split : ℕ → ℕ → ApplyResult
  partition_migrated : List ℕ → ApplyResult
  rejected : RejectReason → ApplyResult
