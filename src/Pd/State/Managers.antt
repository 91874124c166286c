-- ===== src/Pd/State/Managers.antt =====
-- The managers that crates/epoch-pd/src/state.rs joins: each takes its part of the state, and its
-- outcome is put back with the batch.
use epoch_io.Common.{ℕ, ◌+◌, true, false, Option, none, some, List, Result, ok, ◌>>=◌}
use epoch_io.Pd.Records.{SmError, BatchOp, Codec, Table, Pending}
use epoch_io.Pd.Reject.{RejectReason, not_found}
use epoch_io.Pd.Node.{Node}
use epoch_io.Pd.Disk.{Disk}
use epoch_io.Pd.Chunk.{Chunk, StagingChunk}
use epoch_io.Pd.Chunk.Manager as Chunks
use epoch_io.Pd.Chunk.Manager.{ChunkIndex}
use epoch_io.Pd.Writer as Writers
use epoch_io.Pd.Writer.{WriterRecord}
use epoch_io.Pd.Job as Jobs
use epoch_io.Pd.Job.{Job, JobOutcome}
use epoch_io.Pd.ShardRepair as Repairs
use epoch_io.Pd.ShardRepair.{
  ShardRepairTicket, Tickets, ReportOutcome, shard_prefix, ticket_from_slot,
}
use epoch_io.Pd.Partition.{MetaPartition}
use epoch_io.Pd.MetaManager as Partitions
use epoch_io.Pd.MetaManager.{PartitionIndex}
use epoch_io.Pd.State.Entries.{ApplyResult}

-- The serialisers of the managers' records.
pub record Codecs : Type 0 where
  pub nodes : Codec Node
  pub disks : Codec Disk
  pub chunks : Codec Chunk
  pub plans : Codec StagingChunk
  pub writers : Codec WriterRecord
  pub jobs : Codec Job
  pub tickets : Codec ShardRepairTicket
  pub partitions : Codec MetaPartition

pub record PdState : Type 0 where
  pub nodes : Table Node
  pub disks : Table Disk
  pub chunks : ChunkIndex
  pub writers : Table WriterRecord
  pub jobs : Table Job
  pub shard_repairs : Tickets
  pub partitions : PartitionIndex

-- The state and the batch of the entries applied so far.
pub record Applying : Type 0 where
  pub batch : List BatchOp
  pub state : PdState

abbrev pub Answer : Type 0
Answer = Applying × Result SmError ApplyResult

unfoldable pub reject_to_result : Option RejectReason → ApplyResult
reject_to_result none = ApplyResult.applied
reject_to_result (some reason) = ApplyResult.rejected reason

-- A manager's outcome put back: its batch, its index and its answer.
abbrev pub from_nodes :
    {A : Type 0} → Applying → (A → ApplyResult) → Pending Node × Result SmError A → Answer
from_nodes w f (s, res) =
    (record { batch = s.batch; state = record w.state { nodes = s.index } }, res >>= λ a. ok (f a))

abbrev pub from_disks :
    {A : Type 0} → Applying → (A → ApplyResult) → Pending Disk × Result SmError A → Answer
from_disks w f (s, res) =
    (record { batch = s.batch; state = record w.state { disks = s.index } }, res >>= λ a. ok (f a))

abbrev pub from_chunks :
    {A : Type 0} → Applying → (A → ApplyResult) → Chunks.Staged × Result SmError A → Answer
from_chunks w f (s, res) =
    (record { batch = s.batch; state = record w.state { chunks = s.index } }, res >>= λ a. ok (f a))

abbrev pub from_writers :
    {A : Type 0} → Applying → (A → ApplyResult) → Writers.Staged × Result SmError A → Answer
from_writers w f (s, res) = (
  record { batch = s.batch; state = record w.state { writers = s.index } },
  res >>= λ a. ok (f a),
)

abbrev pub from_jobs :
    {A : Type 0} → Applying → (A → ApplyResult) → Jobs.Staged × Result SmError A → Answer
from_jobs w f (s, res) =
    (record { batch = s.batch; state = record w.state { jobs = s.index } }, res >>= λ a. ok (f a))

abbrev pub from_repairs :
    {A : Type 0} → Applying → (A → ApplyResult) → Repairs.Registry × Result SmError A → Answer
from_repairs w f ((batch, tickets), res) = (
  record { batch = batch; state = record w.state { shard_repairs = tickets } },
  res >>= λ a. ok (f a),
)

abbrev pub from_partitions :
    {A : Type 0} → Applying → (A → ApplyResult) → Partitions.Pending × Result SmError A → Answer
from_partitions w f (s, res) = (
  record { batch = s.batch; state = record w.state { partitions = s.index } },
  res >>= λ a. ok (f a),
)

abbrev pub to_partitions : Applying → Partitions.Pending
to_partitions w = record { batch = w.batch; index = w.state.partitions }

abbrev pub to_nodes : Applying → Pending Node
to_nodes w = record { batch = w.batch; index = w.state.nodes }

abbrev pub to_disks : Applying → Pending Disk
to_disks w = record { batch = w.batch; index = w.state.disks }

abbrev pub to_chunks : Applying → Chunks.Staged
to_chunks w = record { batch = w.batch; index = w.state.chunks }

abbrev pub to_writers : Applying → Writers.Staged
to_writers w = record { batch = w.batch; index = w.state.writers }

abbrev pub to_jobs : Applying → Jobs.Staged
to_jobs w = record { batch = w.batch; index = w.state.jobs }

abbrev pub to_repairs : Applying → Repairs.Registry
to_repairs w = (w.batch, w.state.shard_repairs)

abbrev pub job_result : JobOutcome → ApplyResult
job_result (JobOutcome.created_job id) = ApplyResult.job_created id
job_result JobOutcome.applied = ApplyResult.applied
job_result (JobOutcome.rejected reason) = ApplyResult.rejected reason

abbrev pub rebound_result : ℕ → Option RejectReason → ApplyResult
rebound_result epoch none = ApplyResult.shard_rebound (epoch + 1)
rebound_result epoch (some reason) = ApplyResult.rejected reason

abbrev pub reported : ReportOutcome → ApplyResult
reported ReportOutcome.created = ApplyResult.shard_repair_reported true
reported ReportOutcome.already_present = ApplyResult.shard_repair_reported false

abbrev pub reject : Applying → RejectReason → Answer
reject w reason = (w, ok (ApplyResult.rejected reason))

abbrev pub split_result : Option (ℕ × ℕ) → ApplyResult
split_result none = ApplyResult.rejected not_found
split_result (some (child_id, tag)) = ApplyResult.partition_split child_id tag

abbrev pub migrate_result : Option (List ℕ) → ApplyResult
migrate_result none = ApplyResult.rejected not_found
migrate_result (some peers) = ApplyResult.partition_migrated peers
