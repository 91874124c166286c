-- ===== src/Pd/State.antt =====
-- crates/epoch-pd/src/state.rs: the state that the placement driver replicates, and `apply_command`,
-- which hands a committed entry to the manager that owns it and keeps what holds between managers.
-- `PdState::open` has opened every column family. The buckets, the configuration and the
-- credentials are left out.
pub mod Entries
mod Managers
pub mod Rejections
pub mod Affinity
pub mod Authority
pub mod Rebinds
pub mod Kept
pub mod Unchanged
pub mod Frames
pub mod StaleTickets
pub mod TicketsLast
pub mod Outlived
unfoldable pub use Managers.*
use epoch_io.Common.{
  ℕ, ◌+◌, Bool, true, false, not, Option, none, some, List, [], ◌∷◌, retain, Result, ok, err, ◌>>=◌,
  if◌then◌else◌, ◌==◌,
}
use epoch_io.Common.Map.{Map, lookup}
use epoch_io.Pd.Records.{SmError, BatchOp, Codec, Table, Pending}
use epoch_io.Pd.Reject.{
  RejectReason, not_found, node_not_found, disk_unavailable, affinity_violation,
}
use epoch_io.Pd.Node.{Node, contains_roles, meta_role}
use epoch_io.Pd.Node.Manager as Nodes
use epoch_io.Pd.Disk as Disks
use epoch_io.Pd.Disk.{Disk, normal}
use epoch_io.Pd.Chunk.{
  Chunk, ShardSlot, StagingChunk, SlotPlan, validate_slots, find_slot, slot_index,
}
use epoch_io.Pd.Chunk.Manager as Chunks
use epoch_io.Pd.Chunk.Manager.{ChunkIndex}
use epoch_io.Pd.Chunk.Placement.{
  AntiAffinity, host_aware, DiskCandidate, SlotDomain, rebind_preserves_affinity,
}
use epoch_io.Pd.Writer as Writers
use epoch_io.Pd.Writer.{WriterRecord}
use epoch_io.Pd.Job as Jobs
use epoch_io.Pd.Job.{Job, JobOutcome}
use epoch_io.Pd.Job.Commit as JobCommit
use epoch_io.Pd.ShardRepair as Repairs
use epoch_io.Pd.ShardRepair.{
  ShardRepairTicket, Tickets, ReportOutcome, shard_prefix, ticket_from_slot,
}
use epoch_io.Pd.Partition.{PartitionBound, MetaPartition, CreatePartition}
use epoch_io.Pd.MetaManager as Partitions
use epoch_io.Pd.MetaManager.{PartitionIndex}
use epoch_io.Pd.State.Entries.{
  PdEntry, CreateChunkStaging, CommitShardMapping, CommitShardRepair, ApplyResult,
}

abbrev rebind_affinity : AntiAffinity
rebind_affinity = host_aware

-- The loop of `chunk_plan_reject` over the targets.
unfoldable pub targets_reject : Map Disk → List SlotPlan → Option RejectReason
targets_reject disks [] = none
targets_reject disks (slot ∷ slots) =
    let rest = targets_reject disks slots in
    elim (lookup slot.disk_id disks) [
      | none ↦ some disk_unavailable
      | some disk ↦ if Disks.same_status disk.status normal then rest else some disk_unavailable
    ]

unfoldable pub chunk_plan_reject : PdState → CreateChunkStaging → Option RejectReason
unfolding targets_reject
chunk_plan_reject p cmd = elim (validate_slots cmd.code_mode cmd.slots) [
  | some reason ↦ some reason
  | none ↦ targets_reject p.disks.rows cmd.slots
]

-- The domains of the chunk's other slots; a slot whose disk is gone has none.
abbrev domain_of : ShardSlot → Option Disk → List SlotDomain → List SlotDomain
domain_of slot none rest = rest
domain_of slot (some disk) rest =
    record { index = slot_index slot; node_id = disk.node_id; rack = disk.rack } ∷ rest

unfoldable pub other_domains : Map Disk → ℕ → List ShardSlot → List SlotDomain
other_domains disks index [] = []
other_domains disks index (slot ∷ slots) =
    let rest = other_domains disks index slots in
    if slot_index slot == index then rest else domain_of slot (lookup slot.disk_id disks) rest

abbrev candidate_of : ℕ → Disk → DiskCandidate
candidate_of id disk = record {
  disk_id = id;
  node_id = disk.node_id;
  rack = disk.rack;
  writable_extents = 0;
}

unfoldable pub rebind_affinity_reject : PdState → ℕ → ℕ → ℕ → Option RejectReason
unfolding other_domains
rebind_affinity_reject p chunk_id index new_disk = elim (lookup chunk_id p.chunks.chunks) [
  | none ↦ none
  | some chunk ↦ elim (lookup new_disk p.disks.rows) [
    | none ↦ some disk_unavailable
    | some target ↦
        if rebind_preserves_affinity (other_domains p.disks.rows index chunk.shards)
          (candidate_of new_disk target) rebind_affinity
        then none
        else some affinity_violation
  ]
]

-- The loop over the peers of a new partition.
unfoldable pub peers_reject : Map Node → List ℕ → Option RejectReason
peers_reject nodes [] = none
peers_reject nodes (peer ∷ peers) =
    let rest = peers_reject nodes peers in
    elim (lookup peer nodes) [
      | none ↦ some node_not_found
      | some node ↦ if contains_roles node.roles meta_role then rest else some node_not_found
    ]

module _ (c : Codecs) where
  unfoldable pub register_disk : Disks.RegisterDisk → Applying → Answer
  register_disk cmd w =
      if Nodes.contains cmd.node_id w.state.nodes.rows
      then from_disks w ApplyResult.disk_registered
          (Disks.apply_register c.disks true cmd (to_disks w))
      else reject w node_not_found

  unfoldable pub create_chunk_staging : CreateChunkStaging → Applying → Answer
  unfolding chunk_plan_reject
  create_chunk_staging cmd w = elim (chunk_plan_reject w.state cmd) [
    | some reason ↦ reject w reason
    | none ↦ from_chunks w ApplyResult.chunk_staged (
        Chunks.apply_create_staging c.chunks c.plans true cmd.code_mode cmd.slots cmd.create_ts
          cmd.epoch (to_chunks w))
  ]

  unfoldable pub register_writer : ℕ → Applying → Answer
  register_writer node_id w =
      if Nodes.contains node_id w.state.nodes.rows
      then from_writers w ApplyResult.writer_registered
          (Writers.apply_register c.writers true node_id (to_writers w))
      else reject w node_not_found

  unfoldable pub commit_shard_mapping : CommitShardMapping → Applying → Answer
  unfolding rebind_affinity_reject
  commit_shard_mapping cmd w =
      elim (JobCommit.authorize_commit (lookup cmd.job_id w.state.jobs.rows) cmd.committer 0 0) [
        | err e ↦ reject w not_found
        | ok _ ↦ elim (rebind_affinity_reject w.state cmd.chunk_id cmd.index cmd.new_disk) [
          | some reason ↦ reject w reason
          | none ↦ from_chunks w (rebound_result cmd.expected_epoch) (
              Chunks.apply_rebind c.chunks c.plans true cmd.chunk_id cmd.index cmd.expected_epoch
                cmd.new_disk cmd.new_create_ts (to_chunks w))
        ]
      ]

  unfoldable pub report_shard_repair : ℕ → ℕ → Applying → Answer
  report_shard_repair chunk_id index w = elim (lookup chunk_id w.state.chunks.chunks) [
    | none ↦ reject w not_found
    | some chunk ↦ elim (find_slot index chunk.shards) [
      | none ↦ reject w not_found
      | some slot ↦ elim (lookup slot.disk_id w.state.disks.rows) [
        | none ↦ reject w not_found
        | some disk ↦ from_repairs w reported (
            Repairs.apply_report c.tickets true (ticket_from_slot chunk_id slot disk.node_id)
              (to_repairs w))
      ]
    ]
  ]

  -- After the rebind: an applied one clears the ticket.
  abbrev clear_ticket : ℕ → ℕ → Answer → Answer
  clear_ticket prefix epoch (w, ok (ApplyResult.shard_rebound n)) =
      from_repairs w (λ _. ApplyResult.shard_rebound (epoch + 1))
        (Repairs.apply_clear c.tickets true prefix (to_repairs w))
  clear_ticket prefix epoch (w, ok other) = (w, ok other)
  clear_ticket prefix epoch (w, err e) = (w, err e)

  unfoldable pub commit_shard_repair : CommitShardRepair → Applying → Answer
  unfolding rebind_affinity_reject
  commit_shard_repair cmd w =
      elim (Repairs.authorize_commit
        (lookup (shard_prefix cmd.chunk_id cmd.index) w.state.shard_repairs) cmd.committer
        cmd.expected_epoch) [
          | err e ↦ reject w not_found
          | ok _ ↦ elim (rebind_affinity_reject w.state cmd.chunk_id cmd.index cmd.new_disk) [
            | some reason ↦ reject w reason
            | none ↦ clear_ticket (shard_prefix cmd.chunk_id cmd.index) cmd.expected_epoch (
                from_chunks w (rebound_result cmd.expected_epoch) (
                  Chunks.apply_rebind c.chunks c.plans true cmd.chunk_id cmd.index
                    cmd.expected_epoch cmd.new_disk cmd.new_create_ts (to_chunks w)))
          ]
        ]

  unfoldable pub create_partition : CreatePartition → Applying → Answer
  unfolding peers_reject
  create_partition cmd w = elim (peers_reject w.state.nodes.rows cmd.peers) [
    | some reason ↦ reject w reason
    | none ↦
        from_partitions w ApplyResult.partition_created
          (Partitions.apply_create c.partitions true cmd (to_partitions w))
  ]

  unfoldable pub apply_command : PdEntry → Applying → Answer
  unfolding reject_to_result register_disk create_chunk_staging register_writer commit_shard_mapping
      report_shard_repair commit_shard_repair create_partition
  apply_command PdEntry.noop w = (w, ok ApplyResult.applied)
  apply_command (PdEntry.register_node cmd) w =
      from_nodes w ApplyResult.node_registered (Nodes.apply_register c.nodes true cmd (to_nodes w))
  apply_command (PdEntry.update_node_status id status) w =
      from_nodes w reject_to_result (Nodes.apply_update_status c.nodes true id status (to_nodes w))
  apply_command (PdEntry.remove_node id) w =
      from_nodes w reject_to_result (Nodes.apply_remove c.nodes true id (to_nodes w))
  apply_command (PdEntry.register_disk cmd) w = register_disk cmd w
  apply_command (PdEntry.update_disk_status id status) w =
      from_disks w reject_to_result (Disks.apply_update_status c.disks true id status (to_disks w))
  apply_command (PdEntry.create_chunk_staging cmd) w = create_chunk_staging cmd w
  apply_command (PdEntry.commit_chunk id) w =
      from_chunks w reject_to_result (Chunks.apply_commit c.chunks c.plans true id (to_chunks w))
  apply_command (PdEntry.rebump_staging id) w =
      from_chunks w reject_to_result (Chunks.apply_rebump c.chunks c.plans true id (to_chunks w))
  apply_command (PdEntry.seal_chunk id) w =
      from_chunks w reject_to_result
        (Chunks.apply_seal_chunk c.chunks c.plans true id (to_chunks w))
  apply_command (PdEntry.register_writer node_id) w = register_writer node_id w
  apply_command (PdEntry.mark_writer_dead token) w =
      from_writers w reject_to_result (Writers.apply_mark_dead c.writers true token (to_writers w))
  apply_command (PdEntry.job cmd) w =
      from_jobs w job_result (Jobs.apply c.jobs true cmd (to_jobs w))
  apply_command (PdEntry.commit_shard_mapping cmd) w = commit_shard_mapping cmd w
  apply_command (PdEntry.report_shard_repair chunk_id index) w =
      report_shard_repair chunk_id index w
  apply_command (PdEntry.commit_shard_repair cmd) w = commit_shard_repair cmd w
  apply_command (PdEntry.create_partition cmd) w = create_partition cmd w
  apply_command (PdEntry.split_partition parent_id at) w =
      from_partitions w split_result
        (Partitions.apply_split c.partitions true parent_id at (to_partitions w))
  apply_command (PdEntry.migrate_partition id old new) w =
      from_partitions w migrate_result
        (Partitions.apply_migrate c.partitions true id old new (to_partitions w))
