-- ===== src/Pd/State/Unchanged.antt =====
-- `apply_command` of crates/epoch-pd/src/state.rs: the promise of `Rejected`, that nothing changed.
use epoch_io.Common.{ℕ, refl, sym, subst, true, Result, ok, err, inl, inr, Bool-cases, Option-cases}
use epoch_io.Common.Map.{lookup}
use epoch_io.Pd.Records.{SmError, open_cf}
use epoch_io.Pd.Reject.{RejectReason}
use epoch_io.Pd.Node.Manager as Nodes
use epoch_io.Pd.Disk as Disks
use epoch_io.Pd.Disk.{Disk}
use epoch_io.Pd.Chunk.Manager as Chunks
use epoch_io.Pd.Writer as Writers
use epoch_io.Pd.ShardRepair as Repairs
use epoch_io.Pd.ShardRepair.{shard_prefix, ticket_from_slot}
use epoch_io.Pd.Chunk.{find_slot}
use epoch_io.Pd.State.Entries.{
  PdEntry, CreateChunkStaging, CommitShardMapping, CommitShardRepair, ApplyResult, rejected,
}
use epoch_io.Pd.State.{
  Codecs, Applying, Answer, reject_to_result, from_chunks, from_repairs, to_nodes, to_disks,
  to_chunks, to_writers, to_jobs, to_repairs, rebound_result, reported, register_disk,
  create_chunk_staging, register_writer, commit_shard_mapping, report_shard_repair, clear_ticket,
  commit_shard_repair, chunk_plan_reject, apply_command,
}
use epoch_io.Pd.State.Rejections.{
  update_node-Refuses, remove_node-Refuses, update_disk-Refuses, commit-Refuses, rebump-Refuses,
  seal-Refuses, rebind-Refuses, mark_dead-Refuses, job-Refuses,
}
use epoch_io.Pd.State.Rebinds.{commit_shard_mapping-cases, commit_shard_repair-cases}
use epoch_io.Pd.Partition.{CreatePartition}
use epoch_io.Pd.MetaManager as Partitions
use epoch_io.Pd.MetaManager.Refused.{apply_split-none, apply_migrate-none}
use epoch_io.Pd.State.{to_partitions, peers_reject, create_partition, split_result, migrate_result}
use epoch_io.Pd.State.Kept.{
  Keeps, nodes-Keeps, disks-Keeps, chunks-Keeps, writers-Keeps, answers-Keeps, jobs-Keeps,
  reject-Keeps, partitions-Keeps,
}

module _ (c : Codecs) (w : Applying) where
  register_disk-Keeps : (cmd : Disks.RegisterDisk) → Keeps w (register_disk c cmd w)
  register_disk-Keeps cmd = elim (Bool-cases (Nodes.contains cmd.node_id w.state.nodes.rows)) [
    | inl e ↦
        unfold register_disk in
        rw e (
          answers-Keeps w
            (λ s. record { batch = s.batch; state = record w.state { disks = s.index } })
            ApplyResult.disk_registered (Disks.apply_register c.disks true cmd (to_disks w))
            (λ a reason p. cc))
    | inr e ↦ unfold register_disk in rw e (reject-Keeps w RejectReason.node_not_found)
  ]

  register_writer-Keeps : (node_id : ℕ) → Keeps w (register_writer c node_id w)
  register_writer-Keeps node_id = elim (Bool-cases (Nodes.contains node_id w.state.nodes.rows)) [
    | inl e ↦
        unfold register_writer in
        rw e (
          answers-Keeps w
            (λ s. record { batch = s.batch; state = record w.state { writers = s.index } })
            ApplyResult.writer_registered
            (Writers.apply_register c.writers true node_id (to_writers w)) (λ a reason p. cc))
    | inr e ↦ unfold register_writer in rw e (reject-Keeps w RejectReason.node_not_found)
  ]

  create_chunk_staging-Keeps : (cmd : CreateChunkStaging) → Keeps w (create_chunk_staging c cmd w)
  create_chunk_staging-Keeps cmd = elim (Option-cases (chunk_plan_reject w.state cmd)) [
    | inr (r, e) ↦ unfold create_chunk_staging in rw (e, create_chunk_staging) (reject-Keeps w r)
    | inl e ↦
        unfold create_chunk_staging in
        rw (e, create_chunk_staging)
          (answers-Keeps w
            (λ s. record { batch = s.batch; state = record w.state { chunks = s.index } })
            ApplyResult.chunk_staged
            (Chunks.apply_create_staging c.chunks c.plans true cmd.code_mode cmd.slots cmd.create_ts
              cmd.epoch (to_chunks w))
            (λ a reason p. cc))
  ]

  rebound-Keeps :
      (id slot expected new_disk ts : ℕ)
      → Keeps w (
          from_chunks w
            (rebound_result expected)
            (Chunks.apply_rebind c.chunks c.plans true id slot expected new_disk ts (to_chunks w)))
  rebound-Keeps id slot expected new_disk ts =
      chunks-Keeps w (rebound_result expected)
        (Chunks.apply_rebind c.chunks c.plans true id slot expected new_disk ts (to_chunks w))
        (λ reason p. cc)
        (rebind-Refuses c.chunks c.plans (to_chunks w) id slot expected new_disk ts)

  commit_shard_mapping-Keeps : (cmd : CommitShardMapping) → Keeps w (commit_shard_mapping c cmd w)
  commit_shard_mapping-Keeps cmd = elim (commit_shard_mapping-cases c w cmd) [
    | inl (r, e) ↦ subst (Keeps w) (sym e) (reject-Keeps w r)
    | inr (allowed, apart, e) ↦
        subst (Keeps w) (sym e)
          (rebound-Keeps cmd.chunk_id cmd.index cmd.expected_epoch cmd.new_disk cmd.new_create_ts)
  ]

  cleared-Keeps :
      (prefix epoch : ℕ) (a : Answer) → Keeps w a → Keeps w (clear_ticket c prefix epoch a)
  cleared-Keeps prefix epoch (w', err x) keeps = keeps
  cleared-Keeps prefix epoch (w', ok (ApplyResult.shard_rebound n)) keeps =
      λ reason h. unfold Repairs.apply_clear open_cf in cc
  cleared-Keeps prefix epoch (w', ok ApplyResult.applied) keeps = keeps
  cleared-Keeps prefix epoch (w', ok (ApplyResult.node_registered n)) keeps = keeps
  cleared-Keeps prefix epoch (w', ok (ApplyResult.disk_registered n)) keeps = keeps
  cleared-Keeps prefix epoch (w', ok (ApplyResult.chunk_staged n)) keeps = keeps
  cleared-Keeps prefix epoch (w', ok (ApplyResult.writer_registered n)) keeps = keeps
  cleared-Keeps prefix epoch (w', ok (ApplyResult.job_created n)) keeps = keeps
  cleared-Keeps prefix epoch (w', ok (ApplyResult.shard_repair_reported b)) keeps = keeps
  cleared-Keeps prefix epoch (w', ok (ApplyResult.partition_created _)) keeps = keeps
  cleared-Keeps prefix epoch (w', ok (ApplyResult.partition_split _ _)) keeps = keeps
  cleared-Keeps prefix epoch (w', ok (ApplyResult.partition_migrated _)) keeps = keeps
  cleared-Keeps prefix epoch (w', ok (rejected r)) keeps = keeps

  commit_shard_repair-Keeps : (cmd : CommitShardRepair) → Keeps w (commit_shard_repair c cmd w)
  commit_shard_repair-Keeps cmd = elim (commit_shard_repair-cases c w cmd) [
    | inl (r, e) ↦ subst (Keeps w) (sym e) (reject-Keeps w r)
    | inr (allowed, apart, e) ↦ subst (Keeps w) (sym e) (
        cleared-Keeps (shard_prefix cmd.chunk_id cmd.index) cmd.expected_epoch _
          (rebound-Keeps cmd.chunk_id cmd.index cmd.expected_epoch cmd.new_disk cmd.new_create_ts))
  ]

  reports-Keeps :
      (res : Repairs.Registry × Result SmError Repairs.ReportOutcome)
      → Keeps w (from_repairs w reported res)
  reports-Keeps (r, err x) reason h = cc
  reports-Keeps (r, ok Repairs.created) reason h = cc
  reports-Keeps (r, ok Repairs.already_present) reason h = cc

  report_shard_repair-Keeps :
      (chunk_id index : ℕ) → Keeps w (report_shard_repair c chunk_id index w)
  report_shard_repair-Keeps chunk_id index =
      elim (Option-cases (lookup chunk_id w.state.chunks.chunks)) [
        | inl e ↦
            unfold report_shard_repair in
            rw (e, report_shard_repair) (reject-Keeps w RejectReason.not_found)
        | inr (chunk, e) ↦ elim (Option-cases (find_slot index chunk.shards)) [
          | inl f ↦
              unfold report_shard_repair in
              rw (e, report_shard_repair)
                (rw (f, report_shard_repair) (reject-Keeps w RejectReason.not_found))
          | inr (slot, f) ↦ elim (Option-cases (lookup slot.disk_id w.state.disks.rows)) [
            | inl d ↦
                unfold report_shard_repair in
                rw (e, report_shard_repair)
                  (rw (f, report_shard_repair)
                    (rw (d, report_shard_repair) (reject-Keeps w RejectReason.not_found)))
            | inr (disk, d) ↦
                unfold report_shard_repair in
                rw (e, report_shard_repair)
                  (rw (f, report_shard_repair)
                    (rw (d, report_shard_repair)
                      (reports-Keeps (
                        Repairs.apply_report c.tickets true
                          (ticket_from_slot chunk_id slot disk.node_id) (to_repairs w)))))
          ]
        ]
      ]

module _ (c : Codecs) (w : Applying) where
  create_partition-Keeps : (cmd : CreatePartition) → Keeps w (create_partition c cmd w)
  create_partition-Keeps cmd = elim (Option-cases (peers_reject w.state.nodes.rows cmd.peers)) [
    | inr (r, e) ↦ unfold create_partition in rw (e, create_partition) (reject-Keeps w r)
    | inl e ↦
        unfold create_partition in
        rw (e, create_partition)
          (answers-Keeps w
            (λ s. record { batch = s.batch; state = record w.state { partitions = s.index } })
            ApplyResult.partition_created
            (Partitions.apply_create c.partitions true cmd (to_partitions w)) (λ a reason p. cc))
  ]

-- A command that is answered with a rejection has changed neither the state nor the batch, whichever
-- command it is.
pub apply_command-Keeps :
    (c : Codecs) (entry : PdEntry) (w : Applying) → Keeps w (apply_command c entry w)
unfolding apply_command
apply_command-Keeps c PdEntry.noop w = λ reason h. refl
apply_command-Keeps c (PdEntry.register_node cmd) w =
    answers-Keeps w (λ s. record { batch = s.batch; state = record w.state { nodes = s.index } })
      ApplyResult.node_registered (Nodes.apply_register c.nodes true cmd (to_nodes w))
      (λ a reason p. cc)
apply_command-Keeps c (PdEntry.update_node_status id status) w =
    nodes-Keeps w _ (update_node-Refuses c.nodes (to_nodes w) id status)
apply_command-Keeps c (PdEntry.remove_node id) w =
    nodes-Keeps w _ (remove_node-Refuses c.nodes (to_nodes w) id)
apply_command-Keeps c (PdEntry.register_disk cmd) w = register_disk-Keeps c w cmd
apply_command-Keeps c (PdEntry.update_disk_status id status) w =
    disks-Keeps w _ (update_disk-Refuses c.disks (to_disks w) id status)
apply_command-Keeps c (PdEntry.create_chunk_staging cmd) w = create_chunk_staging-Keeps c w cmd
apply_command-Keeps c (PdEntry.commit_chunk id) w =
    chunks-Keeps w reject_to_result _ (λ r p. cc) (commit-Refuses c.chunks c.plans (to_chunks w) id)
apply_command-Keeps c (PdEntry.rebump_staging id) w =
    chunks-Keeps w reject_to_result _ (λ r p. cc) (rebump-Refuses c.chunks c.plans (to_chunks w) id)
apply_command-Keeps c (PdEntry.seal_chunk id) w =
    chunks-Keeps w reject_to_result _ (λ r p. cc) (seal-Refuses c.chunks c.plans (to_chunks w) id)
apply_command-Keeps c (PdEntry.register_writer node_id) w = register_writer-Keeps c w node_id
apply_command-Keeps c (PdEntry.mark_writer_dead token) w =
    writers-Keeps w _ (mark_dead-Refuses c.writers (to_writers w) token)
apply_command-Keeps c (PdEntry.job cmd) w = jobs-Keeps w _ (job-Refuses c.jobs (to_jobs w) cmd)
apply_command-Keeps c (PdEntry.commit_shard_mapping cmd) w = commit_shard_mapping-Keeps c w cmd
apply_command-Keeps c (PdEntry.report_shard_repair chunk_id index) w =
    report_shard_repair-Keeps c w chunk_id index
apply_command-Keeps c (PdEntry.commit_shard_repair cmd) w = commit_shard_repair-Keeps c w cmd
apply_command-Keeps c (PdEntry.create_partition cmd) w = create_partition-Keeps c w cmd
apply_command-Keeps c (PdEntry.split_partition id at) w =
    partitions-Keeps w split_result _ (λ a r p. cc)
      (apply_split-none c.partitions id at (to_partitions w))
apply_command-Keeps c (PdEntry.migrate_partition id old new) w =
    partitions-Keeps w migrate_result _ (λ a r p. cc)
      (apply_migrate-none c.partitions id old new (to_partitions w))
