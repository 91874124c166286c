-- ===== src/Pd/State/Frames.antt =====
-- What the entries of `apply_command` in crates/epoch-pd/src/state.rs leave of the chunks: those of
-- the chunk manager's own commands, and nothing else.
use epoch_io.Common.{
  ℕ, ◌^◌, ◌<◌, ◌≡◌, refl, ap, ◌∙◌, true, none, some, All, ok, err, inl, inr, ◌⊎◌, Option-cases,
  Bool-cases,
}
use epoch_io.Common.Map.{lookup}
use epoch_io.Pd.Reject.{RejectReason}
use epoch_io.Pd.Node.Manager as Nodes
use epoch_io.Pd.Chunk.{find_slot, validate_slots}
use epoch_io.Pd.Chunk.Manager as Chunks
use epoch_io.Pd.Chunk.Shape.{Step, create, commit, rebump, seal_chunk, rebind_shard}
use epoch_io.Pd.State.Entries.{
  PdEntry, CreateChunkStaging, CommitShardMapping, CommitShardRepair, ApplyResult, rejected,
  shard_rebound,
}
use epoch_io.Pd.State.{
  Codecs, Applying, Answer, to_chunks, clear_ticket, chunk_plan_reject, create_chunk_staging,
  register_disk, register_writer, commit_shard_mapping, report_shard_repair, commit_shard_repair,
  apply_command,
}
use epoch_io.Pd.Partition.{CreatePartition}
use epoch_io.Pd.State.{peers_reject, create_partition}
use epoch_io.Pd.State.Rebinds.{rebound, commit_shard_mapping-cases, commit_shard_repair-cases}

-- The indices of a plan are `u8` values, and timestamps are 64 bits wide.
abbrev pub IsTyped : PdEntry → Type 0
IsTyped (PdEntry.create_chunk_staging cmd) =
    (cmd.create_ts < 2 ^ 64) × All (λ p. p.index < 2 ^ 8) cmd.slots
IsTyped (PdEntry.commit_shard_mapping cmd) = cmd.new_create_ts < 2 ^ 64
IsTyped (PdEntry.commit_shard_repair cmd) = cmd.new_create_ts < 2 ^ 64
IsTyped entry = Unit {0}

module _ (c : Codecs) (w : Applying) where
  -- The chunks are as they were, or one command of the chunk manager on.
  abbrev pub Moves : Applying → Type 0
  Moves v =
      (v.state.chunks ≡ w.state.chunks)
      ⊎ ((t : Chunks.Staged) × Step c.chunks c.plans (to_chunks w) t × (v.state.chunks ≡ t.index))

  planned :
      (cmd : CreateChunkStaging)
      → cmd.create_ts < 2 ^ 64
      → All (λ p. p.index < 2 ^ 8) cmd.slots
      → Moves (create_chunk_staging c cmd w).0
  planned cmd ht bytes = elim (Option-cases (chunk_plan_reject w.state cmd)) [
    | inr (r, e) ↦ inl (unfold create_chunk_staging in rw (e, create_chunk_staging) refl)
    | inl e ↦ inr (
      _,
      create true cmd.code_mode cmd.slots cmd.create_ts cmd.epoch (to_chunks w) ht bytes (valid e),
      unfold create_chunk_staging in rw (e, create_chunk_staging) refl,
    )
  ]
    where
      valid : chunk_plan_reject w.state cmd ≡ none → validate_slots cmd.code_mode cmd.slots ≡ none
      valid e = elim (Option-cases (validate_slots cmd.code_mode cmd.slots)) [
        | inl q ↦ q
        | inr (r, q) ↦ cc (e, refused r q)
      ]
        where
          refused :
              (r : RejectReason)
              → validate_slots cmd.code_mode cmd.slots ≡ some r
              → chunk_plan_reject w.state cmd ≡ some r
          refused r q = unfold chunk_plan_reject in rw (q, chunk_plan_reject) refl

  registered_disk : (cmd : _) → Moves (register_disk c cmd w).0
  registered_disk cmd = elim (Bool-cases (Nodes.contains cmd.node_id w.state.nodes.rows)) [
    | inl e ↦ inl (unfold register_disk in rw (e, register_disk) refl)
    | inr e ↦ inl (unfold register_disk in rw (e, register_disk) refl)
  ]

  registered_writer : (id : ℕ) → Moves (register_writer c id w).0
  registered_writer id = elim (Bool-cases (Nodes.contains id w.state.nodes.rows)) [
    | inl e ↦ inl (unfold register_writer in rw (e, register_writer) refl)
    | inr e ↦ inl (unfold register_writer in rw (e, register_writer) refl)
  ]

  created_partition : (cmd : CreatePartition) → Moves (create_partition c cmd w).0
  created_partition cmd = elim (Option-cases (peers_reject w.state.nodes.rows cmd.peers)) [
    | inr (r, e) ↦ inl (unfold create_partition in rw (e, create_partition) refl)
    | inl e ↦ inl (unfold create_partition in rw (e, create_partition) refl)
  ]

  reported_shard : (id index : ℕ) → Moves (report_shard_repair c id index w).0
  reported_shard id index = elim (Option-cases (lookup id w.state.chunks.chunks)) [
    | inl e ↦ inl (unfold report_shard_repair in rw (e, report_shard_repair) refl)
    | inr (chunk, e) ↦ elim (Option-cases (find_slot index chunk.shards)) [
      | inl f ↦ inl (
          unfold report_shard_repair in
          rw (e, report_shard_repair) (rw (f, report_shard_repair) refl))
      | inr (slot, f) ↦ elim (Option-cases (lookup slot.disk_id w.state.disks.rows)) [
        | inl g ↦ inl (
            unfold report_shard_repair in
            rw (e, report_shard_repair)
              (rw (f, report_shard_repair) (rw (g, report_shard_repair) refl)))
        | inr (disk, g) ↦ inl (
            unfold report_shard_repair in
            rw (e, report_shard_repair)
              (rw (f, report_shard_repair) (rw (g, report_shard_repair) refl)))
      ]
    ]
  ]

  cleared_chunks :
      (prefix epoch : ℕ) (a : Answer)
      → (clear_ticket c prefix epoch a).0.state.chunks ≡ a.0.state.chunks
  cleared_chunks prefix epoch (v, err x) = refl
  cleared_chunks prefix epoch (v, ok (shard_rebound m)) = refl
  cleared_chunks prefix epoch (v, ok ApplyResult.applied) = refl
  cleared_chunks prefix epoch (v, ok (ApplyResult.node_registered i)) = refl
  cleared_chunks prefix epoch (v, ok (ApplyResult.disk_registered i)) = refl
  cleared_chunks prefix epoch (v, ok (ApplyResult.chunk_staged i)) = refl
  cleared_chunks prefix epoch (v, ok (ApplyResult.writer_registered i)) = refl
  cleared_chunks prefix epoch (v, ok (ApplyResult.job_created i)) = refl
  cleared_chunks prefix epoch (v, ok (ApplyResult.shard_repair_reported b)) = refl
  cleared_chunks prefix epoch (v, ok (ApplyResult.partition_created _)) = refl
  cleared_chunks prefix epoch (v, ok (ApplyResult.partition_split _ _)) = refl
  cleared_chunks prefix epoch (v, ok (ApplyResult.partition_migrated _)) = refl
  cleared_chunks prefix epoch (v, ok (rejected r)) = refl

  rebound_by_job :
      (cmd : CommitShardMapping)
      → cmd.new_create_ts < 2 ^ 64
      → Moves (commit_shard_mapping c cmd w).0
  rebound_by_job cmd ht = elim (commit_shard_mapping-cases c w cmd) [
    | inl (r, e) ↦ inl (ap (λ x. x.0.state.chunks) e)
    | inr (_, _, e) ↦ inr (
      _,
      rebind_shard true cmd.chunk_id cmd.index cmd.expected_epoch cmd.new_disk cmd.new_create_ts
          (to_chunks w) ht,
      ap (λ x. x.0.state.chunks) e,
    )
  ]

  rebound_by_ticket :
      (cmd : CommitShardRepair) → cmd.new_create_ts < 2 ^ 64 → Moves (commit_shard_repair c cmd w).0
  rebound_by_ticket cmd ht = elim (commit_shard_repair-cases c w cmd) [
    | inl (r, e) ↦ inl (ap (λ x. x.0.state.chunks) e)
    | inr (_, _, e) ↦ inr (
      _,
      rebind_shard true cmd.chunk_id cmd.index cmd.expected_epoch cmd.new_disk cmd.new_create_ts
          (to_chunks w) ht,
      ap (λ x. x.0.state.chunks) e
          ∙ cleared_chunks _ _ (
              rebound c w cmd.chunk_id cmd.index cmd.expected_epoch cmd.new_disk cmd.new_create_ts),
    )
  ]

  pub apply_command-Moves : (entry : PdEntry) → IsTyped entry → Moves (apply_command c entry w).0
  unfolding apply_command
  apply_command-Moves PdEntry.noop h = inl refl
  apply_command-Moves (PdEntry.register_node cmd) h = inl refl
  apply_command-Moves (PdEntry.update_node_status id status) h = inl refl
  apply_command-Moves (PdEntry.remove_node id) h = inl refl
  apply_command-Moves (PdEntry.register_disk cmd) h = registered_disk cmd
  apply_command-Moves (PdEntry.update_disk_status id status) h = inl refl
  apply_command-Moves (PdEntry.create_chunk_staging cmd) (ht, bytes) = planned cmd ht bytes
  apply_command-Moves (PdEntry.commit_chunk id) h = inr (_, commit true id (to_chunks w), refl)
  apply_command-Moves (PdEntry.rebump_staging id) h = inr (_, rebump true id (to_chunks w), refl)
  apply_command-Moves (PdEntry.seal_chunk id) h = inr (_, seal_chunk true id (to_chunks w), refl)
  apply_command-Moves (PdEntry.register_writer id) h = registered_writer id
  apply_command-Moves (PdEntry.mark_writer_dead token) h = inl refl
  apply_command-Moves (PdEntry.job cmd) h = inl refl
  apply_command-Moves (PdEntry.commit_shard_mapping cmd) h = rebound_by_job cmd h
  apply_command-Moves (PdEntry.report_shard_repair id index) h = reported_shard id index
  apply_command-Moves (PdEntry.commit_shard_repair cmd) h = rebound_by_ticket cmd h
  apply_command-Moves (PdEntry.create_partition cmd) h = created_partition cmd
  apply_command-Moves (PdEntry.split_partition id at) h = inl refl
  apply_command-Moves (PdEntry.migrate_partition id old new) h = inl refl
