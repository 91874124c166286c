-- ===== src/Pd/State/Rebinds.antt =====
-- The two ways to rebind a shard in `apply_command` of crates/epoch-pd/src/state.rs: by a job and by a
-- ticket.
use epoch_io.Common.{ℕ, ◌≡◌, refl, true, none, ok, inl, inr, ◌⊎◌, Option-cases, Result-cases}
use epoch_io.Common.Map.{lookup}
use epoch_io.Pd.Reject.{RejectReason, not_found}
use epoch_io.Pd.Chunk.Manager as Chunks
use epoch_io.Pd.Job.Commit as JobCommit
use epoch_io.Pd.ShardRepair as Repairs
use epoch_io.Pd.ShardRepair.{shard_prefix}
use epoch_io.Pd.State.Entries.{CommitShardMapping, CommitShardRepair}
use epoch_io.Pd.State.{
  Codecs, Applying, Answer, reject, from_chunks, to_chunks, rebound_result, commit_shard_mapping,
  clear_ticket, commit_shard_repair, rebind_affinity_reject,
}

module _ (c : Codecs) (w : Applying) where
  abbrev pub Turned : Answer → Type 0
  Turned res = (reason : RejectReason) × (res ≡ reject w reason)

  -- The rebind on the chunks, its answer the new epoch.
  abbrev pub rebound : ℕ → ℕ → ℕ → ℕ → ℕ → Answer
  rebound id index expected new_disk ts =
      from_chunks w (rebound_result expected)
        (Chunks.apply_rebind c.chunks c.plans true id index expected new_disk ts (to_chunks w))

  pub commit_shard_mapping-cases :
      (cmd : CommitShardMapping)
      → Turned (commit_shard_mapping c cmd w)
        ⊎ ((JobCommit.authorize_commit (lookup cmd.job_id w.state.jobs.rows) cmd.committer 0 0
              ≡ ok tt)
            × (rebind_affinity_reject w.state cmd.chunk_id cmd.index cmd.new_disk ≡ none)
            × (commit_shard_mapping c cmd w
                ≡ rebound cmd.chunk_id cmd.index cmd.expected_epoch cmd.new_disk cmd.new_create_ts))
  commit_shard_mapping-cases cmd =
      elim (Result-cases
        (JobCommit.authorize_commit (lookup cmd.job_id w.state.jobs.rows) cmd.committer 0 0)) [
          | inl (x, e) ↦
              inl (not_found, unfold commit_shard_mapping in rw (e, commit_shard_mapping) refl)
          | inr (u, e) ↦
              elim (Option-cases
                (rebind_affinity_reject w.state cmd.chunk_id cmd.index cmd.new_disk)) [
                  | inr (r, a) ↦ inl (
                    r,
                    unfold commit_shard_mapping in
                        rw (e, commit_shard_mapping) (rw (a, commit_shard_mapping) refl),
                  )
                  | inl a ↦ inr (
                    e,
                    a,
                    unfold commit_shard_mapping in
                        rw (e, commit_shard_mapping) (rw (a, commit_shard_mapping) refl),
                  )
                ]
        ]

  pub commit_shard_repair-cases :
      (cmd : CommitShardRepair)
      → Turned (commit_shard_repair c cmd w)
        ⊎ ((Repairs.authorize_commit
                (lookup (shard_prefix cmd.chunk_id cmd.index) w.state.shard_repairs)
                cmd.committer
                cmd.expected_epoch
              ≡ ok tt)
            × (rebind_affinity_reject w.state cmd.chunk_id cmd.index cmd.new_disk ≡ none)
            × (commit_shard_repair c cmd w
                ≡ clear_ticket c (shard_prefix cmd.chunk_id cmd.index) cmd.expected_epoch (
                    rebound cmd.chunk_id cmd.index cmd.expected_epoch cmd.new_disk
                      cmd.new_create_ts)))
  commit_shard_repair-cases cmd =
      elim (Result-cases (
        Repairs.authorize_commit
          (lookup (shard_prefix cmd.chunk_id cmd.index) w.state.shard_repairs) cmd.committer
          cmd.expected_epoch)) [
            | inl (x, e) ↦
                inl (not_found, unfold commit_shard_repair in rw (e, commit_shard_repair) refl)
            | inr (u, e) ↦
                elim (Option-cases
                  (rebind_affinity_reject w.state cmd.chunk_id cmd.index cmd.new_disk)) [
                    | inr (r, a) ↦ inl (
                      r,
                      unfold commit_shard_repair in
                          rw (e, commit_shard_repair) (rw (a, commit_shard_repair) refl),
                    )
                    | inl a ↦ inr (
                      e,
                      a,
                      unfold commit_shard_repair in
                          rw (e, commit_shard_repair) (rw (a, commit_shard_repair) refl),
                    )
                  ]
          ]
