-- ===== src/Pd/State/Authority.antt =====
-- What an answered rebind of `apply_command` in crates/epoch-pd/src/state.rs vouches for: who asked for
-- it, that the slot was the one expected, and that the chunk stays spread over nodes.
use epoch_io.Common.{
  ℕ, ◌+◌, ◌≡◌, refl, sym, ap, ◌∙◌, ◌>>=◌, arith, true, Option, none, some, Result, ok, err, inl,
  inr, Option-cases, All,
}
use epoch_io.Common.Map.{lookup, lookup-remove}
use epoch_io.Pd.Records.{SmError, open_cf}
use epoch_io.Pd.Reject.{RejectReason}
use epoch_io.Pd.Disk.{Disk}
use epoch_io.Pd.Chunk.{Chunk, ShardSlot, find_slot}
use epoch_io.Pd.Chunk.Manager as Chunks
use epoch_io.Pd.Chunk.Moves.{rebind-effect}
use epoch_io.Pd.Job.{Job, JobState}
use epoch_io.Pd.Job.Commit as JobCommit
use epoch_io.Pd.Job.Commit.{authorize_commit_iff}
use epoch_io.Pd.ShardRepair as Repairs
use epoch_io.Pd.ShardRepair.{ShardRepairTicket, shard_prefix}
use epoch_io.Pd.State.Entries.{
  CommitShardMapping, CommitShardRepair, ApplyResult, rejected, shard_rebound,
}
use epoch_io.Pd.State.{
  Codecs, Applying, Answer, to_chunks, rebound_result, commit_shard_mapping, clear_ticket,
  commit_shard_repair, rebind_affinity_reject,
}
use epoch_io.Pd.State.Rebinds.{rebound, commit_shard_mapping-cases, commit_shard_repair-cases}
use epoch_io.Pd.State.Affinity.{IsApart, rebind_affinity_reject-IsApart}

pub answered :
    (expected n : ℕ) (r : Result SmError (Option RejectReason))
    → (r >>= λ a. ok (rebound_result expected a)) ≡ ok (shard_rebound n)
    → (r ≡ ok none) × (n ≡ expected + 1)
answered expected n (err e) h = cc
answered expected n (ok none) h = (refl, cc h)
answered expected n (ok (some r)) h = cc

module _ (c : Codecs) (w : Applying) where
  -- What an answered rebind found.
  pub record IsRebind (chunk_id index expected new_disk : ℕ) : Type 0 where
    pub chunk : Chunk
    pub slot : ShardSlot
    pub target : Disk
    pub known : lookup chunk_id w.state.chunks.chunks ≡ some chunk
    pub placed : find_slot index chunk.shards ≡ some slot
    pub current : slot.epoch ≡ expected
    pub registered : lookup new_disk w.state.disks.rows ≡ some target
    pub apart : All (IsApart w.state.disks.rows index target.node_id) chunk.shards

  pub rebound-IsRebind :
      (id index expected new_disk ts n : ℕ)
      → rebind_affinity_reject w.state id index new_disk ≡ none
      → (rebound c w id index expected new_disk ts).1 ≡ ok (shard_rebound n)
      → IsRebind id index expected new_disk × (n ≡ expected + 1)
  rebound-IsRebind id index expected new_disk ts n free h =
      let res =
        Chunks.apply_rebind c.chunks c.plans true id index expected new_disk ts (to_chunks w) in
      let (went, epoch) = answered expected n res.1 h in
      elim (rebind-effect c.chunks c.plans (to_chunks w) true id index expected new_disk ts) [
        | inl (same, (r, e, not_ok)) ↦ absurd (not_ok (sym e ∙ went))
        | inr (chunk, old, rebuilt, (found, at, current, made), left) ↦
            let (target, registered, apart) =
              rebind_affinity_reject-IsApart w.state id index new_disk chunk found free in
            (
              record {
                chunk = chunk;
                slot = old;
                target = target;
                known = found;
                placed = at;
                current = current;
                registered = registered;
                apart = apart;
              },
              epoch,
            )
      ]

  -- The committer coordinates the job, which is running.
  abbrev pub IsCoordinator : ℕ → ℕ → Type 0
  IsCoordinator job_id committer =
      (j : Job) × (lookup job_id w.state.jobs.rows ≡ some j)
      × (j.state ≡ JobState.running)
      × (j.coordinator ≡ some committer)

  job_authorized :
      (job_id committer : ℕ)
      → JobCommit.authorize_commit (lookup job_id w.state.jobs.rows) committer 0 0 ≡ ok tt
      → IsCoordinator job_id committer
  job_authorized job_id committer h = elim (Option-cases (lookup job_id w.state.jobs.rows)) [
    | inl e ↦ cc (rw e at h, no_job)
    | inr (j, e) ↦
        let (running, coordinator, _) = (authorize_commit_iff j committer 0 0).0 (rw e at h) in
        (j, e, running, coordinator)
  ]
    where
      no_job : JobCommit.authorize_commit none committer 0 0 ≡ err JobCommit.unknown_job
      no_job = unfold JobCommit.authorize_commit in refl

  -- An answered rebind by a job was asked for by the coordinator of a running job, at the epoch
  -- of the slot, for a registered disk on a node that has none of the known disks of the chunk's
  -- other slots, and answers the next epoch.
  pub commit_shard_mapping-IsRebind :
      (cmd : CommitShardMapping) (n : ℕ)
      → (commit_shard_mapping c cmd w).1 ≡ ok (shard_rebound n)
      → IsCoordinator cmd.job_id cmd.committer
        × IsRebind cmd.chunk_id cmd.index cmd.expected_epoch cmd.new_disk
        × (n ≡ cmd.expected_epoch + 1)
  commit_shard_mapping-IsRebind cmd n h = elim (commit_shard_mapping-cases c w cmd) [
    | inl (r, e) ↦ cc (h, ap (λ x. x.1) e)
    | inr (allowed, free, e) ↦
        let (rebind, epoch) =
          rebound-IsRebind cmd.chunk_id cmd.index cmd.expected_epoch cmd.new_disk cmd.new_create_ts
            n free (sym (ap (λ x. x.1) e) ∙ h) in
        (job_authorized cmd.job_id cmd.committer allowed, rebind, epoch)
  ]

  -- A ticket for the shard names the committer and the epoch.
  abbrev pub IsTarget : ℕ → ℕ → ℕ → ℕ → Type 0
  IsTarget chunk_id index committer expected =
      (t : ShardRepairTicket) × (lookup (shard_prefix chunk_id index) w.state.shard_repairs
        ≡ some t)
      × (t.target_node ≡ committer)
      × (t.expected_epoch ≡ expected)

  pub ticket_authorized :
      (chunk_id index committer expected : ℕ)
      → Repairs.authorize_commit
          (lookup (shard_prefix chunk_id index) w.state.shard_repairs)
          committer
          expected
        ≡ ok tt
      → IsTarget chunk_id index committer expected
  ticket_authorized chunk_id index committer expected h =
      elim (Option-cases (lookup (shard_prefix chunk_id index) w.state.shard_repairs)) [
        | inl e ↦ cc (rw e at h, none_pending)
        | inr (t, e) ↦ let (target, epoch) = named t (rw e at h) in (t, e, target, epoch)
      ]
    where
      none_pending : Repairs.authorize_commit none committer expected ≡ err Repairs.no_ticket
      none_pending = unfold Repairs.authorize_commit in refl

      named :
          (t : ShardRepairTicket)
          → Repairs.authorize_commit (some t) committer expected ≡ ok tt
          → (t.target_node ≡ committer) × (t.expected_epoch ≡ expected)
      named t h = unfold Repairs.authorize_commit in ground arith

  cleared :
      (prefix epoch n : ℕ) (a : Answer)
      → (clear_ticket c prefix epoch a).1 ≡ ok (shard_rebound n)
      → ((m : ℕ) × (a.1 ≡ ok (shard_rebound m))
          × (n ≡ epoch + 1)
          × (lookup prefix (clear_ticket c prefix epoch a).0.state.shard_repairs ≡ none))
  unfolding Repairs.apply_clear open_cf
  cleared prefix epoch n (v, err x) h = cc
  cleared prefix epoch n (v, ok (shard_rebound m)) h =
      (m, refl, cc h, lookup-remove prefix prefix v.state.shard_repairs ∙ ground arith)
  cleared prefix epoch n (v, ok ApplyResult.applied) h = cc
  cleared prefix epoch n (v, ok (ApplyResult.node_registered i)) h = cc
  cleared prefix epoch n (v, ok (ApplyResult.disk_registered i)) h = cc
  cleared prefix epoch n (v, ok (ApplyResult.chunk_staged i)) h = cc
  cleared prefix epoch n (v, ok (ApplyResult.writer_registered i)) h = cc
  cleared prefix epoch n (v, ok (ApplyResult.job_created i)) h = cc
  cleared prefix epoch n (v, ok (ApplyResult.shard_repair_reported b)) h = cc
  cleared prefix epoch n (v, ok (ApplyResult.partition_created _)) h = cc
  cleared prefix epoch n (v, ok (ApplyResult.partition_split _ _)) h = cc
  cleared prefix epoch n (v, ok (ApplyResult.partition_migrated _)) h = cc
  cleared prefix epoch n (v, ok (rejected r)) h = cc

  -- An answered repair was committed by the node that a ticket for the shard names, at the
  -- ticket's epoch, which is the slot's, for a registered disk on a node that has none of the
  -- known disks of the chunk's other slots; it answers the next epoch and uses the ticket up.
  pub commit_shard_repair-IsRebind :
      (cmd : CommitShardRepair) (n : ℕ)
      → (commit_shard_repair c cmd w).1 ≡ ok (shard_rebound n)
      → IsTarget cmd.chunk_id cmd.index cmd.committer cmd.expected_epoch
        × IsRebind cmd.chunk_id cmd.index cmd.expected_epoch cmd.new_disk
        × (n ≡ cmd.expected_epoch + 1)
        × (lookup
              (shard_prefix cmd.chunk_id cmd.index)
              (commit_shard_repair c cmd w).0.state.shard_repairs
            ≡ none)
  commit_shard_repair-IsRebind cmd n h = elim (commit_shard_repair-cases c w cmd) [
    | inl (r, e) ↦ cc (h, ap (λ x. x.1) e)
    | inr (allowed, free, e) ↦
        let (m, inner, next, used) =
          cleared (shard_prefix cmd.chunk_id cmd.index) cmd.expected_epoch n _
            (sym (ap (λ x. x.1) e) ∙ h) in
        let (rebind, epoch) =
          rebound-IsRebind cmd.chunk_id cmd.index cmd.expected_epoch cmd.new_disk cmd.new_create_ts
            m free inner in
        (
          ticket_authorized cmd.chunk_id cmd.index cmd.committer cmd.expected_epoch allowed,
          rebind,
          next,
          ap (λ x. lookup (shard_prefix cmd.chunk_id cmd.index) x.0.state.shard_repairs) e ∙ used,
        )
  ]
