-- ===== src/Pd/State/Outlived.antt =====
-- A job that rebinds a shard in `apply_command` of crates/epoch-pd/src/state.rs while a repair ticket
-- for it is pending.
use epoch_io.Common.{
  ℕ, ◌^◌, ◌<◌, ◌≤◌, ◌≡◌, ◌≢◌, sym, ap, subst, ◌∙◌, arith, true, some, List, All, ok, inl, inr,
}
use epoch_io.Common.Map.{lookup}
use epoch_io.Pd.Chunk.Shape.{IsSound, Step-IsSound, rebind_shard}
use epoch_io.Pd.Chunk.Rebind.{rebind-IsRebuilt}
use epoch_io.Pd.ShardRepair.{ShardRepairTicket, shard_prefix}
use epoch_io.Pd.State.Entries.{PdEntry, CommitShardMapping, CommitShardRepair, shard_rebound}
use epoch_io.Pd.State.{
  Codecs, Applying, to_chunks, commit_shard_mapping, report_shard_repair, commit_shard_repair,
}
use epoch_io.Pd.State.Rebinds.{commit_shard_mapping-cases}
use epoch_io.Pd.State.Frames.{IsTyped}
use epoch_io.Pd.State.Authority.{answered}
use epoch_io.Pd.State.StaleTickets.{IsStale}
use epoch_io.Pd.State.TicketsLast.{run, stale_for_good}

module _ (c : Codecs) (w : Applying) (by_job : CommitShardMapping) (t : ShardRepairTicket) where
  -- An answered rebind of a job raises the slot above a ticket that was not ahead of it.
  pub commit_shard_mapping-IsStale :
      (m : ℕ)
      → IsSound w.state.chunks
      → by_job.new_create_ts < 2 ^ 64
      → lookup (shard_prefix by_job.chunk_id by_job.index) w.state.shard_repairs ≡ some t
      → t.expected_epoch ≤ by_job.expected_epoch
      → (commit_shard_mapping c by_job w).1 ≡ ok (shard_rebound m)
      → IsSound (commit_shard_mapping c by_job w).0.state.chunks
        × IsStale (commit_shard_mapping c by_job w).0 by_job.chunk_id by_job.index t
  commit_shard_mapping-IsStale m sound ht pending le h =
      elim (commit_shard_mapping-cases c w by_job) [
        | inl (r, e) ↦ cc (h, ap (λ x. x.1) e)
        | inr (_, _, e) ↦
            let id = by_job.chunk_id in
            let (went, _) = answered by_job.expected_epoch m _ (sym (ap (λ x. x.1) e) ∙ h) in
            let step =
              rebind_shard true id by_job.index by_job.expected_epoch by_job.new_disk
                by_job.new_create_ts (to_chunks w) ht in
            let (old, new, known, now, (_, _, (slot, at, _, epoch, _), _), _) =
              rebind-IsRebuilt c.chunks c.plans true id by_job.index by_job.expected_epoch
                by_job.new_disk by_job.new_create_ts (to_chunks w) sound ht went in
            subst (λ x. IsSound x.0.state.chunks × IsStale x.0 id by_job.index t) (sym e)
              (
                Step-IsSound c.chunks c.plans (to_chunks w) _ step sound,
                (pending, (new, slot, now, at, omega (arith, epoch, le))),
              )
      ]

  -- With sound chunks and well-typed entries, when a job rebinds a shard whose pending ticket is
  -- at the epoch of the slot or behind it, then after any further entries no repair of the shard
  -- by a ticket is answered, and a report of it changes nothing.
  pub outlived_ticket :
      (m : ℕ) (entries : List PdEntry) (cmd : CommitShardRepair) (n : ℕ)
      → All IsTyped entries
      → IsSound w.state.chunks
      → by_job.new_create_ts < 2 ^ 64
      → lookup (shard_prefix by_job.chunk_id by_job.index) w.state.shard_repairs ≡ some t
      → t.expected_epoch ≤ by_job.expected_epoch
      → (commit_shard_mapping c by_job w).1 ≡ ok (shard_rebound m)
      → (cmd.chunk_id ≡ by_job.chunk_id) × (cmd.index ≡ by_job.index)
      → ((commit_shard_repair c cmd (run c entries (commit_shard_mapping c by_job w).0)).1
          ≢ ok (shard_rebound n))
        × ((report_shard_repair c by_job.chunk_id by_job.index
              (run c entries (commit_shard_mapping c by_job w).0)).0
            ≡ run c entries (commit_shard_mapping c by_job w).0)
  outlived_ticket m entries cmd n typed sound ht pending le h (p, q) =
      let (still, stale) = commit_shard_mapping-IsStale m sound ht pending le h in
      stale_for_good c by_job.chunk_id by_job.index t entries (commit_shard_mapping c by_job w).0
        cmd n typed still stale p q
