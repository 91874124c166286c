-- ===== src/Pd/State/TicketsLast.antt =====
-- A stale ticket of crates/epoch-pd/src/shard_repair.rs under every further entry of `apply_command` of
-- crates/epoch-pd/src/state.rs.
use epoch_io.Common.{
  ℕ, ◌+◌, ◌^◌, ◌<◌, ◌≤◌, ◌≡◌, ◌≢◌, refl, sym, ap, subst, ◌∙◌, arith, true, none, some, List, [],
  ◌∷◌, All, length, ok, err, inl, inr, Option-cases, Bool-cases,
}
use epoch_io.Common.Map.{lookup, lookup-insert_ne, lookup-remove}
use epoch_io.Pd.Records.{open_cf}
use epoch_io.Pd.Node.Manager as Nodes
use epoch_io.Pd.Chunk.{Chunk, ShardSlot, find_slot}
use epoch_io.Pd.Chunk.Shape.{IsSound, Step-IsSound}
use epoch_io.Pd.Chunk.Epochs.{HasReached, Step-HasReached}
use epoch_io.Pd.Chunk.Slots.{find_slot-IsSlot}
use epoch_io.Pd.ShardRepair as Repairs
use epoch_io.Pd.ShardRepair.{ShardRepairTicket, shard_prefix, prefix_of, ticket_from_slot}
use epoch_io.Pd.State.Entries.{PdEntry, CommitShardRepair, ApplyResult, rejected, shard_rebound}
use epoch_io.Pd.State.{
  Codecs, Applying, Answer, to_chunks, to_repairs, from_repairs, reported, clear_ticket,
  chunk_plan_reject, rebind_affinity_reject, register_disk, register_writer, create_chunk_staging,
  report_shard_repair, commit_shard_repair, apply_command,
}
use epoch_io.Pd.State.{peers_reject, create_partition}
use epoch_io.Pd.State.Rebinds.{rebound, commit_shard_mapping-cases, commit_shard_repair-cases}
use epoch_io.Pd.State.Frames.{IsTyped, apply_command-Moves}
use epoch_io.Pd.State.Authority.{rebound-IsRebind, ticket_authorized}
use epoch_io.Pd.State.StaleTickets.{
  IsStale, behind, commit_shard_repair-stale, report_shard_repair-pending, shard_prefix-injective,
}

module _ (c : Codecs) (w : Applying) (k i : ℕ) (t : ShardRepairTicket) where
  in_range :
      (chunk_id index : ℕ) (d : Chunk) (s : ShardSlot)
      → IsSound w.state.chunks
      → lookup chunk_id w.state.chunks.chunks ≡ some d
      → find_slot index d.shards ≡ some s
      → (chunk_id < 2 ^ 32) × (index < 2 ^ 8)
  in_range chunk_id index d s sound found at =
      let (lt, (_, slots, len, small)) = sound.chunks chunk_id d found in
      let bound : chunk_id < 2 ^ 32 = omega (arith, sound.in_range) in
      let fits : 0 + length d.shards ≤ 2 ^ 8 = omega arith in
      (bound, (find_slot-IsSlot chunk_id 0 index d.shards s bound fits slots at).1)

  -- The ticket is pending.
  abbrev Pending : Applying → Type 0
  Pending v = lookup (shard_prefix k i) v.state.shard_repairs ≡ some t

  reported-Pending :
      (u : ShardRepairTicket)
      → Pending w
      → Pending (from_repairs w reported (Repairs.apply_report c.tickets true u (to_repairs w))).0
  reported-Pending u h = elim (Option-cases (lookup (prefix_of u) w.state.shard_repairs)) [
    | inr (old, e) ↦ unfold Repairs.apply_report in rw (e, Repairs.apply_report) h
    | inl e ↦ elim (Option-cases (c.tickets.to_vec u)) [
      | inl f ↦
          unfold Repairs.apply_report open_cf in
          rw (e, Repairs.apply_report) (rw (f, Repairs.apply_report) h)
      | inr (bytes, f) ↦
          let ne : shard_prefix k i ≢ prefix_of u =
            λ p. cc (ap (λ n. lookup n w.state.shard_repairs) p, h, e) in
          (unfold Repairs.apply_report open_cf in
            rw (e, Repairs.apply_report)
              (rw (f, Repairs.apply_report)
                (lookup-insert_ne (prefix_of u) (shard_prefix k i) u w.state.shard_repairs ne ∙ h)))
    ]
  ]

  report_shard_repair-Pending :
      (id index : ℕ) → Pending w → Pending (report_shard_repair c id index w).0
  report_shard_repair-Pending id index h = elim (Option-cases (lookup id w.state.chunks.chunks)) [
    | inl e ↦ unfold report_shard_repair in rw (e, report_shard_repair) h
    | inr (chunk, e) ↦ elim (Option-cases (find_slot index chunk.shards)) [
      | inl f ↦
          unfold report_shard_repair in rw (e, report_shard_repair) (rw (f, report_shard_repair) h)
      | inr (slot, f) ↦ elim (Option-cases (lookup slot.disk_id w.state.disks.rows)) [
        | inl g ↦
            unfold report_shard_repair in
            rw (e, report_shard_repair)
              (rw (f, report_shard_repair) (rw (g, report_shard_repair) h))
        | inr (disk, g) ↦
            (unfold report_shard_repair in
              rw (e, report_shard_repair)
                (rw (f, report_shard_repair)
                  (rw (g, report_shard_repair)
                    (reported-Pending (ticket_from_slot id slot disk.node_id) h))))
      ]
    ]
  ]

  -- Only an answered repair of a shard with the same prefix uses the ticket up.
  cleared-Pending :
      (prefix epoch : ℕ) (a : Answer)
      → ((m : ℕ) → a.1 ≡ ok (shard_rebound m) → shard_prefix k i ≢ prefix)
      → Pending a.0
      → Pending (clear_ticket c prefix epoch a).0
  unfolding Repairs.apply_clear open_cf
  cleared-Pending prefix epoch (v, err x) other h = h
  cleared-Pending prefix epoch (v, ok (shard_rebound m)) other h =
      let ne = other m refl in
      lookup-remove prefix (shard_prefix k i) v.state.shard_repairs ∙ ground arith
  cleared-Pending prefix epoch (v, ok ApplyResult.applied) other h = h
  cleared-Pending prefix epoch (v, ok (ApplyResult.node_registered _)) other h = h
  cleared-Pending prefix epoch (v, ok (ApplyResult.disk_registered _)) other h = h
  cleared-Pending prefix epoch (v, ok (ApplyResult.chunk_staged _)) other h = h
  cleared-Pending prefix epoch (v, ok (ApplyResult.writer_registered _)) other h = h
  cleared-Pending prefix epoch (v, ok (ApplyResult.job_created _)) other h = h
  cleared-Pending prefix epoch (v, ok (ApplyResult.shard_repair_reported _)) other h = h
  cleared-Pending prefix epoch (v, ok (ApplyResult.partition_created _)) other h = h
  cleared-Pending prefix epoch (v, ok (ApplyResult.partition_split _ _)) other h = h
  cleared-Pending prefix epoch (v, ok (ApplyResult.partition_migrated _)) other h = h
  cleared-Pending prefix epoch (v, ok (rejected r)) other h = h

  not_ours :
      (cmd : CommitShardRepair) (m : ℕ)
      → IsSound w.state.chunks
      → IsStale w k i t
      → Repairs.authorize_commit
          (lookup (shard_prefix cmd.chunk_id cmd.index) w.state.shard_repairs)
          cmd.committer
          cmd.expected_epoch
        ≡ ok tt
      → rebind_affinity_reject w.state cmd.chunk_id cmd.index cmd.new_disk ≡ none
      → (rebound c w cmd.chunk_id cmd.index cmd.expected_epoch cmd.new_disk cmd.new_create_ts).1
        ≡ ok (shard_rebound m)
      → shard_prefix k i ≢ shard_prefix cmd.chunk_id cmd.index
  not_ours cmd m sound (pending, (d, s, found, at, le)) allowed free answered p =
      let target =
        ticket_authorized c w cmd.chunk_id cmd.index cmd.committer cmd.expected_epoch allowed in
      let (rebind, _) =
        rebound-IsRebind c w cmd.chunk_id cmd.index cmd.expected_epoch cmd.new_disk
          cmd.new_create_ts m free answered in
      let (hc, hi) = in_range k i d s sound found at in
      let (ho, hj) =
        in_range cmd.chunk_id cmd.index rebind.chunk rebind.slot sound rebind.known rebind.placed in
      let (same, place) = shard_prefix-injective k i cmd.chunk_id cmd.index hc hi ho hj p in
      behind c w k i t cmd.chunk_id cmd.index cmd.committer cmd.expected_epoch cmd.new_disk
        (pending, (d, s, found, at, le)) (sym same) (sym place) target rebind

  commit_shard_repair-Pending :
      (cmd : CommitShardRepair)
      → IsSound w.state.chunks
      → IsStale w k i t
      → Pending (commit_shard_repair c cmd w).0
  commit_shard_repair-Pending cmd sound stale = elim (commit_shard_repair-cases c w cmd) [
    | inl (r, e) ↦ subst (λ x. Pending x.0) (sym e) stale.0
    | inr (allowed, free, e) ↦
        subst (λ x. Pending x.0) (sym e)
          (cleared-Pending (shard_prefix cmd.chunk_id cmd.index) cmd.expected_epoch
            (rebound c w cmd.chunk_id cmd.index cmd.expected_epoch cmd.new_disk cmd.new_create_ts)
            (λ m q. not_ours cmd m sound stale allowed free q) stale.0)
  ]

  others :
      (entry : PdEntry)
      → IsSound w.state.chunks
      → IsStale w k i t
      → Pending (apply_command c entry w).0
  unfolding apply_command
  others PdEntry.noop sound stale = stale.0
  others (PdEntry.register_node cmd) sound stale = stale.0
  others (PdEntry.update_node_status id status) sound stale = stale.0
  others (PdEntry.remove_node id) sound stale = stale.0
  others (PdEntry.register_disk cmd) sound stale =
      elim (Bool-cases (Nodes.contains cmd.node_id w.state.nodes.rows)) [
        | inl e ↦ unfold register_disk in rw (e, register_disk) stale.0
        | inr e ↦ unfold register_disk in rw (e, register_disk) stale.0
      ]
  others (PdEntry.update_disk_status id status) sound stale = stale.0
  others (PdEntry.create_chunk_staging cmd) sound stale =
      elim (Option-cases (chunk_plan_reject w.state cmd)) [
        | inr (r, e) ↦ unfold create_chunk_staging in rw (e, create_chunk_staging) stale.0
        | inl e ↦ unfold create_chunk_staging in rw (e, create_chunk_staging) stale.0
      ]
  others (PdEntry.commit_chunk id) sound stale = stale.0
  others (PdEntry.rebump_staging id) sound stale = stale.0
  others (PdEntry.seal_chunk id) sound stale = stale.0
  others (PdEntry.register_writer id) sound stale =
      elim (Bool-cases (Nodes.contains id w.state.nodes.rows)) [
        | inl e ↦ unfold register_writer in rw (e, register_writer) stale.0
        | inr e ↦ unfold register_writer in rw (e, register_writer) stale.0
      ]
  others (PdEntry.mark_writer_dead token) sound stale = stale.0
  others (PdEntry.job cmd) sound stale = stale.0
  others (PdEntry.commit_shard_mapping cmd) sound stale =
      elim (commit_shard_mapping-cases c w cmd) [
        | inl (r, e) ↦ subst (λ x. Pending x.0) (sym e) stale.0
        | inr (_, _, e) ↦ subst (λ x. Pending x.0) (sym e) stale.0
      ]
  others (PdEntry.create_partition cmd) sound stale =
      elim (Option-cases (peers_reject w.state.nodes.rows cmd.peers)) [
        | inr (r, e) ↦ unfold create_partition in rw (e, create_partition) stale.0
        | inl e ↦ unfold create_partition in rw (e, create_partition) stale.0
      ]
  others (PdEntry.split_partition id at) sound stale = stale.0
  others (PdEntry.migrate_partition id old new) sound stale = stale.0
  others (PdEntry.report_shard_repair id index) sound stale =
      report_shard_repair-Pending id index stale.0
  others (PdEntry.commit_shard_repair cmd) sound stale = commit_shard_repair-Pending cmd sound stale

  -- A stale ticket stays stale under every entry.
  pub apply_command-IsStale :
      (entry : PdEntry)
      → IsTyped entry
      → IsSound w.state.chunks
      → IsStale w k i t
      → IsSound (apply_command c entry w).0.state.chunks × IsStale (apply_command c entry w).0 k i t
  apply_command-IsStale entry typed sound stale = elim (apply_command-Moves c w entry typed) [
    | inl e ↦ (
      subst IsSound (sym e) sound,
      (
        others entry sound stale,
        subst (λ x. HasReached k i (t.expected_epoch + 1) x.chunks) (sym e) stale.1,
      ),
    )
    | inr (s, step, e) ↦ (
      subst IsSound (sym e) (Step-IsSound c.chunks c.plans (to_chunks w) s step sound),
      (
        others entry sound stale,
        subst (λ x. HasReached k i (t.expected_epoch + 1) x.chunks) (sym e)
            (Step-HasReached c.chunks c.plans (to_chunks w) s k i (t.expected_epoch + 1) step sound
              stale.1),
      ),
    )
  ]

-- The entries in order, each answered or failed.
abbrev pub run : Codecs → List PdEntry → Applying → Applying
run c [] w = w
run c (entry ∷ entries) w = run c entries (apply_command c entry w).0

module _ (c : Codecs) (k i : ℕ) (t : ShardRepairTicket) where
  run-IsStale :
      (entries : List PdEntry) (w : Applying)
      → All IsTyped entries
      → IsSound w.state.chunks
      → IsStale w k i t
      → IsStale (run c entries w) k i t
  run-IsStale [] w typed sound stale = stale
  run-IsStale (entry ∷ entries) w (h, typed) sound stale =
      let (sound_next, next) = apply_command-IsStale c w k i t entry h sound stale in
      run-IsStale entries (apply_command c entry w).0 typed sound_next next

  -- Once the pending ticket of a shard is behind its slot, then after any further entries no repair of
  -- the shard by a ticket is ever answered, and a report of it changes nothing.
  pub stale_for_good :
      (entries : List PdEntry) (w : Applying) (cmd : CommitShardRepair) (n : ℕ)
      → All IsTyped entries
      → IsSound w.state.chunks
      → IsStale w k i t
      → cmd.chunk_id ≡ k
      → cmd.index ≡ i
      → ((commit_shard_repair c cmd (run c entries w)).1 ≢ ok (shard_rebound n))
        × ((report_shard_repair c k i (run c entries w)).0 ≡ run c entries w)
  stale_for_good entries w cmd n typed sound stale p q =
      let last = run-IsStale entries w typed sound stale in
      (
        commit_shard_repair-stale c (run c entries w) k i t cmd n last p q,
        report_shard_repair-pending c (run c entries w) k i t last.0,
      )
