-- ===== src/Pd/State/StaleTickets.antt =====
-- The tickets of crates/epoch-pd/src/shard_repair.rs whose shard was rebound by a job in the meantime:
-- `apply_command` of crates/epoch-pd/src/state.rs leaves them, and a new report does not replace them.
use epoch_io.Common.{
  ℕ, ◌+◌, ◌*◌, ◌^◌, ◌<◌, ◌≡◌, ◌≢◌, refl, sym, ap, subst, ◌∙◌, arith, true, some, List, [], ◌∷◌, ok,
  inl, inr, Option-cases, Bool-cases, ◌==◌,
}
use epoch_io.Common.Bits.{bit_or_disjoint}
use epoch_io.Common.Map.{lookup}
use epoch_io.Pd.Chunk.{ShardSlot, find_slot, slot_index}
use epoch_io.Pd.Chunk.Epochs.{HasReached}
use epoch_io.Pd.ShardRepair as Repairs
use epoch_io.Pd.ShardRepair.{ShardRepairTicket, shard_prefix, ticket_from_slot}
use epoch_io.Pd.State.Entries.{CommitShardRepair, shard_rebound}
use epoch_io.Pd.State.{
  Codecs, Applying, to_repairs, from_repairs, reported, report_shard_repair, commit_shard_repair,
}
use epoch_io.Pd.State.Authority.{IsTarget, IsRebind, commit_shard_repair-IsRebind}
use epoch_io.Proto.Id.{shl64}

shard_prefix-packed :
    (chunk i : ℕ) → chunk < 2 ^ 32 → i < 2 ^ 8 → shard_prefix chunk i ≡ chunk * 2 ^ 32 + i * 2 ^ 24
unfolding shard_prefix
shard_prefix-packed chunk i hc hi =
    let p : shl64 chunk 32 ≡ chunk * 2 ^ 32 = omega arith in
    let q : shl64 i 24 ≡ i * 2 ^ 24 = omega arith in
    rw (p, q) (bit_or_disjoint 32 chunk (i * 2 ^ 24) (omega arith))

-- Shards of chunks below `2 ^ 32` have prefixes of their own.
pub shard_prefix-injective :
    (chunk i other j : ℕ)
    → chunk < 2 ^ 32
    → i < 2 ^ 8
    → other < 2 ^ 32
    → j < 2 ^ 8
    → shard_prefix chunk i ≡ shard_prefix other j
    → (chunk ≡ other) × (i ≡ j)
shard_prefix-injective chunk i other j hc hi ho hj h =
    let p = shard_prefix-packed chunk i hc hi in
    let q = shard_prefix-packed other j ho hj in (omega (arith, h, p, q), omega (arith, h, p, q))

-- The ticket `t` for shard `i` of chunk `k` is pending, and the slot is past its epoch.
abbrev pub IsStale : Applying → ℕ → ℕ → ShardRepairTicket → Type 0
IsStale w k i t =
    (lookup (shard_prefix k i) w.state.shard_repairs ≡ some t)
    × HasReached k i (t.expected_epoch + 1) w.state.chunks.chunks

find_slot-slot_index :
    (j : ℕ) (ss : List ShardSlot) (s : ShardSlot) → find_slot j ss ≡ some s → slot_index s ≡ j
unfolding find_slot
find_slot-slot_index j [] s h = cc
find_slot-slot_index j (u ∷ ss) s h = elim (Bool-cases (slot_index u == j)) [
  | inl e ↦ let same : u ≡ s = cc (rw e at h) in subst (λ x. slot_index x ≡ j) same (ground arith)
  | inr e ↦ find_slot-slot_index j ss s (rw e at h)
]

module _ (c : Codecs) (w : Applying) (k i : ℕ) (t : ShardRepairTicket) where
  already :
      (u : ShardRepairTicket)
      → Repairs.prefix_of u ≡ shard_prefix k i
      → lookup (shard_prefix k i) w.state.shard_repairs ≡ some t
      → Repairs.apply_report c.tickets true u (to_repairs w)
        ≡ (to_repairs w, ok Repairs.already_present)
  already u own h =
      let found : lookup (Repairs.prefix_of u) w.state.shard_repairs ≡ some t =
        ap (λ n. lookup n w.state.shard_repairs) own ∙ h in
      unfold Repairs.apply_report in rw (found, Repairs.apply_report) refl

  -- A new report of a shard with a pending ticket changes nothing.
  pub report_shard_repair-pending :
      lookup (shard_prefix k i) w.state.shard_repairs ≡ some t → (report_shard_repair c k i w).0 ≡ w
  report_shard_repair-pending h = elim (Option-cases (lookup k w.state.chunks.chunks)) [
    | inl e ↦ unfold report_shard_repair in rw (e, report_shard_repair) refl
    | inr (chunk, e) ↦ elim (Option-cases (find_slot i chunk.shards)) [
      | inl f ↦
          unfold report_shard_repair in
          rw (e, report_shard_repair) (rw (f, report_shard_repair) refl)
      | inr (slot, f) ↦ elim (Option-cases (lookup slot.disk_id w.state.disks.rows)) [
        | inl g ↦
            unfold report_shard_repair in
            rw (e, report_shard_repair)
              (rw (f, report_shard_repair) (rw (g, report_shard_repair) refl))
        | inr (disk, g) ↦
            let own : Repairs.prefix_of (ticket_from_slot k slot disk.node_id) ≡ shard_prefix k i =
              unfold ticket_from_slot in
              ap (shard_prefix k) (find_slot-slot_index i chunk.shards slot f) in
            (unfold report_shard_repair in
              rw (e, report_shard_repair)
                (rw (f, report_shard_repair)
                  (rw (g, report_shard_repair)
                    (ap (λ r. (from_repairs w reported r).0)
                      (already (ticket_from_slot k slot disk.node_id) own h)))))
      ]
    ]
  ]

  pub behind :
      (chunk_id index committer expected new_disk : ℕ)
      → IsStale w k i t
      → chunk_id ≡ k
      → index ≡ i
      → IsTarget c w chunk_id index committer expected
      → IsRebind c w chunk_id index expected new_disk
      → ⊥
  behind chunk_id index committer expected disk (pending, (d, s, found, at, le)) p q
        (u, held, _, epoch) r =
      let same_ticket : t ≡ u = cc (
        ap (λ x. lookup x w.state.shard_repairs)
            (ap (λ x. shard_prefix x index) p ∙ ap (shard_prefix k) q),
        held,
        pending,
      ) in
      let same_chunk : r.chunk ≡ d =
        cc (ap (λ x. lookup x w.state.chunks.chunks) p, r.known, found) in
      let same_slot : r.slot ≡ s = cc (
        ap (λ x. find_slot index x.shards) same_chunk,
        ap (λ x. find_slot x d.shards) q,
        r.placed,
        at,
      ) in
      let late : t.expected_epoch ≡ s.epoch =
        ap (λ x. x.expected_epoch) same_ticket
        ∙ epoch
        ∙ sym r.current
        ∙ ap (λ x. x.epoch) same_slot in
      omega (arith, late, le)

  -- No repair of a shard is answered while its pending ticket is behind the slot.
  pub commit_shard_repair-stale :
      (cmd : CommitShardRepair) (n : ℕ)
      → IsStale w k i t
      → cmd.chunk_id ≡ k
      → cmd.index ≡ i
      → (commit_shard_repair c cmd w).1 ≢ ok (shard_rebound n)
  commit_shard_repair-stale cmd n stale p q h =
      let (target, rebind, _, _) = commit_shard_repair-IsRebind c w cmd n h in
      behind cmd.chunk_id cmd.index cmd.committer cmd.expected_epoch cmd.new_disk stale p q target
        rebind
