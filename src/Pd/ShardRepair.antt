-- ===== src/Pd/ShardRepair.antt =====
-- crates/epoch-pd/src/shard_repair.rs: the tickets of single-shard repairs, keyed by the shard's
-- prefix. A handler takes the pending batch and the tickets, and gives both back with its answer.
use epoch_io.Common.{
  ℕ, Bool, Option, none, some, List, [], ◌∷◌, ◌++◌, retain, Result, ok, err, ok_or, ◌>>=◌,
  if◌then◌else◌, ◌==◌, not,
}
use epoch_io.Common.Bytes.{to_be_bytes}
use epoch_io.Common.Map.{Map, lookup, insert, remove, values}
use epoch_io.Pd.Records.{
  SmError, read_failed, write_failed, BatchOp, put, delete, Entries, Cf, Codec, open_cf,
  stage_clear,
}
use epoch_io.Pd.Chunk.{ShardSlot, slot_index}
use epoch_io.Proto.Id.{shard_epoch_bits, shl64}
use Prim.Native.Nat.{bit_or}

pub record ShardRepairTicket : Type 0 where
  pub chunk_id : ℕ
  pub index : ℕ
  pub target_node : ℕ
  pub expected_epoch : ℕ

unfoldable pub shard_prefix : ℕ → ℕ → ℕ
shard_prefix chunk_id index = bit_or (shl64 chunk_id 32) (shl64 index shard_epoch_bits)

abbrev pub prefix_of : ShardRepairTicket → ℕ
prefix_of t = shard_prefix t.chunk_id t.index

pub data ShardRepairRejection : Type 0 where
  no_ticket not_target epoch_mismatch : ShardRepairRejection

unfoldable pub authorize_commit :
    Option ShardRepairTicket → ℕ → ℕ → Result ShardRepairRejection (Unit {0})
authorize_commit none committer commit_epoch = err no_ticket
authorize_commit (some t) committer commit_epoch =
    if not (t.target_node == committer)
    then err not_target
    else if not (t.expected_epoch == commit_epoch)
    then err epoch_mismatch
    else ok tt

pub data ReportOutcome : Type 0 where
  created already_present : ReportOutcome

abbrev pub Tickets : Type 0
Tickets = Map ShardRepairTicket

abbrev pub Registry : Type 0
Registry = List BatchOp × Tickets

unfoldable pub ticket_from_slot : ℕ → ShardSlot → ℕ → ShardRepairTicket
ticket_from_slot chunk_id slot target_node = record {
  chunk_id = chunk_id;
  index = slot_index slot;
  target_node = target_node;
  expected_epoch = slot.epoch;
}

module _ (codec : Codec ShardRepairTicket) (opened : Bool) where
  -- The loop of `restore`.
  unfoldable pub load_tickets : Entries → Tickets → Result SmError Tickets
  load_tickets [] m = ok m
  load_tickets ((key, value) ∷ es) m =
      ok_or (codec.from_slice value) read_failed >>= λ t. load_tickets es (insert (prefix_of t) t m)

  -- A state whose restore fails is not opened, so what the index held by then is left out.
  unfoldable pub restore : Entries → Result SmError Tickets
  unfolding load_tickets
  restore es = open_cf opened >>= λ _. load_tickets es []

  unfoldable pub apply_report :
      ShardRepairTicket → Registry → Registry × Result SmError ReportOutcome
  apply_report ticket (batch, tickets) = elim (lookup (prefix_of ticket) tickets) [
    | some pending ↦ ((batch, tickets), ok already_present)
    | none ↦ elim (open_cf opened) [
      | err e ↦ ((batch, tickets), err e)
      | ok _ ↦ elim (codec.to_vec ticket) [
        | none ↦ ((batch, tickets), err write_failed)
        | some bytes ↦ (
          (
            batch ++ (put Cf.shard_repair (to_be_bytes 8 (prefix_of ticket)) bytes ∷ []),
            insert (prefix_of ticket) ticket tickets,
          ),
          ok created,
        )
      ]
    ]
  ]

  unfoldable pub apply_clear : ℕ → Registry → Registry × Result SmError (Unit {0})
  apply_clear prefix (batch, tickets) = elim (open_cf opened) [
    | err e ↦ ((batch, tickets), err e)
    | ok _ ↦ (
      (batch ++ (delete Cf.shard_repair (to_be_bytes 8 prefix) ∷ []), remove prefix tickets),
      ok tt,
    )
  ]

  -- The loop of `stage_and_apply_snapshot`: the index is emptied first.
  unfoldable pub stage_tickets :
      List ShardRepairTicket → Registry → Registry × Result SmError (Unit {0})
  stage_tickets [] r = (r, ok tt)
  stage_tickets (t ∷ ts) (batch, tickets) = elim (codec.to_vec t) [
    | none ↦ ((batch, tickets), err write_failed)
    | some bytes ↦ stage_tickets ts (
      batch ++ (put Cf.shard_repair (to_be_bytes 8 (prefix_of t)) bytes ∷ []),
      insert (prefix_of t) t tickets,
    )
  ]

  unfoldable pub stage_and_apply_snapshot :
      Entries → List ShardRepairTicket → Registry → Registry × Result SmError (Unit {0})
  unfolding stage_tickets
  stage_and_apply_snapshot es ts (batch, tickets) = elim (open_cf opened) [
    | err e ↦ ((batch, tickets), err e)
    | ok _ ↦ stage_tickets ts (stage_clear batch Cf.shard_repair es, [])
  ]

-- The read paths.
unfoldable pub tickets_for_node : ℕ → Tickets → List ShardRepairTicket
tickets_for_node node m = retain (λ t. t.target_node == node) (values m)

unfoldable pub snapshot_view : Tickets → List ShardRepairTicket
snapshot_view m = values m
