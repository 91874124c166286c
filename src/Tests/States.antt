-- ===== src/Tests/States.antt =====
-- The placement driver's state at concrete inputs: a chunk on two disks, a third disk, a running job and
-- a pending ticket.
use epoch_io.Common.{ℕ, ◌+◌, ◌≡◌, ◌≢◌, refl, sym, ap, arith, Option, none, some, List, [], ◌∷◌, ok}
use epoch_io.Common.Map.{lookup, insert, remove}
use epoch_io.Pd.Records.{Bytes, open_cf, advance_counter, stage_put_record, stage_put_counter}
use epoch_io.Pd.Reject.{not_found}
use epoch_io.Pd.Disk.{Disk, DiskStatus}
use epoch_io.Pd.Chunk.{
  insert_slot, sort_slots, compose_slot, compose_loop, compose_slots, shard_id, slot_index,
  find_slot, replace_slot,
}
use epoch_io.Pd.Chunk.Manager.{
  add_prefix, drop_prefix, index_shards, apply_create_staging, apply_commit, rebind, apply_rebind,
}
use epoch_io.Pd.Chunk.Placement.{rebind_preserves_affinity}
use epoch_io.Pd.Job.{Job, JobKind, JobState, is_coordinator}
use epoch_io.Pd.Job.Commit as JobCommit
use epoch_io.Pd.ShardRepair as Repairs
use epoch_io.Pd.ShardRepair.{ShardRepairTicket, shard_prefix}
use epoch_io.Pd.State.Entries.{
  PdEntry, CommitShardMapping, CommitShardRepair, shard_rebound, rejected,
}
use epoch_io.Pd.State.{
  Codecs, Applying, other_domains, rebind_affinity_reject, commit_shard_mapping,
  report_shard_repair, commit_shard_repair, apply_command,
}
use epoch_io.Pd.State.Authority.{
  IsRebind, IsCoordinator, IsTarget, commit_shard_mapping-IsRebind, commit_shard_repair-IsRebind,
}
use epoch_io.Pd.State.Unchanged.{apply_command-Keeps}
use epoch_io.Pd.State.TicketsLast.{run}
use epoch_io.Pd.State.Outlived.{outlived_ticket}
use epoch_io.Proto.Id as PackedId
use epoch_io.Tests.ChunkCodec.{
  chunk_codec, plan_codec, write_chunk, write_plan, status_tag, write_slots, some_or,
}
use epoch_io.Tests.Chunks.{one_chunk, one_chunk-IsSound}
use epoch_io.Tests.Jobs.{job_codec}
use epoch_io.Tests.Tokens.{writer_codec}
use epoch_io.Tests.Nodes.{node_codec, no_nodes}
use epoch_io.Tests.Disks.{disk_codec}
use epoch_io.Tests.Routes.{partition_codec, no_partitions}

unfoldable write_ticket : ShardRepairTicket → Option Bytes
write_ticket t = some (t.chunk_id ∷ t.index ∷ t.target_node ∷ t.expected_epoch ∷ [])

unfoldable read_ticket : Bytes → Option ShardRepairTicket
read_ticket (c ∷ i ∷ n ∷ e ∷ rest) =
    some (record { chunk_id = c; index = i; target_node = n; expected_epoch = e })
read_ticket other = none

ticket_back :
    (t : ShardRepairTicket) (bytes : Bytes)
    → write_ticket t ≡ some bytes
    → read_ticket bytes ≡ some t
unfolding write_ticket read_ticket some_or
ticket_back t bytes e = ap (some_or read_ticket) (sym e)

abbrev codecs : Codecs
codecs = record {
  nodes = node_codec;
  disks = disk_codec;
  chunks = chunk_codec;
  plans = plan_codec;
  writers = writer_codec;
  jobs = job_codec;
  tickets = record { to_vec = write_ticket; from_slice = read_ticket; read_back = ticket_back };
  partitions = partition_codec;
}

abbrev disk_at : ℕ → ℕ → Disk
disk_at id node = record {
  disk_id = id;
  node_id = node;
  az = [];
  rack = id ∷ [];
  path = 47 ∷ [];
  total = 900;
  status = DiskStatus.normal;
}

abbrev repair_job : Job
repair_job = record {
  id = 1;
  kind = JobKind.repair_disk 7;
  state = JobState.running;
  coordinator = some 5;
  lease_expiry_millis = 500;
  progress_watermark = 0;
}

-- Shard 0 is to be rebuilt by node 1.
abbrev ticket : ShardRepairTicket
ticket = record { chunk_id = 1; index = 0; target_node = 1; expected_epoch = 0 }

abbrev at_work : Applying
at_work = record {
  batch = [];
  state = record {
    nodes = no_nodes;
    disks = record {
      rows = (7, disk_at 7 1) ∷ (8, disk_at 8 2) ∷ (9, disk_at 9 3) ∷ [];
      next_id = 10;
    };
    chunks = one_chunk.index;
    writers = record { rows = []; next_id = 1 };
    jobs = record { rows = (1, repair_job) ∷ []; next_id = 2 };
    shard_repairs = (shard_prefix 1 0, ticket) ∷ [];
    partitions = no_partitions.index;
  };
}

abbrev by_job : CommitShardMapping
by_job = record {
  job_id = 1;
  chunk_id = 1;
  index = 0;
  expected_epoch = 0;
  new_disk = 9;
  new_create_ts = 700;
  committer = 5;
}

abbrev by_ticket : CommitShardRepair
by_ticket = record {
  chunk_id = 1;
  index = 0;
  expected_epoch = 0;
  new_disk = 9;
  new_create_ts = 700;
  committer = 1;
}

mapped : (commit_shard_mapping codecs by_job at_work).1 ≡ ok (shard_rebound 1)
unfolding commit_shard_mapping JobCommit.authorize_commit rebind_affinity_reject other_domains
    rebind_preserves_affinity apply_rebind rebind apply_commit apply_create_staging open_cf
    advance_counter compose_slots sort_slots insert_slot compose_loop compose_slot PackedId.try_new
    PackedId.shard_prefix PackedId.extent_id PackedId.index stage_put_record stage_put_counter
    lookup insert remove index_shards add_prefix drop_prefix find_slot slot_index shard_id
    replace_slot write_chunk write_plan status_tag write_slots is_coordinator
mapped = refl

repaired : (commit_shard_repair codecs by_ticket at_work).1 ≡ ok (shard_rebound 1)
unfolding commit_shard_repair Repairs.authorize_commit rebind_affinity_reject other_domains
    rebind_preserves_affinity apply_rebind rebind apply_commit apply_create_staging open_cf
    advance_counter compose_slots sort_slots insert_slot compose_loop compose_slot PackedId.try_new
    PackedId.shard_prefix PackedId.extent_id PackedId.index stage_put_record stage_put_counter
    lookup insert remove index_shards add_prefix drop_prefix find_slot slot_index shard_id
    replace_slot write_chunk write_plan status_tag write_slots Repairs.apply_clear shard_prefix
repaired = refl

commit_shard_mapping-IsRebind_example :
    IsCoordinator codecs at_work 1 5 × IsRebind codecs at_work 1 0 0 9 × (1 ≡ 0 + 1)
commit_shard_mapping-IsRebind_example = commit_shard_mapping-IsRebind codecs at_work by_job 1 mapped

commit_shard_repair-IsRebind_example :
    IsTarget codecs at_work 1 0 1 0
    × IsRebind codecs at_work 1 0 0 9
    × (1 ≡ 0 + 1)
    × (lookup
          (shard_prefix 1 0)
          (commit_shard_repair codecs by_ticket at_work).0.state.shard_repairs
        ≡ none)
commit_shard_repair-IsRebind_example =
    commit_shard_repair-IsRebind codecs at_work by_ticket 1 repaired

pending : lookup (shard_prefix 1 0) at_work.state.shard_repairs ≡ some ticket
unfolding lookup shard_prefix
pending = refl

-- Node 2 is not the target.
abbrev by_another : CommitShardRepair
by_another = record by_ticket { committer = 2 }

turned_away :
    (apply_command codecs (PdEntry.commit_shard_repair by_another) at_work).1
    ≡ ok (rejected not_found)
unfolding apply_command commit_shard_repair Repairs.authorize_commit lookup shard_prefix
turned_away = refl

apply_command-Keeps_example :
    (apply_command codecs (PdEntry.commit_shard_repair by_another) at_work).0 ≡ at_work
apply_command-Keeps_example =
    apply_command-Keeps codecs (PdEntry.commit_shard_repair by_another) at_work not_found
      turned_away

abbrev later : List PdEntry
later = PdEntry.seal_chunk 1 ∷ PdEntry.report_shard_repair 1 0 ∷ PdEntry.noop ∷ []

outlived_ticket_example :
    ((commit_shard_repair codecs by_ticket
        (run codecs later (commit_shard_mapping codecs by_job at_work).0)).1
      ≢ ok (shard_rebound 1))
    × ((report_shard_repair codecs 1 0
          (run codecs later (commit_shard_mapping codecs by_job at_work).0)).0
        ≡ run codecs later (commit_shard_mapping codecs by_job at_work).0)
outlived_ticket_example =
    outlived_ticket codecs at_work by_job ticket 1 later by_ticket 1 (tt, (tt, (tt, tt)))
      one_chunk-IsSound (omega arith) pending (omega arith) mapped (refl, refl)
