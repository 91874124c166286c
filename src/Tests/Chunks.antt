-- ===== src/Tests/Chunks.antt =====
-- The chunk manager at work: a chunk of two shards planned, committed and rebound.
use epoch_io.Common.{ℕ, ◌+◌, ◌*◌, ◌^◌, ◌≡◌, refl, arith, true, none, List, [], ◌∷◌, ◌++◌, ok}
use epoch_io.Common.Map.{lookup, insert, remove, Ascending}
use epoch_io.Pd.Records.{advance_counter, open_cf, stage_put_record, stage_put_counter}
use epoch_io.Pd.Chunk.{
  Chunk, ShardSlot, SlotPlan, validate_loop, validate_slots, insert_slot, sort_slots, compose_slot,
  compose_loop, compose_slots, shard_id, slot_index, find_slot, replace_slot,
}
use epoch_io.Pd.Chunk.Manager.{
  Staged, add_prefix, index_shards, apply_create_staging, apply_commit, rebind, apply_rebind,
}
use epoch_io.Pd.Chunk.Reads.{list_chunks}
use epoch_io.Pd.Chunk.Shape.{IsSound, Step, create, commit, Step-IsSound}
use epoch_io.Pd.Chunk.Paging.{last_id, list_chunks-append}
use epoch_io.Pd.Chunk.Runs.{
  IsConsistent, empty, run_create, run_commit, run_rebind, Run-IsConsistent,
}
use epoch_io.Proto.CodeMode.{CodeMode, shards_total}
use epoch_io.Proto.Id as PackedId
use epoch_io.Tests.ChunkCodec.{
  chunk_codec, plan_codec, write_chunk, write_plan, status_tag, write_slots,
}

abbrev mirrored : CodeMode
mirrored = record { id = 1; data_shards = 1; parity = 1; stripe_size = 64; blob_size = 128 }

-- Out of order on purpose.
abbrev two_slots : List SlotPlan
two_slots = record { index = 1; disk_id = 8 } ∷ record { index = 0; disk_id = 7 } ∷ []

abbrev no_chunks : Staged
no_chunks = record {
  batch = [];
  index = record { chunks = []; staging = []; next_id = 1; disk_shards = [] };
}

no_chunks-IsSound : IsSound no_chunks.index
unfolding lookup
no_chunks-IsSound = record { in_range = omega arith; chunks = λ k c e. cc; staging = λ k p e. cc }

two_slots-valid : validate_slots mirrored two_slots ≡ none
unfolding validate_slots validate_loop shards_total
two_slots-valid = refl

abbrev pub one_planned : Staged
one_planned =
    (apply_create_staging chunk_codec plan_codec true mirrored two_slots 500 0 no_chunks).0

planned_step : Step chunk_codec plan_codec no_chunks one_planned
planned_step =
    create true mirrored two_slots 500 0 no_chunks (omega arith) (omega arith, (omega arith, tt))
      two_slots-valid

one_planned-IsSound : IsSound one_planned.index
one_planned-IsSound =
    Step-IsSound chunk_codec plan_codec no_chunks one_planned planned_step no_chunks-IsSound

abbrev pub one_chunk : Staged
one_chunk = (apply_commit chunk_codec plan_codec true 1 one_planned).0

Step-IsSound_example : IsSound one_chunk.index
Step-IsSound_example =
    Step-IsSound chunk_codec plan_codec one_planned one_chunk (commit true 1 one_planned)
      one_planned-IsSound

pub one_chunk-IsSound : IsSound one_chunk.index
one_chunk-IsSound =
    Step-IsSound chunk_codec plan_codec one_planned one_chunk (commit true 1 one_planned)
      one_planned-IsSound

one_chunk-Ascending : Ascending 0 one_chunk.index.chunks
unfolding apply_commit apply_create_staging open_cf advance_counter compose_slots sort_slots
    insert_slot compose_loop compose_slot PackedId.try_new PackedId.shard_prefix PackedId.extent_id
    stage_put_record stage_put_counter lookup insert remove index_shards add_prefix write_chunk
    write_plan status_tag write_slots
one_chunk-Ascending = (omega arith, tt)

rebound : (apply_rebind chunk_codec plan_codec true 1 0 0 9 700 one_chunk).1 ≡ ok none
unfolding apply_rebind rebind apply_commit apply_create_staging open_cf advance_counter
    compose_slots sort_slots insert_slot compose_loop compose_slot PackedId.try_new
    PackedId.shard_prefix PackedId.extent_id PackedId.index stage_put_record stage_put_counter
    lookup insert remove index_shards add_prefix find_slot slot_index shard_id replace_slot
    write_chunk write_plan status_tag write_slots
rebound = refl

abbrev slot_of : ℕ → ℕ → ShardSlot
slot_of i disk = record {
  shard_prefix = 2 ^ 32 + i * 2 ^ 24;
  epoch = 0;
  disk_id = disk;
  extent_id = PackedId.extent_id (2 ^ 32 + i * 2 ^ 24) 500;
}

composed : compose_slots 1 two_slots 0 500 ≡ ok (slot_of 0 7 ∷ slot_of 1 8 ∷ [])
unfolding compose_slots sort_slots insert_slot compose_loop compose_slot PackedId.try_new
    PackedId.shard_prefix
composed = refl

Run-IsConsistent_example :
    IsConsistent (apply_rebind chunk_codec plan_codec true 1 0 0 9 700 one_chunk).0.index
Run-IsConsistent_example =
    Run-IsConsistent chunk_codec plan_codec
      (apply_rebind chunk_codec plan_codec true 1 0 0 9 700 one_chunk).0
      (run_rebind true 1 0 0 9 700 one_chunk (omega arith) none rebound (
        run_commit true 1 one_planned (
          run_create true mirrored two_slots 500 0 no_chunks (omega arith)
            (omega arith, (omega arith, tt)) two_slots-valid empty)))

list_chunks-append_example :
    list_chunks one_chunk.index 0 (1 + 2)
    ≡ list_chunks one_chunk.index 0 1
      ++ list_chunks one_chunk.index (last_id 0 (list_chunks one_chunk.index 0 1)) 2
list_chunks-append_example =
    list_chunks-append one_chunk.index 0 1 2 one_chunk-Ascending one_chunk-IsSound
