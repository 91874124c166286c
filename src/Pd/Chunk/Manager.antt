-- ===== src/Pd/Chunk/Manager.antt =====
-- crates/epoch-pd/src/chunk/manager.rs: the handlers. Each takes the pending batch and the index, and
-- gives both back with its answer, also where it fails halfway; `opened` tells whether the column
-- families that the handler opens are there.
use epoch_io.Common.{
  ℕ, ◌+◌, Bool, true, false, ◌&&◌, Option, none, some, List, [], ◌∷◌, ◌++◌, Result, ok, err, leb,
  ◌==◌,
}
use epoch_io.Common.Map.{Map, lookup, insert, remove}
use epoch_io.Pd.Records.{
  SmError, BatchOp, delete, Cf, Codec, open_cf, advance_counter, record_key, stage_put_record,
  stage_put_counter,
}
use epoch_io.Pd.Reject.{RejectReason, not_found, invalid_transition}
use epoch_io.Pd.Chunk.{
  Chunk, ChunkStatus, writable, full, sealed, migrating, broken, ShardSlot, StagingChunk, SlotPlan,
  compose_slots, compose_slot, rebump_loop, find_slot, replace_slot,
}
use epoch_io.Proto.CodeMode.{CodeMode}
use epoch_io.Proto.Id.{max_shard_epoch}

-- `BTreeMap<DiskId, BTreeSet<u64>>`; a set maps its elements to nothing.
abbrev pub Prefixes : Type 0
Prefixes = Map (Map (Unit {0}))

abbrev pub or_default : Option (Map (Unit {0})) → Map (Unit {0})
or_default none = []
or_default (some set) = set

unfoldable pub add_prefix : ℕ → ℕ → Prefixes → Prefixes
add_prefix disk prefix m = insert disk (insert prefix tt (or_default (lookup disk m))) m

abbrev drop_from : ℕ → ℕ → Option (Map (Unit {0})) → Prefixes → Prefixes
drop_from disk prefix none m = m
drop_from disk prefix (some set) m = insert disk (remove prefix set) m

unfoldable pub drop_prefix : ℕ → ℕ → Prefixes → Prefixes
drop_prefix disk prefix m = drop_from disk prefix (lookup disk m) m

unfoldable pub index_shards : List ShardSlot → Prefixes → Prefixes
index_shards [] m = m
index_shards (s ∷ ss) m = index_shards ss (add_prefix s.disk_id s.shard_prefix m)

pub record ChunkIndex : Type 0 where
  pub chunks : Map Chunk
  pub staging : Map StagingChunk
  pub next_id : ℕ
  pub disk_shards : Prefixes

pub record Staged : Type 0 where
  pub batch : List BatchOp
  pub index : ChunkIndex

abbrev pub Answer : Type 0
Answer = Staged × Result SmError (Option RejectReason)

module _ (chunks : Codec Chunk) (plans : Codec StagingChunk) (opened : Bool) where
  unfoldable pub apply_create_staging :
      CodeMode → List SlotPlan → ℕ → ℕ → Staged → Staged × Result SmError ℕ
  apply_create_staging mode slots create_ts epoch s = elim (open_cf opened) [
    | err e ↦ (s, err e)
    | ok _ ↦ elim (advance_counter s.index.next_id) [
      | err e ↦ (s, err e)
      | ok next_id ↦ elim (compose_slots s.index.next_id slots epoch create_ts) [
        | err e ↦ (s, err e)
        | ok shards ↦
            let plan : StagingChunk = record {
              chunk_id = s.index.next_id;
              code_mode = mode;
              shards = shards;
            } in
            elim (stage_put_record plans s.batch Cf.chunk_staging s.index.next_id plan) [
              | err e ↦ (s, err e)
              | ok batch ↦ (
                record {
                  batch = stage_put_counter batch Cf.chunk next_id;
                  index = record s.index {
                    next_id = next_id;
                    staging = insert s.index.next_id plan s.index.staging;
                  };
                },
                ok s.index.next_id,
              )
            ]
      ]
    ]
  ]

  unfoldable pub apply_commit : ℕ → Staged → Answer
  apply_commit id s = elim (open_cf opened) [
    | err e ↦ (s, err e)
    | ok _ ↦ elim (lookup id s.index.staging) [
      | none ↦ (s, ok (some not_found))
      | some plan ↦
          let chunk : Chunk = record {
            chunk_id = plan.chunk_id;
            code_mode = plan.code_mode;
            status = writable;
            shards = plan.shards;
          } in
          elim (stage_put_record chunks s.batch Cf.chunk plan.chunk_id chunk) [
            | err e ↦ (s, err e)
            | ok batch ↦ (
              record {
                batch = batch ++ (delete Cf.chunk_staging (record_key id) ∷ []);
                index = record s.index {
                  staging = remove id s.index.staging;
                  disk_shards = index_shards plan.shards s.index.disk_shards;
                  chunks = insert plan.chunk_id chunk s.index.chunks;
                };
              },
              ok none,
            )
          ]
    ]
  ]

  unfoldable pub apply_rebump : ℕ → Staged → Answer
  apply_rebump id s = elim (open_cf opened) [
    | err e ↦ (s, err e)
    | ok _ ↦ elim (lookup id s.index.staging) [
      | none ↦ (s, ok (some not_found))
      | some plan ↦ elim (rebump_loop id plan.shards) [
        | err e ↦ (s, err e)
        | ok shards ↦
            let rebumped : StagingChunk = record plan { shards = shards } in
            elim (stage_put_record plans s.batch Cf.chunk_staging id rebumped) [
              | err e ↦ (s, err e)
              | ok batch ↦ (
                record {
                  batch = batch;
                  index = record s.index { staging = insert id rebumped s.index.staging };
                },
                ok none,
              )
            ]
      ]
    ]
  ]

  -- The status is changed in place before the record is staged.
  unfoldable pub seal : ℕ → Chunk → Staged → Answer
  seal id chunk s =
      let chunk' : Chunk = record chunk { status = sealed } in
      let index : ChunkIndex = record s.index { chunks = insert id chunk' s.index.chunks } in
      elim (stage_put_record chunks s.batch Cf.chunk chunk.chunk_id chunk') [
        | err e ↦ (record { batch = s.batch; index = index }, err e)
        | ok batch ↦ (record { batch = batch; index = index }, ok none)
      ]

  abbrev pub seal_by_status : ChunkStatus → ℕ → Chunk → Staged → Answer
  seal_by_status sealed id chunk s = (s, ok none)
  seal_by_status writable id chunk s = seal id chunk s
  seal_by_status full id chunk s = seal id chunk s
  seal_by_status migrating id chunk s = (s, ok (some invalid_transition))
  seal_by_status broken id chunk s = (s, ok (some invalid_transition))

  unfoldable pub apply_seal_chunk : ℕ → Staged → Answer
  unfolding seal
  apply_seal_chunk id s = elim (open_cf opened) [
    | err e ↦ (s, err e)
    | ok _ ↦ elim (lookup id s.index.chunks) [
      | none ↦ (s, ok (some not_found))
      | some chunk ↦ seal_by_status chunk.status id chunk s
    ]
  ]

  -- From the staleness guard on; the secondary index moves before the record is staged.
  unfoldable pub rebind : ℕ → ℕ → ℕ → ℕ → ℕ → Chunk → ShardSlot → Staged → Answer
  rebind id slot expected_epoch new_disk new_create_ts chunk old s =
      elim (old.epoch == expected_epoch && leb (old.epoch + 1) max_shard_epoch) [
        | false ↦ (s, ok (some invalid_transition))
        | true ↦ elim (compose_slot id slot (old.epoch + 1) new_disk new_create_ts) [
          | err e ↦ (s, err e)
          | ok rebuilt ↦
              let updated : Chunk = record chunk {
                shards = replace_slot slot rebuilt chunk.shards;
              } in
              let moved : Prefixes =
                add_prefix new_disk rebuilt.shard_prefix
                  (drop_prefix old.disk_id old.shard_prefix s.index.disk_shards) in
              elim (stage_put_record chunks s.batch Cf.chunk chunk.chunk_id updated) [
                | err e ↦ (record s { index = record s.index { disk_shards = moved } }, err e)
                | ok batch ↦ (
                  record {
                    batch = batch;
                    index = record s.index {
                      disk_shards = moved;
                      chunks = insert chunk.chunk_id updated s.index.chunks;
                    };
                  },
                  ok none,
                )
              ]
        ]
      ]

  unfoldable pub apply_rebind : ℕ → ℕ → ℕ → ℕ → ℕ → Staged → Answer
  unfolding rebind
  apply_rebind id slot expected_epoch new_disk new_create_ts s = elim (open_cf opened) [
    | err e ↦ (s, err e)
    | ok _ ↦ elim (lookup id s.index.chunks) [
      | none ↦ (s, ok (some not_found))
      | some chunk ↦ elim (find_slot slot chunk.shards) [
        | none ↦ (s, ok (some not_found))
        | some old ↦ rebind id slot expected_epoch new_disk new_create_ts chunk old s
      ]
    ]
  ]
