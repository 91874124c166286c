-- ===== src/Pd/Chunk/Effects.antt =====
-- What the handlers of crates/epoch-pd/src/chunk/manager.rs leave in the index, on every branch.
use epoch_io.Common.{
  ℕ, ◌+◌, ◌^◌, ◌<◌, ◌≡◌, refl, Bool, true, false, some, List, ok, Option-cases, Result-cases, inl,
  inr, ◌⊎◌,
}
use epoch_io.Common.Map.{lookup, insert, remove}
use epoch_io.Pd.Records.{Codec, Cf, open_cf}
use epoch_io.Pd.Records.View.{stage_put_record-cases, advance_counter-cases}
use epoch_io.Pd.Chunk.{
  Chunk, ChunkStatus, ShardSlot, StagingChunk, SlotPlan, compose_slots, rebump_loop,
}
use epoch_io.Pd.Chunk.Manager.{
  Staged, index_shards, apply_create_staging, apply_commit, apply_rebump,
}
use epoch_io.Proto.CodeMode.{CodeMode}

-- The plan a creation stages, and the chunk a commit makes of one.
abbrev pub planned : ℕ → CodeMode → List ShardSlot → StagingChunk
planned id mode shards = record { chunk_id = id; code_mode = mode; shards = shards }

abbrev pub committed : StagingChunk → Chunk
committed plan = record {
  chunk_id = plan.chunk_id;
  code_mode = plan.code_mode;
  status = ChunkStatus.writable;
  shards = plan.shards;
}

module _ (chunks : Codec Chunk) (plans : Codec StagingChunk) (s : Staged) where
  pub create-effect :
      (opened : Bool) (mode : CodeMode) (slots : List SlotPlan) (ts epoch : ℕ)
      → ((apply_create_staging chunks plans opened mode slots ts epoch s).0 ≡ s)
        ⊎ ((shards : List ShardSlot) × (s.index.next_id + 1 < 2 ^ 32)
            × (compose_slots s.index.next_id slots epoch ts ≡ ok shards)
            × ((apply_create_staging chunks plans opened mode slots ts epoch s).0.index
                ≡ record s.index {
                  next_id = s.index.next_id + 1;
                  staging =
                      insert s.index.next_id (planned s.index.next_id mode shards) s.index.staging;
                }))
  create-effect false mode slots ts epoch = inl (unfold apply_create_staging open_cf in refl)
  create-effect true mode slots ts epoch = elim (advance_counter-cases s.index.next_id) [
    | inr (_, a) ↦ inl (unfold apply_create_staging open_cf in rw (a, apply_create_staging) refl)
    | inl (h, a) ↦ elim (Result-cases (compose_slots s.index.next_id slots epoch ts)) [
      | inl (x, c) ↦ inl (
          unfold apply_create_staging open_cf in
          rw (a, apply_create_staging) (rw (c, apply_create_staging) refl))
      | inr (shards, c) ↦
          elim (stage_put_record-cases plans s.batch Cf.chunk_staging s.index.next_id
            (planned s.index.next_id mode shards)) [
              | inl (_, p) ↦ inl (
                  unfold apply_create_staging open_cf in
                  rw (a, apply_create_staging)
                    (rw (c, apply_create_staging) (rw (p, apply_create_staging) refl)))
              | inr (bytes, _, p) ↦ inr (
                shards,
                h,
                c,
                unfold apply_create_staging open_cf in
                    rw (a, apply_create_staging)
                      (rw (c, apply_create_staging) (rw (p, apply_create_staging) refl)),
              )
            ]
    ]
  ]

  pub commit-effect :
      (opened : Bool) (id : ℕ)
      → ((apply_commit chunks plans opened id s).0 ≡ s)
        ⊎ ((plan : StagingChunk) × (lookup id s.index.staging ≡ some plan)
            × ((apply_commit chunks plans opened id s).0.index ≡ record s.index {
              staging = remove id s.index.staging;
              disk_shards = index_shards plan.shards s.index.disk_shards;
              chunks = insert plan.chunk_id (committed plan) s.index.chunks;
            }))
  commit-effect false id = inl (unfold apply_commit open_cf in refl)
  commit-effect true id = elim (Option-cases (lookup id s.index.staging)) [
    | inl e ↦ inl (unfold apply_commit open_cf in rw (e, apply_commit) refl)
    | inr (plan, e) ↦
        elim (stage_put_record-cases chunks s.batch Cf.chunk plan.chunk_id (committed plan)) [
          | inl (_, p) ↦
              inl (unfold apply_commit open_cf in rw (e, apply_commit) (rw (p, apply_commit) refl))
          | inr (bytes, _, p) ↦ inr (
            plan,
            e,
            unfold apply_commit open_cf in rw (e, apply_commit) (rw (p, apply_commit) refl),
          )
        ]
  ]

  pub rebump-effect :
      (opened : Bool) (id : ℕ)
      → ((apply_rebump chunks plans opened id s).0 ≡ s)
        ⊎ ((plan : StagingChunk) × (shards : List ShardSlot) × (lookup id s.index.staging
              ≡ some plan)
            × (rebump_loop id plan.shards ≡ ok shards)
            × ((apply_rebump chunks plans opened id s).0.index ≡ record s.index {
              staging = insert id (record plan { shards = shards }) s.index.staging;
            }))
  rebump-effect false id = inl (unfold apply_rebump open_cf in refl)
  rebump-effect true id = elim (Option-cases (lookup id s.index.staging)) [
    | inl e ↦ inl (unfold apply_rebump open_cf in rw (e, apply_rebump) refl)
    | inr (plan, e) ↦ elim (Result-cases (rebump_loop id plan.shards)) [
      | inl (_, c) ↦
          inl (unfold apply_rebump open_cf in rw (e, apply_rebump) (rw (c, apply_rebump) refl))
      | inr (shards, c) ↦
          elim (stage_put_record-cases plans s.batch Cf.chunk_staging id
            (record plan { shards = shards })) [
              | inl (_, p) ↦ inl (
                  unfold apply_rebump open_cf in
                  rw (e, apply_rebump) (rw (c, apply_rebump) (rw (p, apply_rebump) refl)))
              | inr (bytes, _, p) ↦ inr (
                plan,
                shards,
                e,
                c,
                unfold apply_rebump open_cf in
                    rw (e, apply_rebump) (rw (c, apply_rebump) (rw (p, apply_rebump) refl)),
              )
            ]
    ]
  ]
