-- ===== src/Pd/Chunk/Stored.antt =====
-- crates/epoch-pd/src/chunk/manager.rs: the chunks read back from the store, and a snapshot installed.
use epoch_io.Common.{ℕ, Bool, List, [], ◌∷◌, Result, ok}
use epoch_io.Common.Map.{values}
use epoch_io.Common.{◌>>=◌}
use epoch_io.Pd.Records.{Entries, load_records, collect}
use epoch_io.Pd.Records.{
  SmError, BatchOp, Cf, Codec, open_cf, stage_put_counter, stage_clear, stage_records,
}
use epoch_io.Pd.Chunk.{Chunk, StagingChunk}
use epoch_io.Pd.Chunk.Manager.{ChunkIndex, Staged, Prefixes, index_shards}

abbrev pub chunk_key : Chunk → ℕ
chunk_key c = c.chunk_id

abbrev pub plan_key : StagingChunk → ℕ
plan_key p = p.chunk_id

-- The loop of `restore` over the committed chunks.
unfoldable pub index_all : List Chunk → Prefixes → Prefixes
index_all [] m = m
index_all (c ∷ cs) m = index_all cs (index_shards c.shards m)

abbrev pub rebuilt_index : List Chunk → ℕ → List StagingChunk → ChunkIndex
rebuilt_index loaded next_id staged = record {
  chunks = collect chunk_key [] loaded;
  staging = collect plan_key [] staged;
  next_id = next_id;
  disk_shards = index_all (values (collect chunk_key [] loaded)) [];
}

module _ (chunk_codec : Codec Chunk) (plan_codec : Codec StagingChunk) where
  -- The records and the counter of an install; what an aborted one has staged is dropped.
  unfoldable pub stage_snapshot :
      Entries
      → Entries
      → List Chunk
      → ℕ
      → List StagingChunk
      → List BatchOp
      → Result SmError (List BatchOp)
  unfolding stage_records
  stage_snapshot chunk_entries staging_entries chunks next_id staging batch =
      stage_records chunk_codec chunk_key Cf.chunk
        (stage_clear (stage_clear batch Cf.chunk chunk_entries) Cf.chunk_staging staging_entries)
        chunks
      >>= λ staged.
          stage_records plan_codec plan_key Cf.chunk_staging
            (stage_put_counter staged Cf.chunk next_id) staging

  unfoldable pub stage_and_apply_snapshot :
      Bool → Entries → Entries → List Chunk → ℕ → List StagingChunk → Staged → Result SmError Staged
  unfolding stage_snapshot
  stage_and_apply_snapshot opened chunk_entries staging_entries chunks next_id staging s =
      open_cf opened >>= λ _.
      stage_snapshot chunk_entries staging_entries chunks next_id staging s.batch >>= λ batch.
      ok (record { batch = batch; index = rebuilt_index chunks next_id staging })

-- `restore`, from the entries of the two column families.
unfoldable pub restore :
    Codec Chunk → Codec StagingChunk → Bool → Entries → Entries → Result SmError ChunkIndex
unfolding load_records collect
restore chunks plans opened chunk_entries staging_entries =
    load_records chunks opened chunk_entries >>= λ loaded.
    load_records plans opened staging_entries >>= λ staged.
    ok (rebuilt_index loaded.0 loaded.1 staged.0)
