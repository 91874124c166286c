-- ===== src/Pd/Chunk/Reads.antt =====
-- The read paths of crates/epoch-pd/src/chunk/manager.rs, the histogram included.
use epoch_io.Common.{ℕ, ◌+◌, Bool, true, false, ◌&&◌, List, [], ◌∷◌, ◌++◌, ltb, ◌==◌, take, retain}
use epoch_io.Common.Map.{values}
use epoch_io.Pd.Chunk.{Chunk, ChunkStatus, writable, ShardSlot, StagingChunk}
use epoch_io.Pd.Chunk.Manager.{ChunkIndex}

-- The read paths.
abbrev pub is_writable : ChunkStatus → Bool
is_writable writable = true
is_writable other = false

unfoldable pub writable_chunks : ChunkIndex → ℕ → List Chunk
writable_chunks x mode_id =
    retain (λ c. is_writable c.status && (c.code_mode.id == mode_id)) (values x.chunks)

unfoldable pub list_chunks : ChunkIndex → ℕ → ℕ → List Chunk
list_chunks x after limit = take limit (values (retain (λ e. ltb after e.0) x.chunks))

abbrev slots_on : ℕ → List Chunk → List ShardSlot
slots_on disk [] = []
slots_on disk (c ∷ cs) = retain (λ s. s.disk_id == disk) c.shards ++ slots_on disk cs

unfoldable pub shard_slots_on_disk : ChunkIndex → ℕ → List ShardSlot
shard_slots_on_disk x disk = slots_on disk (values x.chunks)

unfoldable pub snapshot_view : ChunkIndex → List Chunk × (ℕ × List StagingChunk)
snapshot_view x = (values x.chunks, (x.next_id, values x.staging))

pub record ChunkStatusHistogram : Type 0 where
  pub total : ℕ
  pub writable : ℕ
  pub full : ℕ
  pub sealed : ℕ
  pub migrating : ℕ
  pub broken : ℕ

-- The `u64` counts stay below the number of chunks, whose ids are of 32 bits.
abbrev pub counted : ChunkStatus → ChunkStatusHistogram → ChunkStatusHistogram
counted ChunkStatus.writable h = record h { total = h.total + 1; writable = h.writable + 1 }
counted ChunkStatus.full h = record h { total = h.total + 1; full = h.full + 1 }
counted ChunkStatus.sealed h = record h { total = h.total + 1; sealed = h.sealed + 1 }
counted ChunkStatus.migrating h = record h { total = h.total + 1; migrating = h.migrating + 1 }
counted ChunkStatus.broken h = record h { total = h.total + 1; broken = h.broken + 1 }

unfoldable pub count_chunks : List Chunk → ChunkStatusHistogram → ChunkStatusHistogram
count_chunks [] h = h
count_chunks (c ∷ cs) h = count_chunks cs (counted c.status h)

-- `ChunkStatusHistogram::default`.
abbrev pub no_counts : ChunkStatusHistogram
no_counts = record { total = 0; writable = 0; full = 0; sealed = 0; migrating = 0; broken = 0 }

unfoldable pub status_histogram : ChunkIndex → ChunkStatusHistogram
unfolding count_chunks
status_histogram x = count_chunks (values x.chunks) no_counts
