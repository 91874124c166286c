-- ===== src/Pd/Chunk/Snapshot.antt =====
-- The snapshot install and the histogram of crates/epoch-pd/src/chunk/manager.rs.
use epoch_io.Common.{ℕ, ◌+◌, ◌≡◌, refl, subst, arith, Bool, List, [], ◌∷◌, ok}
use epoch_io.Common.Map.{values}
use epoch_io.Pd.Records.{Codec, Entries, open_cf}
use epoch_io.Pd.Chunk.{Chunk, ChunkStatus, StagingChunk}
use epoch_io.Pd.Chunk.Manager.{ChunkIndex, Staged}
use epoch_io.Pd.Chunk.Stored.{rebuilt_index, stage_snapshot, stage_and_apply_snapshot}
use epoch_io.Pd.Chunk.Reads.{
  ChunkStatusHistogram, counted, no_counts, count_chunks, status_histogram,
}
use epoch_io.Pd.Chunk.Slots.{bind-ok}
use epoch_io.Pd.Chunk.Indexed.{IsIndexed}
use epoch_io.Pd.Chunk.Restart.{rebuilt-IsIndexed}

-- After an answered install the secondary index lists a prefix under a disk exactly when a chunk of
-- the snapshot has a slot with that prefix there, whatever the member held before.
install-IsIndexed :
    (chunk_codec : Codec Chunk) (plan_codec : Codec StagingChunk) (opened : Bool)
    (chunk_entries staging_entries : Entries) (chunks : List Chunk) (next_id : ℕ)
    (staging : List StagingChunk) (s s' : Staged)
    → stage_and_apply_snapshot chunk_codec plan_codec opened chunk_entries staging_entries chunks
        next_id staging s
      ≡ ok s'
    → IsIndexed s'.index.disk_shards s'.index.chunks
unfolding stage_and_apply_snapshot
install-IsIndexed codec plans opened es ss chunks next_id staging s s' h =
    let (_, _, h') = bind-ok (open_cf opened) _ s' h in
    let (batch, _, h'') =
      bind-ok (stage_snapshot codec plans es ss chunks next_id staging s.batch) _ s' h' in
    let same : rebuilt_index chunks next_id staging ≡ s'.index = cc h'' in
    subst (λ (y : ChunkIndex). IsIndexed y.disk_shards y.chunks) same
      (rebuilt-IsIndexed chunks next_id staging)

-- The counts of a histogram, taken together.
abbrev summed : ChunkStatusHistogram → ℕ
summed h = h.writable + h.full + h.sealed + h.migrating + h.broken

counted-summed :
    (st : ChunkStatus) (h : ChunkStatusHistogram)
    → h.total ≡ summed h
    → (counted st h).total ≡ summed (counted st h)
counted-summed ChunkStatus.writable h e = omega (arith, e)
counted-summed ChunkStatus.full h e = omega (arith, e)
counted-summed ChunkStatus.sealed h e = omega (arith, e)
counted-summed ChunkStatus.migrating h e = omega (arith, e)
counted-summed ChunkStatus.broken h e = omega (arith, e)

count_chunks-summed :
    (cs : List Chunk) (h : ChunkStatusHistogram)
    → h.total ≡ summed h
    → (count_chunks cs h).total ≡ summed (count_chunks cs h)
unfolding count_chunks
count_chunks-summed [] h e = e
count_chunks-summed (c ∷ cs) h e =
    count_chunks-summed cs (counted c.status h) (counted-summed c.status h e)

-- The counts by status add up to the total.
status_histogram-summed :
    (x : ChunkIndex) → (status_histogram x).total ≡ summed (status_histogram x)
unfolding status_histogram
status_histogram-summed x = count_chunks-summed (values x.chunks) no_counts refl
