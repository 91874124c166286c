-- ===== src/Tests/Restarts.antt =====
-- A restart of the chunk manager over one stored chunk of one slot.
use epoch_io.Common.{◌≡◌, refl, true, [], ◌∷◌, ok}
use epoch_io.Common.Map.{insert, lookup, values}
use epoch_io.Common.Bytes.{bytes_eq}
use epoch_io.Pd.Records.{Entries, load_records, load_loop, open_cf, collect}
use epoch_io.Pd.Chunk.{ChunkStatus}
use epoch_io.Pd.Chunk.Manager.{ChunkIndex, add_prefix, index_shards}
use epoch_io.Pd.Chunk.Stored.{index_all, restore}
use epoch_io.Pd.Chunk.Indexed.{IsIndexed}
use epoch_io.Pd.Chunk.Restart.{restore-IsIndexed}
use epoch_io.Tests.ChunkCodec.{chunk_codec, plan_codec, read_chunk, read_slots, status_of}

abbrev one_stored : Entries
one_stored =
    (0 ∷ 0 ∷ 0 ∷ 1 ∷ [], 1 ∷ 1 ∷ 1 ∷ 0 ∷ 64 ∷ 128 ∷ 0 ∷ 1 ∷ 4294967296 ∷ 0 ∷ 7 ∷ 1 ∷ 5 ∷ []) ∷ []

abbrev restored : ChunkIndex
restored = record {
  chunks =
      (
        1,
        record {
          chunk_id = 1;
          code_mode = record {
            id = 1;
            data_shards = 1;
            parity = 0;
            stripe_size = 64;
            blob_size = 128;
          };
          status = ChunkStatus.writable;
          shards =
              record { shard_prefix = 4294967296; epoch = 0; disk_id = 7; extent_id = 5 ∷ [] } ∷ [];
        },
      )
      ∷ [];
  staging = [];
  next_id = 1;
  disk_shards = (7, (4294967296, tt) ∷ []) ∷ [];
}

restored_there : restore chunk_codec plan_codec true one_stored [] ≡ ok restored
unfolding restore load_records load_loop open_cf collect insert lookup values index_all index_shards
    add_prefix bytes_eq read_chunk read_slots status_of
restored_there = refl

restore-IsIndexed_example : IsIndexed restored.disk_shards restored.chunks
restore-IsIndexed_example =
    restore-IsIndexed chunk_codec plan_codec true one_stored [] restored restored_there
