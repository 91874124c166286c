-- ===== src/Gateway/Code.antt =====
-- crates/epoch-gateway/src/code.rs: the read-back directory of an object. `usize` is 64 bits wide.
use epoch_io.Common.{ℕ, ◌+◌, ◌-◌, ◌/◌, max, List}

pub record CodeMode : Type 0 where
  pub data_shards : ℕ
  pub parity : ℕ
  pub stripe_size : ℕ
  pub blob_size : ℕ

unfoldable pub total : CodeMode → ℕ
total c = c.data_shards + c.parity

-- `t = max(1, parity / 2)` failures are tolerated.
unfoldable pub write_quorum : CodeMode → ℕ
unfolding total
write_quorum c = total c - max (c.parity / 2) 1

-- `shards` pairs each shard slot with the node that hosts it.
pub record ChunkPlacement : Type 0 where
  pub chunk_id : ℕ
  pub shards : List (ℕ × ℕ)

pub record BlobDesc : Type 0 where
  pub blob_id : ℕ
  pub len : ℕ
  pub chunk : ChunkPlacement

pub record ObjectLayout : Type 0 where
  pub size : ℕ
  pub code : CodeMode
  pub blobs : List BlobDesc
