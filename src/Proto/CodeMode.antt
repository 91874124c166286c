-- ===== src/Proto/CodeMode.antt =====
-- crates/epoch-proto/src/code_mode.rs: the erasure parameters of a chunk. Shard counts are `u8`.
use epoch_io.Common.{ℕ, ◌+◌}

pub record CodeMode : Type 0 where
  pub id : ℕ
  pub data_shards : ℕ
  pub parity : ℕ
  pub stripe_size : ℕ
  pub blob_size : ℕ

unfoldable pub shards_total : CodeMode → ℕ
shards_total c = c.data_shards + c.parity
