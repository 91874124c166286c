-- ===== src/Proto/Id.antt =====
-- crates/epoch-proto/src/id.rs: the ids that are packed bit fields, and the 16-byte extent id.
-- A `u32`, a `u64` and a newtype over one are numbers; an `as` cast keeps the low bits.
-- `create_ts` is an `i64`; it stands for its 64-bit pattern, which is what the bytes hold.
pub mod Fields
use epoch_io.Common.{
  ℕ, ◌*◌, ◌/◌, ◌%◌, ◌^◌, List, ◌++◌, Result, ok, err, ltb, take, drop, if◌then◌else◌,
}
use epoch_io.Common.Bytes.{to_be_bytes, from_be_bytes}
use Prim.Native.Nat.{bit_and, bit_or}

abbrev pub shard_index_bits : ℕ
shard_index_bits = 8

abbrev pub shard_epoch_bits : ℕ
shard_epoch_bits = 24

-- `(1 << SHARD_EPOCH_BITS) - 1`.
abbrev pub max_shard_epoch : ℕ
max_shard_epoch = 0xff_ffff

abbrev pub shl64 : ℕ → ℕ → ℕ
shl64 x k = x * 2 ^ k % 2 ^ 64

-- `BlobId::new`: `writer_token(32) | seq(32)`.
unfoldable pub blob_id : ℕ → ℕ → ℕ
blob_id token seq = bit_or (shl64 token 32) seq

unfoldable pub writer_token : ℕ → ℕ
writer_token raw = raw / 2 ^ 32 % 2 ^ 32

unfoldable pub seq : ℕ → ℕ
seq raw = raw % 2 ^ 32

-- `EpochError::Internal`, the one error that `try_new` reports.
pub data EpochError : Type 0 where
  internal : EpochError

-- `ShardId::try_new`: `chunk_id(32) | index(8) | epoch(24)`.
unfoldable pub try_new : ℕ → ℕ → ℕ → Result EpochError ℕ
try_new chunk index epoch =
    if ltb max_shard_epoch epoch
    then err internal
    else ok (bit_or (bit_or (shl64 chunk 32) (shl64 index shard_epoch_bits)) epoch)

unfoldable pub chunk_id : ℕ → ℕ
chunk_id raw = raw / 2 ^ 32 % 2 ^ 32

unfoldable pub index : ℕ → ℕ
index raw = bit_and (raw / 2 ^ shard_epoch_bits) 0xff % 2 ^ 8

unfoldable pub epoch : ℕ → ℕ
epoch raw = bit_and raw max_shard_epoch % 2 ^ 32

-- `self.0 & !(MAX_SHARD_EPOCH as u64)`: the complement is over 64 bits.
unfoldable pub shard_prefix : ℕ → ℕ
shard_prefix raw = bit_and raw 0xffff_ffff_ff00_0000

-- `ExtentId::new`: `shard_id(8B BE) | create_ts(8B BE)`.
unfoldable pub extent_id : ℕ → ℕ → List ℕ
extent_id shard create_ts = to_be_bytes 8 shard ++ to_be_bytes 8 create_ts

unfoldable pub extent_shard_id : List ℕ → ℕ
extent_shard_id bytes = from_be_bytes (take 8 bytes)

unfoldable pub extent_create_ts : List ℕ → ℕ
extent_create_ts bytes = from_be_bytes (drop 8 bytes)
