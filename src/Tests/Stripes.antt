-- ===== src/Tests/Stripes.antt =====
-- The stripe arithmetic at concrete inputs.
use epoch_io.Common.{ℕ, ◌≡◌, ◌≤◌, ◌+◌, ◌-◌, ◌*◌, ◌%◌, ◌↔◌, arith}
use epoch_io.Ec.Layout.{
  hash_len, shard_align, unit_size, stripe_count, last_stripe_len, shard_physical_blob_len,
  frame_offset,
}
use epoch_io.Ec.Layout.Sizes.{unit_size-covers, shard_physical_blob_len-frames}

unit_size-covers_example :
    (1000 ≤ unit_size 1000 4 * 4)
    × (unit_size 1000 4 % shard_align ≡ 0)
    × ((unit_size 1000 4 ≡ 0) ↔ (◌≡◌ {A = ℕ} 1000 0))
unit_size-covers_example = unit_size-covers 1000 4 (omega arith)

shard_physical_blob_len-frames_example :
    shard_physical_blob_len 2500 1000 4
    ≡ frame_offset (stripe_count 2500 1000 - 1) (unit_size 1000 4)
      + (hash_len + unit_size (last_stripe_len 2500 1000) 4)
shard_physical_blob_len-frames_example =
    shard_physical_blob_len-frames 2500 1000 4 (omega arith) (omega arith)
