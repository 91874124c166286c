-- ===== src/Ec/Layout.antt =====
-- crates/epoch-ec/src/layout.rs: stripe counts, unit sizes, shard lengths and offsets.
-- Lengths are `usize` values that the callers keep far below the word size; `debug_assert!`
-- preconditions become hypotheses of the theorems.
pub mod Sizes
use epoch_io.Common.{ℕ, ◌+◌, ◌-◌, ◌*◌, ◌/◌, ◌%◌, ◌||◌, if◌then◌else◌, ◌==◌}

abbrev pub hash_len : ℕ
hash_len = 32

abbrev pub shard_align : ℕ
shard_align = 64

-- `usize::div_ceil` and `usize::next_multiple_of`.
unfoldable pub div_ceil : ℕ → ℕ → ℕ
div_ceil a b = if a % b == 0 then a / b else a / b + 1

abbrev pub next_multiple_of : ℕ → ℕ → ℕ
next_multiple_of a b = if a % b == 0 then a else a + (b - a % b)

unfoldable pub unit_size : ℕ → ℕ → ℕ
unit_size stripe_len data_shards = next_multiple_of (div_ceil stripe_len data_shards) shard_align

unfoldable pub stripe_count : ℕ → ℕ → ℕ
stripe_count blob_len stripe_size = div_ceil blob_len stripe_size

unfoldable pub last_stripe_len : ℕ → ℕ → ℕ
last_stripe_len blob_len stripe_size =
    if blob_len == 0
    then 0
    else if blob_len % stripe_size == 0
    then stripe_size
    else blob_len % stripe_size

unfoldable pub shard_physical_len : ℕ → ℕ → ℕ
shard_physical_len logical_len unit =
    if (unit == 0) || (logical_len == 0)
    then 0
    else div_ceil logical_len unit * hash_len + logical_len

unfoldable pub shard_logical_len : ℕ → ℕ → ℕ → ℕ
shard_logical_len blob_len stripe_size data_shards =
    let stripes = stripe_count blob_len stripe_size in
    if stripes == 0
    then 0
    else (stripes - 1) * unit_size stripe_size data_shards
      + unit_size (last_stripe_len blob_len stripe_size) data_shards

unfoldable pub shard_physical_blob_len : ℕ → ℕ → ℕ → ℕ
shard_physical_blob_len blob_len stripe_size data_shards =
    stripe_count blob_len stripe_size * hash_len
    + shard_logical_len blob_len stripe_size data_shards

unfoldable pub frame_offset : ℕ → ℕ → ℕ
frame_offset stripe_idx unit = stripe_idx * (hash_len + unit)

unfoldable pub offset_to_stripe : ℕ → ℕ → ℕ
offset_to_stripe offset stripe_size = offset / stripe_size
