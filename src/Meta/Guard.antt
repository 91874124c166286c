-- ===== src/Meta/Guard.antt =====
-- crates/epoch-meta/src/guard.rs: the inline accounting of a partition and its admission check. The
-- atomics are fields that the partition's one writer passes on.
pub mod Admission
use epoch_io.Common.{
  ℕ, ◌*◌, min, Bool, true, false, ◌&&◌, Option, none, some, Result, ok, err, ltb, ◌==◌,
  if◌then◌else◌,
}
use epoch_io.Common.Word.{ℤ, saturating_add_signed, as_f64}

abbrev pub hard_inline_cap : ℕ
hard_inline_cap = 1024 * 1024

abbrev pub unwrap_or : Option ℕ → ℕ → ℕ
unwrap_or none d = d
unwrap_or (some x) d = x

unfoldable pub resolve_threshold : ℕ → Option ℕ → ℕ
resolve_threshold cluster_default bucket_override =
    min (unwrap_or bucket_override cluster_default) hard_inline_cap

pub data InlineReject : Type 0 where
  disabled : InlineReject
  too_large : ℕ → InlineReject
  ratio_exceeded : InlineReject

pub record GuardDelta : Type 0 where
  pub inline_bytes : ℤ
  pub inline_count : ℤ
  pub total_bytes : ℤ

pub record PartitionGuard : Type 0 where
  pub inline_bytes : ℕ
  pub inline_count : ℕ
  pub total_bytes : ℕ
  pub delq_depth : ℕ

unfoldable pub new_guard : PartitionGuard
new_guard = record { inline_bytes = 0; inline_count = 0; total_bytes = 0; delq_depth = 0 }

unfoldable pub load : PartitionGuard → ℕ → ℕ → ℕ → PartitionGuard
load g inline_bytes inline_count total_bytes = record g {
  inline_bytes = inline_bytes;
  inline_count = inline_count;
  total_bytes = total_bytes;
}

unfoldable pub counters : PartitionGuard → ℕ × (ℕ × ℕ)
counters g = (g.inline_bytes, (g.inline_count, g.total_bytes))

unfoldable pub account : GuardDelta → PartitionGuard → PartitionGuard × (ℕ × (ℕ × ℕ))
unfolding counters
account d g =
    let g' : PartitionGuard = record g {
      inline_bytes = saturating_add_signed g.inline_bytes d.inline_bytes;
      inline_count = saturating_add_signed g.inline_count d.inline_count;
      total_bytes = saturating_add_signed g.total_bytes d.total_bytes;
    } in
    (g', counters g')

unfoldable pub load_delq_depth : ℕ → PartitionGuard → PartitionGuard
load_delq_depth depth g = record g { delq_depth = depth }

unfoldable pub account_delq : ℤ → PartitionGuard → PartitionGuard × ℕ
account_delq d g =
    let depth : ℕ = saturating_add_signed g.delq_depth d in (record g { delq_depth = depth }, depth)

-- `inline as f64 > 0.5 * total as f64`; halving a float is exact.
abbrev pub over_half : ℕ → ℕ → Bool
over_half inline_bytes total_bytes = ltb (as_f64 total_bytes) (as_f64 inline_bytes * 2)

unfoldable pub check_inline : PartitionGuard → ℕ → ℕ → Result InlineReject (Unit {0})
check_inline g payload_len threshold =
    if threshold == 0
    then err disabled
    else if ltb threshold payload_len
    then err (too_large payload_len)
    else if ltb 0 g.total_bytes && over_half g.inline_bytes g.total_bytes
    then err ratio_exceeded
    else ok tt
