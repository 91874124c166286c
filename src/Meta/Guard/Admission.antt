-- ===== src/Meta/Guard/Admission.antt =====
-- What the guard of crates/epoch-meta/src/guard.rs admits, and what its counters hold.
use epoch_io.Common.{ℕ, ◌+◌, ◌*◌, ◌^◌, ◌≤◌, ◌<◌, ◌≡◌, arith, true, Option, ok, ◌↔◌, ◌⊎◌}
use epoch_io.Common.Word.{pos, neg, saturating_back, as_f64-exact}
use epoch_io.Meta.Guard.{
  hard_inline_cap, resolve_threshold, GuardDelta, PartitionGuard, account, counters, check_inline,
  over_half,
}

over_half_iff : (i t : ℕ) → i < 2 ^ 53 → t < 2 ^ 53 → (over_half i t ≡ true) ↔ (t < i * 2)
over_half_iff i t hi ht = ground (arith, as_f64-exact i hi, as_f64-exact t ht)

-- An inline payload is admitted exactly when inlining is on, the payload is within the resolved
-- threshold, which is at most the hard cap, and at most half of the bytes counted are inline.
pub check_inline_iff :
    (g : PartitionGuard) (payload_len cluster_default : ℕ) (bucket_override : Option ℕ)
    → g.inline_bytes < 2 ^ 53
    → g.total_bytes < 2 ^ 53
    → (resolve_threshold cluster_default bucket_override ≤ hard_inline_cap)
      × ((check_inline g payload_len (resolve_threshold cluster_default bucket_override) ≡ ok tt)
          ↔ ((0 < resolve_threshold cluster_default bucket_override)
              × (payload_len ≤ resolve_threshold cluster_default bucket_override)
              × ((g.total_bytes ≡ 0) ⊎ (g.inline_bytes * 2 ≤ g.total_bytes))))
check_inline_iff g n d o hi ht = (
  capped d o,
  admits g n (resolve_threshold d o) (over_half_iff g.inline_bytes g.total_bytes hi ht),
)
  where
    capped : (d : ℕ) (o : Option ℕ) → resolve_threshold d o ≤ hard_inline_cap
    capped d o = unfold resolve_threshold in omega arith

    admits :
        (g : PartitionGuard) (n t : ℕ)
        → ((over_half g.inline_bytes g.total_bytes ≡ true) ↔ (g.total_bytes < g.inline_bytes * 2))
        → (check_inline g n t ≡ ok tt)
          ↔ ((0 < t) × (n ≤ t) × ((g.total_bytes ≡ 0) ⊎ (g.inline_bytes * 2 ≤ g.total_bytes)))
    admits g n t h = unfold check_inline in ground arith

-- The delta of an object that is stored, and of the same object deleted.
abbrev pub stored : ℕ → ℕ → ℕ → GuardDelta
stored i c t = record { inline_bytes = pos i; inline_count = pos c; total_bytes = pos t }

abbrev pub deleted : ℕ → ℕ → ℕ → GuardDelta
deleted i c t = record { inline_bytes = neg i; inline_count = neg c; total_bytes = neg t }

-- Accounting a stored object adds its bytes, and accounting its deletion takes them off again,
-- the delete queue's depth untouched, while the sums fit 64 bits.
account_back :
    (g : PartitionGuard) (i c t : ℕ)
    → g.inline_bytes + i < 2 ^ 64
    → g.inline_count + c < 2 ^ 64
    → g.total_bytes + t < 2 ^ 64
    → ((account (stored i c t) g).1 ≡ (g.inline_bytes + i, (g.inline_count + c, g.total_bytes + t)))
      × ((account (deleted i c t) (account (stored i c t) g).0).0 ≡ g)
unfolding account counters
account_back g i c t hi hc ht =
    let (ai, bi) = saturating_back g.inline_bytes i hi in
    let (ac, bc) = saturating_back g.inline_count c hc in
    let (added, removed) = saturating_back g.total_bytes t ht in
    (
      λ j. (ai j, (ac j, added j)),
      λ j. record {
        inline_bytes = bi j;
        inline_count = bc j;
        total_bytes = removed j;
        delq_depth = g.delq_depth;
      },
    )
