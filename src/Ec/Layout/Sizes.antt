-- ===== src/Ec/Layout/Sizes.antt =====
-- What the sizes of crates/epoch-ec/src/layout.rs guarantee to the encoder and the reader.
use epoch_io.Common.{
  ℕ, zero, suc, ◌+◌, ◌-◌, ◌*◌, ◌/◌, ◌%◌, ◌≤◌, ◌<◌, ◌≡◌, ap, ◌∙◌, arith, ◌==◌, ◌↔◌, ◌⊎◌, inl, inr,
  Bool-cases,
}
use native.Mathlib.Nat.{
  div-add-mod', mod-lt, le_trans, mul-le-mul_right, zero-div, zero-mod, lt_of_mul-lt-mul_right,
}
use epoch_io.Ec.Layout.{
  hash_len, shard_align, div_ceil, next_multiple_of, unit_size, stripe_count, last_stripe_len,
  shard_logical_len, shard_physical_blob_len, frame_offset, offset_to_stripe,
}

div_ceil-cases :
    (a b : ℕ) → ((a % b ≡ 0) × (div_ceil a b ≡ a / b)) ⊎ ((0 < a % b) × (div_ceil a b ≡ a / b + 1))
unfolding div_ceil
div_ceil-cases a b = elim (Bool-cases (a % b == 0)) [
  | inl e ↦ inl (ground arith, ground arith)
  | inr e ↦ inr (ground arith, ground arith)
]

-- The quotient rounded up is the least count of `b`s that covers `a`.
pub div_ceil-covers : (a b : ℕ) → 0 < b → (a ≤ div_ceil a b * b) × (div_ceil a b * b < a + b)
div_ceil-covers a b h = elim (div_ceil-cases a b) [
  | inl (r, e) ↦ rw e (omega (arith, div-add-mod' a b))
  | inr (r, e) ↦ rw e (omega (arith, div-add-mod' a b, mod-lt a h))
]

aligned : (x : ℕ) → (x ≤ next_multiple_of x 64) × (next_multiple_of x 64 % 64 ≡ 0)
aligned x = ground arith

div_ceil-zero : (b : ℕ) → div_ceil 0 b ≡ 0
div_ceil-zero b = elim (div_ceil-cases 0 b) [
  | inl (r, e) ↦ e ∙ zero-div b
  | inr (r, e) ↦ absurd (omega (arith, zero-mod b))
]

-- The units of `data_shards` shards hold the stripe, each is a multiple of the alignment, and they
-- are empty only for the empty stripe.
pub unit_size-covers :
    (stripe_len data_shards : ℕ)
    → 0 < data_shards
    → (stripe_len ≤ unit_size stripe_len data_shards * data_shards)
      × (unit_size stripe_len data_shards % shard_align ≡ 0)
      × ((unit_size stripe_len data_shards ≡ 0) ↔ (stripe_len ≡ 0))
unfolding unit_size
unit_size-covers s d h =
    let (lo, hi) = div_ceil-covers s d h in
    let (ge, mul) = aligned (div_ceil s d) in
    let le : s ≤ unit_size s d * d = le_trans lo (mul-le-mul_right d ge) in
    (le, mul, (λ e. omega (arith, le, ap (λ t. t * d) e), λ e. rw (e, div_ceil-zero d)))

pred_mul : (k s : ℕ) → 0 < k → (k - 1) * s + s ≡ k * s
pred_mul zero s h = absurd (omega arith)
pred_mul (suc k) s h = let e : suc k - 1 ≡ k = omega arith in rw e (omega arith)

last_stripe_len-cases :
    (b s : ℕ)
    → 0 < b
    → ((b % s ≡ 0) × (last_stripe_len b s ≡ s)) ⊎ ((0 < b % s) × (last_stripe_len b s ≡ b % s))
unfolding last_stripe_len
last_stripe_len-cases b s h = elim (Bool-cases (b % s == 0)) [
  | inl e ↦ inl (ground arith, ground arith)
  | inr e ↦ inr (ground arith, ground arith)
]

quotient_pos : (q s n : ℕ) → q * s ≡ n → 0 < n → 0 < q
quotient_pos zero s n e h = absurd (omega arith)
quotient_pos (suc q) s n e h = omega arith

-- The stripes of a blob are its full stripes and the last one, which is not empty.
stripe_count-last :
    (blob_len stripe_size : ℕ)
    → 0 < stripe_size
    → 0 < blob_len
    → ((stripe_count blob_len stripe_size - 1) * stripe_size + last_stripe_len blob_len stripe_size
        ≡ blob_len)
      × (0 < last_stripe_len blob_len stripe_size)
      × (last_stripe_len blob_len stripe_size ≤ stripe_size)
      × (0 < stripe_count blob_len stripe_size)
unfolding stripe_count
stripe_count-last b s hs hb = last_stripe (div_ceil-cases b s) (last_stripe_len-cases b s hb)
  where
    last_stripe :
        ((b % s ≡ 0) × (div_ceil b s ≡ b / s)) ⊎ ((0 < b % s) × (div_ceil b s ≡ b / s + 1))
        → ((b % s ≡ 0) × (last_stripe_len b s ≡ s)) ⊎ ((0 < b % s) × (last_stripe_len b s ≡ b % s))
        → ((div_ceil b s - 1) * s + last_stripe_len b s ≡ b)
          × (0 < last_stripe_len b s)
          × (last_stripe_len b s ≤ s)
          × (0 < div_ceil b s)
    last_stripe (inl (r, e)) (inl (_, l)) =
        let q : b / s * s ≡ b = omega (arith, div-add-mod' b s) in
        let pos : 0 < b / s = quotient_pos (b / s) s b q hb in
        rw (e, l) (omega (arith, q, pos, pred_mul (b / s) s pos))
    last_stripe (inr (r, e)) (inr (_, l)) =
        let k : b / s + 1 - 1 ≡ b / s = omega arith in
        rw (e, l, k) (omega (arith, div-add-mod' b s, mod-lt b hs))
    last_stripe (inl (r, e)) (inr (r', l)) = absurd (omega arith)
    last_stripe (inr (r, e)) (inl (r', l)) = absurd (omega arith)

-- Every offset of a blob lies in a stripe of it, and the frames of the stripes before it are full.
offset_to_stripe-lt :
    (offset blob_len stripe_size : ℕ)
    → 0 < stripe_size
    → offset < blob_len
    → (offset_to_stripe offset stripe_size < stripe_count blob_len stripe_size)
      × (offset_to_stripe offset stripe_size * stripe_size ≤ offset)
      × (offset < (offset_to_stripe offset stripe_size + 1) * stripe_size)
unfolding offset_to_stripe stripe_count
offset_to_stripe-lt o b s hs h =
    let (lo, hi) = div_ceil-covers b s hs in
    let e = div-add-mod' o s in
    let below : o / s * s < div_ceil b s * s = omega (arith, e, lo) in
    (lt_of_mul-lt-mul_right s below, omega (arith, e), omega (arith, e, mod-lt o hs))

-- One shard's body: a frame for each full stripe of the blob and one for the last; what is
-- written up to a stripe's offset is the frames before it.
pub shard_physical_blob_len-frames :
    (blob_len stripe_size data_shards : ℕ)
    → 0 < stripe_size
    → 0 < blob_len
    → shard_physical_blob_len blob_len stripe_size data_shards
      ≡ frame_offset (stripe_count blob_len stripe_size - 1) (unit_size stripe_size data_shards)
        + (hash_len + unit_size (last_stripe_len blob_len stripe_size) data_shards)
unfolding shard_physical_blob_len shard_logical_len frame_offset
shard_physical_blob_len-frames b s d hs hb =
    let (_, _, _, pos) = stripe_count-last b s hs hb in
    ground (arith, pred_mul (stripe_count b s) 32 pos)
