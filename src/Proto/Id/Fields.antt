-- ===== src/Proto/Id/Fields.antt =====
-- What the packed ids of crates/epoch-proto/src/id.rs give back.
use epoch_io.Common.{
  ℕ, ◌+◌, ◌-◌, ◌*◌, ◌/◌, ◌%◌, ◌^◌, ◌≤◌, ◌<◌, ◌≡◌, refl, ap, ◌∙◌, arith, ok, err, length,
}
use epoch_io.Common.Bits.{bit_or_disjoint, bit_and_low, bit_and_high}
use epoch_io.Common.Bytes.{to_be_bytes, from_be_bytes-to_be_bytes}
use epoch_io.Proto.Id.{
  internal, blob_id, writer_token, seq, try_new, chunk_id, index, epoch, shard_prefix, extent_id,
  extent_shard_id, extent_create_ts, max_shard_epoch,
}
use epoch_io.Common.{ltb, ◌==◌, if◌then◌else◌}
use epoch_io.Common.Lex.{lex_ltb, lex_ltb-append, lex_ltb-to_be_bytes}
use Prim.Native.Nat.{bit_and}

pub blob_id-sum : (token s : ℕ) → token < 2 ^ 32 → s < 2 ^ 32 → blob_id token s ≡ token * 2 ^ 32 + s
unfolding blob_id
blob_id-sum token s ht hs =
    let e : token * 2 ^ 32 % 2 ^ 64 ≡ token * 2 ^ 32 = omega arith in
    rw e (bit_or_disjoint 32 token s hs)

-- A blob id composed of 32-bit parts gives back its writer token and its sequence number.
blob_id_fields :
    (token s : ℕ)
    → token < 2 ^ 32
    → s < 2 ^ 32
    → (writer_token (blob_id token s) ≡ token) × (seq (blob_id token s) ≡ s)
unfolding writer_token seq
blob_id_fields token s ht hs = omega (arith, blob_id-sum token s ht hs)

-- The packed value, as a number.
abbrev pub packed : ℕ → ℕ → ℕ → ℕ
packed chunk i e = chunk * 2 ^ 32 + i * 2 ^ 24 + e

pub try_new-packed :
    (chunk i e : ℕ)
    → chunk < 2 ^ 32
    → i < 2 ^ 8
    → e ≤ max_shard_epoch
    → try_new chunk i e ≡ ok (packed chunk i e)
unfolding try_new
try_new-packed chunk i e hc hi he =
    let a : chunk * 2 ^ 32 % 2 ^ 64 ≡ chunk * 2 ^ 32 = omega arith in
    let b : i * 2 ^ 24 % 2 ^ 64 ≡ i * 2 ^ 24 = omega arith in
    let c : chunk * 2 ^ 32 + i * 2 ^ 24 ≡ (chunk * 2 ^ 8 + i) * 2 ^ 24 = omega arith in
    ground (
      arith,
      a,
      b,
      c,
      bit_or_disjoint 32 chunk (i * 2 ^ 24) (omega arith),
      bit_or_disjoint 24 (chunk * 2 ^ 8 + i) e (omega arith),
    )

pub try_new-le : (chunk i e raw : ℕ) → try_new chunk i e ≡ ok raw → e ≤ max_shard_epoch
unfolding try_new
try_new-le chunk i e raw h = ground arith

pub try_new-internal : (chunk i e : ℕ) → max_shard_epoch < e → try_new chunk i e ≡ err internal
unfolding try_new
try_new-internal chunk i e h = ground arith

pub epoch-low : (raw : ℕ) → epoch raw ≡ raw % 2 ^ 24
unfolding epoch
epoch-low raw =
    let e : raw ≡ raw / 2 ^ 24 * 2 ^ 24 + raw % 2 ^ 24 = omega arith in
    omega (
      arith,
      ap (λ t. bit_and t max_shard_epoch) e,
      bit_and_low 24 (raw / 2 ^ 24) (raw % 2 ^ 24) (omega arith),
    )

pub index-mid : (raw : ℕ) → index raw ≡ raw / 2 ^ 24 % 2 ^ 8
unfolding index
index-mid raw =
    let x : ℕ = raw / 2 ^ 24 in
    let e : raw / 2 ^ 24 ≡ raw / 2 ^ 24 / 2 ^ 8 * 2 ^ 8 + raw / 2 ^ 24 % 2 ^ 8 = omega arith in
    omega (
      arith,
      ap (λ t. bit_and t 0xff) e,
      bit_and_low 8 (raw / 2 ^ 24 / 2 ^ 8) (raw / 2 ^ 24 % 2 ^ 8) (omega arith),
    )

pub shard_prefix-high : (raw : ℕ) → raw < 2 ^ 64 → shard_prefix raw ≡ raw / 2 ^ 24 * 2 ^ 24
unfolding shard_prefix
shard_prefix-high raw h =
    let e : raw ≡ raw / 2 ^ 24 * 2 ^ 24 + raw % 2 ^ 24 = omega arith in
    let f : bit_and (raw / 2 ^ 24) (2 ^ 40 - 1) ≡ raw / 2 ^ 24 = omega (
      arith,
      ap (λ t. bit_and t (2 ^ 40 - 1)) (low (raw / 2 ^ 24)),
      bit_and_low 40 0 (raw / 2 ^ 24) (omega arith),
    ) in
    ap (λ t. bit_and t 0xffff_ffff_ff00_0000) e
    ∙ bit_and_high 24 (raw / 2 ^ 24) (2 ^ 40 - 1) (raw % 2 ^ 24) (omega arith)
    ∙ ap (λ t. t * 2 ^ 24) f
  where
    low : (q : ℕ) → q ≡ 0 * 2 ^ 40 + q
    low q = omega arith

-- A composed shard id gives back its chunk, index and epoch, and its prefix is the id with the
-- epoch bits zero; composing fails exactly on an epoch that does not fit 24 bits.
pub try_new_fields :
    (chunk i e raw : ℕ)
    → chunk < 2 ^ 32
    → i < 2 ^ 8
    → try_new chunk i e ≡ ok raw
    → (e ≤ max_shard_epoch)
      × (raw < 2 ^ 64)
      × (chunk_id raw ≡ chunk)
      × (index raw ≡ i)
      × (epoch raw ≡ e)
      × (shard_prefix raw ≡ packed chunk i 0)
try_new_fields chunk i e raw hc hi h =
    let le = try_new-le chunk i e raw h in
    let v : raw ≡ packed chunk i e = cc (h, try_new-packed chunk i e hc hi le) in
    let b : raw < 2 ^ 64 = omega arith in
    (
      le,
      b,
      unfold chunk_id in omega arith,
      omega (arith, index-mid raw),
      omega (arith, epoch-low raw),
      omega (arith, shard_prefix-high raw b),
    )

-- The 16 bytes of an extent id give back the shard and the timestamp.
pub extent_id_fields :
    (shard ts : ℕ)
    → shard < 2 ^ 64
    → ts < 2 ^ 64
    → (length (extent_id shard ts) ≡ 16)
      × (extent_shard_id (extent_id shard ts) ≡ shard)
      × (extent_create_ts (extent_id shard ts) ≡ ts)
unfolding extent_id extent_shard_id extent_create_ts
extent_id_fields shard ts hs ht =
    (refl, from_be_bytes-to_be_bytes 8 shard hs, from_be_bytes-to_be_bytes 8 ts ht)

-- Extent ids sort by shard first, then by creation time.
extent_id_order :
    (s t s' t' : ℕ)
    → s < 2 ^ 64
    → s' < 2 ^ 64
    → t < 2 ^ 64
    → t' < 2 ^ 64
    → lex_ltb (extent_id s t) (extent_id s' t') ≡ (if s == s' then ltb t t' else ltb s s')
unfolding extent_id
extent_id_order s t s' t' hs hs' ht ht' =
    lex_ltb-append (to_be_bytes 8 s) (to_be_bytes 8 s') (to_be_bytes 8 t) (to_be_bytes 8 t') refl
    ∙ ground (
      arith,
      lex_ltb-to_be_bytes 8 s s' hs hs',
      lex_ltb-to_be_bytes 8 s' s hs' hs,
      lex_ltb-to_be_bytes 8 t t' ht ht',
    )
