-- ===== src/Gateway/Range.antt =====
-- crates/epoch-gateway/src/range.rs: resolving a `Range` header to a byte window, and choosing the
-- blobs that cover it. The loop's three variables are a record; `u64` arithmetic wraps.
pub mod Resolve
pub mod Plan
pub mod Bytes
use epoch_io.Common.{
  ℕ, zero, ◌+◌, ◌-◌, ◌%◌, ◌^◌, min, Bool, true, false, ◌&&◌, ◌||◌, Option, none, some, List, [],
  ◌∷◌, ◌++◌, Result, ok, err, ltb, leb, ◌==◌, if◌then◌else◌,
}
use epoch_io.Gateway.Code.{BlobDesc, ObjectLayout}

-- Both ends are inclusive.
pub record ByteRange : Type 0 where
  pub start : ℕ
  pub end : ℕ

unfoldable pub byte_count : ByteRange → ℕ
byte_count r = r.end - r.start + 1

pub data RangeError : Type 0 where
  unsatisfiable : RangeError

-- `last.map_or(final_byte, |l| l.min(final_byte))`.
abbrev pub last_or : ℕ → Option ℕ → ℕ
last_or final_byte none = final_byte
last_or final_byte (some l) = min l final_byte

unfoldable pub resolve : ℕ → ℕ → Option ℕ → Bool → Result RangeError ByteRange
resolve size first last suffix =
    if size == 0
    then err unsatisfiable
    else if suffix
    then if first == 0
      then err unsatisfiable
      else ok (record { start = size - first; end = size - 1 })
    else if ltb (size - 1) first
    then err unsatisfiable
    else if ltb (last_or (size - 1) last) first
    then err unsatisfiable
    else ok (record { start = first; end = last_or (size - 1) last })

pub record RangePlan : Type 0 where
  pub blobs : List BlobDesc
  pub skip : ℕ
  pub take : ℕ

-- The loop's variables.
pub record Scan : Type 0 where
  pub blobs : List BlobDesc
  pub offset : ℕ
  pub skip : Option ℕ

abbrev pub wrap64 : ℕ → ℕ
wrap64 x = x % 2 ^ 64

abbrev pub first_skip : Option ℕ → ℕ → Option ℕ
first_skip none d = some d
first_skip (some k) d = some k

-- One round, up to `offset = blob_end`.
unfoldable pub visit : BlobDesc → ByteRange → Scan → Scan
visit blob range s =
    let blob_end = wrap64 (s.offset + blob.len) in
    if ltb range.start blob_end && leb s.offset range.end
    then record {
      blobs = s.blobs ++ (blob ∷ []);
      offset = blob_end;
      skip = first_skip s.skip (wrap64 (range.start + 2 ^ 64 - s.offset));
    }
    else record s { offset = blob_end }

unfoldable pub scan : List BlobDesc → ByteRange → Scan → Scan
scan [] range s = s
scan (blob ∷ rest) range s =
    let s' = visit blob range s in
    let more = scan rest range s' in if ltb range.end s'.offset then s' else more

abbrev pub is_empty {ℓ} : {A : Type ℓ} → List A → Bool
is_empty [] = true
is_empty (x ∷ xs) = false

-- `skip?` on the way out.
abbrev pub planned : List BlobDesc → Option ℕ → ℕ → Option RangePlan
planned blobs none n = none
planned blobs (some k) n = some (record { blobs = blobs; skip = k; take = n })

abbrev pub scan_start : Scan
scan_start = record { blobs = []; offset = 0; skip = none }

unfoldable pub plan : ObjectLayout → ByteRange → Option RangePlan
unfolding scan
plan layout range =
    let s = scan layout.blobs range scan_start in
    if is_empty s.blobs || leb s.offset range.end
    then none
    else planned s.blobs s.skip (byte_count range)
