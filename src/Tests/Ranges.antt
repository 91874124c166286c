-- ===== src/Tests/Ranges.antt =====
-- Ranged reads at concrete inputs: two blobs of three and four bytes.
use epoch_io.Common.{
  ℕ, zero, suc, ◌≡◌, refl, ap, arith, false, some, List, [], ◌∷◌, length, ok, replicate,
}
use epoch_io.Gateway.Code.{ChunkPlacement, BlobDesc, ObjectLayout}
use epoch_io.Gateway.Range.{ByteRange, RangePlan, resolve, plan}
use epoch_io.Gateway.Range.Bytes.{trimmed, window, resolve-plan_reads}

abbrev some_chunk : ChunkPlacement
some_chunk = record { chunk_id = 1; shards = (1, 1) ∷ [] }

abbrev two_blobs : List BlobDesc
two_blobs =
    record { blob_id = 1; len = 3; chunk = some_chunk }
    ∷ record { blob_id = 2; len = 4; chunk = some_chunk }
    ∷ []

abbrev two_blob_layout : ObjectLayout
two_blob_layout = record {
  size = 7;
  code = record { data_shards = 4; parity = 2; stripe_size = 64; blob_size = 128 };
  blobs = two_blobs;
}

-- A blob's bytes are its id, over and over.
abbrev stub_content : BlobDesc → List ℕ
stub_content b = replicate b.len b.blob_id

length-replicate : (n x : ℕ) → length (replicate n x) ≡ n
length-replicate zero x = refl
length-replicate (suc n) x = ap suc (length-replicate n x)

abbrev two_to_four : ByteRange
two_to_four = record { start = 2; end = 4 }

resolved : resolve 7 2 (some 4) false ≡ ok two_to_four
unfolding resolve
resolved = refl

resolve-plan_reads_example :
    (p : RangePlan) × (plan two_blob_layout two_to_four ≡ some p)
    × (trimmed stub_content (λ b. length-replicate b.len b.blob_id) p
        ≡ window stub_content (λ b. length-replicate b.len b.blob_id) two_blobs two_to_four)
resolve-plan_reads_example =
    resolve-plan_reads stub_content (λ b. length-replicate b.len b.blob_id) two_blob_layout 2
      (some 4) false two_to_four refl (omega arith) resolved
