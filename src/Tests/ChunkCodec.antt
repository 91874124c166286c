-- ===== src/Tests/ChunkCodec.antt =====
-- A serialiser of chunks and plans: numbers one after the other, lists behind their lengths.
use epoch_io.Common.{
  ℕ, zero, suc, ◌≡◌, refl, sym, ap, ap₂, ◌∙◌, Option, none, some, List, [], ◌∷◌, ◌++◌, length, take,
  drop,
}
use epoch_io.Pd.Records.{Bytes, Codec}
use epoch_io.Pd.Chunk.{Chunk, ChunkStatus, ShardSlot, StagingChunk}

unfoldable pub status_tag : ChunkStatus → ℕ
status_tag ChunkStatus.writable = 0
status_tag ChunkStatus.full = 1
status_tag ChunkStatus.sealed = 2
status_tag ChunkStatus.migrating = 3
status_tag ChunkStatus.broken = 4

unfoldable pub status_of : ℕ → ChunkStatus
status_of zero = ChunkStatus.writable
status_of (suc zero) = ChunkStatus.full
status_of (suc (suc zero)) = ChunkStatus.sealed
status_of (suc (suc (suc zero))) = ChunkStatus.migrating
status_of (suc (suc (suc (suc n)))) = ChunkStatus.broken

status_back : (s : ChunkStatus) → status_of (status_tag s) ≡ s
unfolding status_tag status_of
status_back ChunkStatus.writable = refl
status_back ChunkStatus.full = refl
status_back ChunkStatus.sealed = refl
status_back ChunkStatus.migrating = refl
status_back ChunkStatus.broken = refl

unfoldable pub write_slots : List ShardSlot → Bytes
write_slots [] = []
write_slots (s ∷ ss) =
    s.shard_prefix ∷ s.epoch ∷ s.disk_id ∷ length s.extent_id ∷ (s.extent_id ++ write_slots ss)

unfoldable pub read_slots : ℕ → Bytes → List ShardSlot
read_slots zero xs = []
read_slots (suc k) (p ∷ e ∷ d ∷ n ∷ rest) =
    record { shard_prefix = p; epoch = e; disk_id = d; extent_id = take n rest }
    ∷ read_slots k (drop n rest)
read_slots (suc k) other = []

pub take_all : (xs ys : List ℕ) → take (length xs) (xs ++ ys) ≡ xs
take_all [] ys = refl
take_all (x ∷ xs) ys = ap (◌∷◌ x) (take_all xs ys)

pub drop_all : (xs ys : List ℕ) → drop (length xs) (xs ++ ys) ≡ ys
drop_all [] ys = refl
drop_all (x ∷ xs) ys = drop_all xs ys

slots_back : (ss : List ShardSlot) → read_slots (length ss) (write_slots ss) ≡ ss
unfolding read_slots write_slots
slots_back [] = refl
slots_back (s ∷ ss) =
    ap₂ (λ x rest. record s { extent_id = x } ∷ rest) (take_all s.extent_id (write_slots ss))
      (ap (read_slots (length ss)) (drop_all s.extent_id (write_slots ss)) ∙ slots_back ss)

unfoldable pub write_chunk : Chunk → Option Bytes
write_chunk c = some (
    c.chunk_id
    ∷ c.code_mode.id
    ∷ c.code_mode.data_shards
    ∷ c.code_mode.parity
    ∷ c.code_mode.stripe_size
    ∷ c.code_mode.blob_size
    ∷ status_tag c.status
    ∷ length c.shards
    ∷ write_slots c.shards)

unfoldable pub read_chunk : Bytes → Option Chunk
read_chunk (id ∷ m ∷ d ∷ p ∷ s ∷ b ∷ t ∷ n ∷ rest) = some (record {
  chunk_id = id;
  code_mode = record { id = m; data_shards = d; parity = p; stripe_size = s; blob_size = b };
  status = status_of t;
  shards = read_slots n rest;
})
read_chunk other = none

unfoldable pub some_or : {V : Type 0} → (Bytes → Option V) → Option Bytes → Option V
some_or read none = none
some_or read (some b) = read b

pub chunk_back :
    (c : Chunk) (bytes : Bytes) → write_chunk c ≡ some bytes → read_chunk bytes ≡ some c
unfolding write_chunk read_chunk some_or
chunk_back c bytes e =
    ap (some_or read_chunk) (sym e)
    ∙ (λ i. some (record c { status = status_back c.status i; shards = slots_back c.shards i }))

abbrev pub chunk_codec : Codec Chunk
chunk_codec = record { to_vec = write_chunk; from_slice = read_chunk; read_back = chunk_back }

unfoldable pub write_plan : StagingChunk → Option Bytes
write_plan c = some (
    c.chunk_id
    ∷ c.code_mode.id
    ∷ c.code_mode.data_shards
    ∷ c.code_mode.parity
    ∷ c.code_mode.stripe_size
    ∷ c.code_mode.blob_size
    ∷ length c.shards
    ∷ write_slots c.shards)

unfoldable pub read_plan : Bytes → Option StagingChunk
read_plan (id ∷ m ∷ d ∷ p ∷ s ∷ b ∷ n ∷ rest) = some (record {
  chunk_id = id;
  code_mode = record { id = m; data_shards = d; parity = p; stripe_size = s; blob_size = b };
  shards = read_slots n rest;
})
read_plan other = none

pub plan_back :
    (c : StagingChunk) (bytes : Bytes) → write_plan c ≡ some bytes → read_plan bytes ≡ some c
unfolding write_plan read_plan some_or
plan_back c bytes e =
    ap (some_or read_plan) (sym e) ∙ (λ i. some (record c { shards = slots_back c.shards i }))

abbrev pub plan_codec : Codec StagingChunk
plan_codec = record { to_vec = write_plan; from_slice = read_plan; read_back = plan_back }
