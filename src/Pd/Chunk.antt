-- ===== src/Pd/Chunk.antt =====
-- crates/epoch-pd/src/chunk/model.rs and the slot helpers of crates/epoch-pd/src/chunk/manager.rs.
-- `create_ts` stands for its 64-bit pattern, as in the extent ids.
pub mod Manager
pub mod Reads
pub mod Stored
pub mod Slots
pub mod Plans
pub mod Shape
pub mod Effects
pub mod Moves
pub mod Rebind
pub mod Epochs
pub mod Placement
pub mod Prefixes
pub mod Indexed
pub mod Runs
pub mod Restart
pub mod Paging
pub mod Snapshot
use epoch_io.Common.{
  ℕ, ◌+◌, ◌^◌, Bool, true, false, ◌||◌, Option, none, some, List, [], ◌∷◌, Result, ok, err, ◌>>=◌,
  ltb, leb, ◌==◌, if◌then◌else◌, length, any,
}
use epoch_io.Pd.Records.{SmError, epoch_overflow}
use epoch_io.Pd.Reject.{RejectReason, invalid_chunk_plan}
use epoch_io.Proto.CodeMode.{CodeMode, shards_total}
use epoch_io.Proto.Id as PackedId
use Prim.Native.Nat.{bit_or}

pub data ChunkStatus : Type 0 where
  writable full sealed migrating broken : ChunkStatus

pub record ShardSlot : Type 0 where
  pub shard_prefix : ℕ
  pub epoch : ℕ
  pub disk_id : ℕ
  pub extent_id : List ℕ

-- `ShardSlot::shard_id` and `ShardSlot::index`.
unfoldable pub shard_id : ShardSlot → ℕ
shard_id s = bit_or s.shard_prefix s.epoch

unfoldable pub slot_index : ShardSlot → ℕ
unfolding shard_id
slot_index s = PackedId.index (shard_id s)

pub record Chunk : Type 0 where
  pub chunk_id : ℕ
  pub code_mode : CodeMode
  pub status : ChunkStatus
  pub shards : List ShardSlot

pub record StagingChunk : Type 0 where
  pub chunk_id : ℕ
  pub code_mode : CodeMode
  pub shards : List ShardSlot

pub record SlotPlan : Type 0 where
  pub index : ℕ
  pub disk_id : ℕ

abbrev pub epoch_jump : ℕ
epoch_jump = 3

-- The loop of `validate_slots`; `seen` holds the indices so far.
unfoldable pub validate_loop : ℕ → List ℕ → List SlotPlan → Option RejectReason
validate_loop total seen [] = none
validate_loop total seen (slot ∷ slots) =
    if leb total slot.index || any (λ i. i == slot.index) seen
    then some invalid_chunk_plan
    else validate_loop total (slot.index ∷ seen) slots

unfoldable pub validate_slots : CodeMode → List SlotPlan → Option RejectReason
unfolding validate_loop
validate_slots mode slots =
    if length slots == shards_total mode
    then validate_loop (shards_total mode) [] slots
    else some invalid_chunk_plan

-- `sort_by_key(|slot| slot.index)`, which is stable.
unfoldable pub insert_slot : SlotPlan → List SlotPlan → List SlotPlan
insert_slot p [] = p ∷ []
insert_slot p (q ∷ qs) =
    let rest = insert_slot p qs in if leb p.index q.index then p ∷ (q ∷ qs) else q ∷ rest

unfoldable pub sort_slots : List SlotPlan → List SlotPlan
sort_slots [] = []
sort_slots (p ∷ ps) = insert_slot p (sort_slots ps)

unfoldable pub compose_slot : ℕ → ℕ → ℕ → ℕ → ℕ → Result SmError ShardSlot
compose_slot chunk index epoch disk create_ts = elim (PackedId.try_new chunk index epoch) [
  | err e ↦ err epoch_overflow
  | ok raw ↦ ok (record {
    shard_prefix = PackedId.shard_prefix raw;
    epoch = epoch;
    disk_id = disk;
    extent_id = PackedId.extent_id raw create_ts;
  })
]

unfoldable pub compose_loop : ℕ → ℕ → ℕ → List SlotPlan → Result SmError (List ShardSlot)
compose_loop chunk epoch create_ts [] = ok []
compose_loop chunk epoch create_ts (p ∷ ps) =
    compose_slot chunk p.index epoch p.disk_id create_ts >>= λ s.
    compose_loop chunk epoch create_ts ps >>= λ rest. ok (s ∷ rest)

unfoldable pub compose_slots : ℕ → List SlotPlan → ℕ → ℕ → Result SmError (List ShardSlot)
unfolding sort_slots compose_loop
compose_slots chunk slots epoch create_ts = compose_loop chunk epoch create_ts (sort_slots slots)

-- The loop of `apply_rebump`; `checked_add` is on `u32`.
unfoldable pub rebump_slot : ℕ → ShardSlot → Result SmError ShardSlot
rebump_slot chunk s =
    if ltb (s.epoch + epoch_jump) (2 ^ 32)
    then compose_slot chunk (slot_index s) (s.epoch + epoch_jump) s.disk_id
        (PackedId.extent_create_ts s.extent_id)
    else err epoch_overflow

unfoldable pub rebump_loop : ℕ → List ShardSlot → Result SmError (List ShardSlot)
rebump_loop chunk [] = ok []
rebump_loop chunk (s ∷ ss) =
    rebump_slot chunk s >>= λ t. rebump_loop chunk ss >>= λ rest. ok (t ∷ rest)

-- `shards.iter().find(|s| s.index() == slot_index)`, and the same with `iter_mut` and a store.
unfoldable pub find_slot : ℕ → List ShardSlot → Option ShardSlot
find_slot i [] = none
find_slot i (s ∷ ss) = if slot_index s == i then some s else find_slot i ss

unfoldable pub replace_slot : ℕ → ShardSlot → List ShardSlot → List ShardSlot
replace_slot i t [] = []
replace_slot i t (s ∷ ss) =
    let rest = replace_slot i t ss in if slot_index s == i then t ∷ ss else s ∷ rest
