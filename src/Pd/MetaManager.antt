-- ===== src/Pd/MetaManager.antt =====
-- crates/epoch-pd/src/meta_mgr.rs: the route table of the metadata service. A handler takes the pending
-- batch and the index, and gives both back with its answer.
pub mod Tiled
pub mod Growth
pub mod Splits
pub mod Runs
pub mod Stray
pub mod Voters
pub mod Refused
pub mod Leaders
use epoch_io.Common.{
  ℕ, ◌+◌, ◌^◌, Bool, true, false, not, ◌&&◌, ◌||◌, Option, none, some, List, [], ◌∷◌, ◌++◌, retain,
  any, find?, length, Result, ok, err, ok_or, ◌>>=◌, if◌then◌else◌, ltb, ◌==◌,
}
use epoch_io.Common.Bytes.{to_be_bytes, from_be_bytes, bytes_eq}
use epoch_io.Common.Lex.{lex_ltb}
use epoch_io.Common.Map.{Map, lookup, insert, values}
use epoch_io.Common.KeyMap.{KeyMap, insert_key, floor}
use epoch_io.Pd.Records.{
  Bytes, SmError, read_failed, write_failed, malformed_counter, malformed_key, counter_overflow,
  tags_exhausted, BatchOp, put, Entries, Cf, Codec, open_cf, stage_clear, collect,
}
use epoch_io.Pd.Bucket.{NsMode}
use epoch_io.Pd.Partition.{
  PartitionBound, MetaPartition, CreatePartition, ns_tag, start_key, interval_contains, same_range,
  is_inside, new_partition, child_of, narrowed, has_peer, swapped, is_empty,
}

pub record PartitionIndex : Type 0 where
  pub partitions : Map MetaPartition
  pub by_start : KeyMap ℕ
  pub next_id : ℕ
  pub next_ino_tag : ℕ

pub record Pending : Type 0 where
  pub batch : List BatchOp
  pub index : PartitionIndex

-- `b"__counter"` and `b"__ino_tag_counter"`.
abbrev pub counter_key : Bytes
counter_key = b'_' ∷ b'_' ∷ b'c' ∷ b'o' ∷ b'u' ∷ b'n' ∷ b't' ∷ b'e' ∷ b'r' ∷ []

abbrev pub ino_tag_counter_key : Bytes
ino_tag_counter_key =
    b'_' ∷ b'_' ∷ b'i' ∷ b'n' ∷ b'o' ∷ b'_' ∷ b't' ∷ b'a' ∷ b'g' ∷ b'_' ∷ b'c' ∷ b'o' ∷ b'u' ∷ b'n'
    ∷ b't' ∷ b'e' ∷ b'r' ∷ []

abbrev pub ino_partition_tag_bits : ℕ
ino_partition_tag_bits = 16

-- `u64::checked_add(1)`, and `u32::checked_add(1)` within the tag space.
unfoldable pub next_counter : ℕ → Result SmError ℕ
next_counter n = if ltb (n + 1) (2 ^ 64) then ok (n + 1) else err counter_overflow

unfoldable pub next_tag : ℕ → Result SmError ℕ
next_tag n = if ltb (n + 1) (2 ^ ino_partition_tag_bits) then ok (n + 1) else err tags_exhausted

-- A partition recorded under its id and its start.
unfoldable pub add_partition : MetaPartition → PartitionIndex → PartitionIndex
add_partition p x = record x {
  by_start = insert_key (start_key p) p.partition_id x.by_start;
  partitions = insert p.partition_id p x.partitions;
}

-- The route index of the partitions.
unfoldable pub starts_of : List MetaPartition → KeyMap ℕ → KeyMap ℕ
starts_of [] m = m
starts_of (p ∷ ps) m = starts_of ps (insert_key (start_key p) p.partition_id m)

module _ (codec : Codec MetaPartition) (opened : Bool) where
  -- One entry of the column family.
  unfoldable pub restore_entry : Bytes → Bytes → PartitionIndex → Result SmError PartitionIndex
  restore_entry key value x =
      if bytes_eq key counter_key
      then (if length value == 8
          then ok (record x { next_id = from_be_bytes value })
          else err malformed_counter)
      else if bytes_eq key ino_tag_counter_key
      then (if length value == 4
          then ok (record x { next_ino_tag = from_be_bytes value })
          else err malformed_counter)
      else if length key == 8
      then (ok_or (codec.from_slice value) read_failed >>= λ p. ok (record x {
        by_start = insert_key (start_key p) p.partition_id x.by_start;
        partitions = insert (from_be_bytes key) p x.partitions;
      }))
      else err malformed_key

  unfoldable pub restore_loop : Entries → PartitionIndex → Result SmError PartitionIndex
  unfolding restore_entry
  restore_loop [] x = ok x
  restore_loop ((key, value) ∷ es) x = restore_entry key value x >>= λ y. restore_loop es y

  -- A state whose restore fails is not opened, so what the index held by then is left out.
  unfoldable pub restore : Entries → Result SmError PartitionIndex
  unfolding restore_loop
  restore es = open_cf opened >>= λ _.
      restore_loop es (record { partitions = []; by_start = []; next_id = 1; next_ino_tag = 1 })

  abbrev put_partition : MetaPartition → ℕ → List BatchOp → Result SmError (List BatchOp)
  put_partition p id batch = ok_or (codec.to_vec p) write_failed >>= λ bytes.
      ok (batch ++ (put Cf.meta_partition (to_be_bytes 8 id) bytes ∷ []))

  -- The durable part of a creation: what fails here fails behind the index.
  unfoldable pub stage_create : ℕ → MetaPartition → Pending → Pending × Result SmError ℕ
  stage_create next_id p s = elim (open_cf opened) [
    | err e ↦ (s, err e)
    | ok _ ↦ elim (put_partition p p.partition_id s.batch) [
      | err e ↦ (s, err e)
      | ok batch ↦ (
        record s {
          batch = batch ++ (put Cf.meta_partition counter_key (to_be_bytes 8 next_id) ∷ []);
        },
        ok p.partition_id,
      )
    ]
  ]

  unfoldable pub apply_create : CreatePartition → Pending → Pending × Result SmError ℕ
  unfolding same_range stage_create add_partition
  apply_create cmd s =
      elim (find? (same_range cmd.ns cmd.start cmd.end) (values s.index.partitions)) [
        | some existing ↦ (s, ok existing.partition_id)
        | none ↦ elim (next_counter s.index.next_id) [
          | err e ↦ (s, err e)
          | ok next_id ↦
              let p : MetaPartition = new_partition s.index.next_id cmd in
              stage_create next_id p (record {
                batch = s.batch;
                index = add_partition p (record s.index { next_id = next_id });
              })
        ]
      ]

  -- The durable part of a split.
  unfoldable pub stage_split :
      ℕ → MetaPartition → MetaPartition → ℕ → Pending → Pending × Result SmError (Option (ℕ × ℕ))
  stage_split parent_id parent child tag s = elim (open_cf opened) [
    | err e ↦ (s, err e)
    | ok _ ↦ elim (ok_or (codec.to_vec parent) write_failed) [
      | err e ↦ (s, err e)
      | ok parent_value ↦ elim (ok_or (codec.to_vec child) write_failed) [
        | err e ↦ (s, err e)
        | ok child_value ↦ (
          record s {
            batch =
                s.batch
                ++ (put Cf.meta_partition (to_be_bytes 8 parent_id) parent_value
                    ∷ put Cf.meta_partition (to_be_bytes 8 child.partition_id) child_value
                    ∷ put Cf.meta_partition counter_key (to_be_bytes 8 s.index.next_id)
                    ∷ put Cf.meta_partition ino_tag_counter_key (to_be_bytes 4 s.index.next_ino_tag)
                    ∷ []);
          },
          ok (some (child.partition_id, tag)),
        )
      ]
    ]
  ]

  -- From the check of the boundary on.
  unfoldable pub split_parent :
      ℕ → PartitionBound → MetaPartition → Pending → Pending × Result SmError (Option (ℕ × ℕ))
  unfolding stage_split add_partition
  split_parent parent_id at parent s = elim (next_counter s.index.next_id) [
    | err e ↦ (s, err e)
    | ok next_id ↦ elim (next_tag s.index.next_ino_tag) [
      | err e ↦ (record s { index = record s.index { next_id = next_id } }, err e)
      | ok tag ↦
          let child : MetaPartition = child_of s.index.next_id at parent in
          let less : MetaPartition = narrowed at parent in
          stage_split parent_id less child s.index.next_ino_tag (record {
            batch = s.batch;
            index = add_partition child (record s.index {
              next_id = next_id;
              next_ino_tag = tag;
              partitions = insert parent_id less s.index.partitions;
            });
          })
    ]
  ]

  unfoldable pub apply_split :
      ℕ → PartitionBound → Pending → Pending × Result SmError (Option (ℕ × ℕ))
  unfolding split_parent is_inside
  apply_split parent_id at s = elim (lookup parent_id s.index.partitions) [
    | none ↦ (s, ok none)
    | some parent ↦ elim (is_inside at parent) [
      | false ↦ (s, ok none)
      | true ↦ split_parent parent_id at parent s
    ]
  ]

  -- A changed voter set recorded: the index first, then the batch.
  unfoldable pub set_peers :
      ℕ → List ℕ → MetaPartition → Pending → Pending × Result SmError (Option (List ℕ))
  set_peers id peers partition s =
      let p : MetaPartition = record partition { peers = peers; epoch = partition.epoch + 1 } in
      let t : Pending = record s {
        index = record s.index { partitions = insert id p s.index.partitions };
      } in
      elim (open_cf opened) [
        | err e ↦ (t, err e)
        | ok _ ↦ elim (put_partition p id s.batch) [
          | err e ↦ (t, err e)
          | ok batch ↦ (record t { batch = batch }, ok (some peers))
        ]
      ]

  unfoldable pub apply_migrate : ℕ → ℕ → ℕ → Pending → Pending × Result SmError (Option (List ℕ))
  unfolding set_peers swapped
  apply_migrate id old new s = elim (lookup id s.index.partitions) [
    | none ↦ (s, ok none)
    | some partition ↦ elim (has_peer new partition.peers && not (has_peer old partition.peers)) [
      | true ↦ (s, ok none)
      | false ↦ elim (is_empty (swapped old new partition.peers)) [
        | true ↦ (s, ok none)
        | false ↦ set_peers id (swapped old new partition.peers) partition s
      ]
    ]
  ]

  -- The loop of `stage_and_apply_snapshot` over the partitions.
  unfoldable pub stage_partitions :
      List MetaPartition → List BatchOp → Result SmError (List BatchOp)
  stage_partitions [] batch = ok batch
  stage_partitions (p ∷ ps) batch =
      put_partition p p.partition_id batch >>= λ batch'. stage_partitions ps batch'

  -- What an aborted install has staged by then is dropped with the batch.
  unfoldable pub stage_and_apply_snapshot :
      Entries → List MetaPartition → ℕ → ℕ → Pending → Result SmError Pending
  unfolding stage_partitions
  stage_and_apply_snapshot es ps next_id next_ino_tag s = open_cf opened >>= λ _.
      stage_partitions ps (stage_clear s.batch Cf.meta_partition es) >>= λ batch.
      let rows : Map MetaPartition = collect (λ p. p.partition_id) [] ps in
      ok (record {
        batch =
            batch
            ++ (put Cf.meta_partition counter_key (to_be_bytes 8 next_id)
                ∷ put Cf.meta_partition ino_tag_counter_key (to_be_bytes 4 next_ino_tag)
                ∷ []);
        index = record {
          partitions = rows;
          by_start = starts_of (values rows) [];
          next_id = next_id;
          next_ino_tag = next_ino_tag;
        };
      })

-- The read paths.
unfoldable pub route : NsMode → ℕ → List ℕ → PartitionIndex → Option MetaPartition
unfolding interval_contains
route ns bucket routing_key x = elim (floor (ns_tag ns ∷ bucket ∷ routing_key) x.by_start) [
  | none ↦ none
  | some id ↦ elim (lookup id x.partitions) [
    | none ↦ none
    | some p ↦ if interval_contains p bucket routing_key then some p else none
  ]
]

unfoldable pub partitions_on : ℕ → PartitionIndex → List MetaPartition
partitions_on node x = retain (λ p. has_peer node p.peers) (values x.partitions)

unfoldable pub list : PartitionIndex → List MetaPartition
list x = values x.partitions

unfoldable pub snapshot_view : PartitionIndex → List MetaPartition × (ℕ × ℕ)
snapshot_view x = (values x.partitions, (x.next_id, x.next_ino_tag))
