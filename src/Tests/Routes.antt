-- ===== src/Tests/Routes.antt =====
-- A serialiser of metadata partitions, and the route table at concrete inputs.
use epoch_io.Common.{
  ℕ, zero, suc, ◌+◌, ◌≡◌, ◌≢◌, refl, sym, ap, ◌∙◌, arith, Bool, true, false, Option, none, some, [],
  ◌∷◌, ◌++◌, length, take, drop, ok, ◌^◌, ◌==◌, Bool-cases, inl, inr,
}
use epoch_io.Common.Bytes.{bytes_eq}
use epoch_io.Common.Lex.{lex_ltb}
use epoch_io.Common.Map.{lookup, insert, values}
use epoch_io.Common.KeyMap.{at_key, insert_key}
use epoch_io.Pd.Records.{Bytes, Codec, open_cf}
use epoch_io.Pd.Bucket.{NsMode, same_ns}
use epoch_io.Pd.Partition.{
  PartitionBound, MetaPartition, CreatePartition, ns_tag, same_bound, after_start, before_end,
  interval_contains, start_key, same_range, is_inside, has_peer, swapped, find_overlap,
}
use epoch_io.Pd.MetaManager.{
  Pending, next_counter, next_tag, add_partition, stage_create, apply_create, stage_split,
  split_parent, apply_split, set_peers, apply_migrate, route, list,
}
use epoch_io.Pd.MetaManager.Tiled.{IsTiled}
use epoch_io.Pd.MetaManager.Runs.{
  Steps, create, split, begin, then_step, Steps-IsTiled, Steps-routed,
}
use epoch_io.Pd.MetaManager.Stray.{route-stray}
use epoch_io.Pd.MetaManager.Voters.{apply_migrate-voters}
use epoch_io.Tests.ChunkCodec.{take_all, drop_all, some_or}

unfoldable ns_code : NsMode → ℕ
ns_code NsMode.flat = 0
ns_code NsMode.hier = 1

unfoldable ns_of : ℕ → NsMode
ns_of zero = NsMode.flat
ns_of (suc n) = NsMode.hier

ns_back : (n : NsMode) → ns_of (ns_code n) ≡ n
unfolding ns_of ns_code
ns_back NsMode.flat = refl
ns_back NsMode.hier = refl

unfoldable flag_code : Bool → ℕ
flag_code false = 0
flag_code true = 1

unfoldable flag_of : ℕ → Bool
flag_of zero = false
flag_of (suc n) = true

flag_back : (b : Bool) → flag_of (flag_code b) ≡ b
unfolding flag_of flag_code
flag_back false = refl
flag_back true = refl

unfoldable write_partition : MetaPartition → Option Bytes
write_partition p = some (
    p.partition_id
    ∷ ns_code p.ns
    ∷ p.epoch
    ∷ p.start.bucket
    ∷ flag_code p.start.unbounded
    ∷ p.end.bucket
    ∷ flag_code p.end.unbounded
    ∷ length p.start.routing_key
    ∷ length p.end.routing_key
    ∷ (p.start.routing_key ++ (p.end.routing_key ++ p.peers)))

unfoldable read_partition : Bytes → Option MetaPartition
read_partition (id ∷ ns ∷ epoch ∷ sb ∷ su ∷ eb ∷ eu ∷ n ∷ m ∷ rest) = some (record {
  partition_id = id;
  ns = ns_of ns;
  start = record { bucket = sb; routing_key = take n rest; unbounded = flag_of su };
  end = record { bucket = eb; routing_key = take m (drop n rest); unbounded = flag_of eu };
  peers = drop m (drop n rest);
  epoch = epoch;
})
read_partition other = none

partition_back :
    (p : MetaPartition) (bytes : Bytes)
    → write_partition p ≡ some bytes
    → read_partition bytes ≡ some p
unfolding write_partition read_partition some_or
partition_back p bytes e =
    let s = p.start.routing_key in
    let t = p.end.routing_key in
    ap (some_or read_partition) (sym e) ∙ (λ i. some (record p {
      ns = ns_back p.ns i;
      start = record p.start {
        routing_key = take_all s (t ++ p.peers) i;
        unbounded = flag_back p.start.unbounded i;
      };
      end = record p.end {
        routing_key = (ap (take (length t)) (drop_all s (t ++ p.peers)) ∙ take_all t p.peers) i;
        unbounded = flag_back p.end.unbounded i;
      };
      peers = (ap (drop (length t)) (drop_all s (t ++ p.peers)) ∙ drop_all t p.peers) i;
    }))

pub partition_codec : Codec MetaPartition
partition_codec = record {
  to_vec = write_partition;
  from_slice = read_partition;
  read_back = partition_back;
}

abbrev lowest : PartitionBound
lowest = record { bucket = 0; routing_key = []; unbounded = true }

abbrev highest : PartitionBound
highest = record { bucket = 18446744073709551615; routing_key = []; unbounded = true }

abbrev boundary : PartitionBound
boundary = record { bucket = 10; routing_key = 109 ∷ []; unbounded = false }

abbrev everything : CreatePartition
everything = record { ns = NsMode.flat; start = lowest; end = highest; peers = 1 ∷ 2 ∷ 3 ∷ [] }

abbrev pub no_partitions : Pending
no_partitions = record {
  batch = [];
  index = record { partitions = []; by_start = []; next_id = 1; next_ino_tag = 1 };
}

no_partitions-IsTiled : IsTiled no_partitions.index
unfolding lookup at_key
no_partitions-IsTiled = record {
  own = λ id p e. cc;
  rising = tt;
  listed = λ id p e. cc;
  known = λ k id e. cc;
  apart = λ i j p q c e f n h g. cc;
}

abbrev one_partition : Pending
one_partition = (apply_create partition_codec true everything no_partitions).0

abbrev two_partitions : Pending
two_partitions = (apply_split partition_codec true 1 boundary one_partition).0

two_runs : Steps partition_codec no_partitions two_partitions
unfolding find_overlap list values before_end lex_ltb
two_runs =
    then_step one_partition two_partitions
      (then_step no_partitions one_partition begin (create true everything no_partitions refl refl))
      (split true 1 boundary one_partition refl)

-- The partition behind the boundary.
abbrev upper : MetaPartition
upper = record {
  partition_id = 2;
  ns = NsMode.flat;
  start = boundary;
  end = highest;
  peers = 1 ∷ 2 ∷ 3 ∷ [];
  epoch = 1;
}

two_partitions-upper : lookup 2 two_partitions.index.partitions ≡ some upper
unfolding apply_split split_parent stage_split apply_create stage_create same_range same_bound
    same_ns add_partition next_counter next_tag is_inside lookup insert values insert_key start_key
    ns_tag lex_ltb bytes_eq open_cf write_partition partition_codec
two_partitions-upper = refl

Steps-routed_example : route NsMode.flat 10 (120 ∷ []) two_partitions.index ≡ some upper
Steps-routed_example =
    Steps-routed partition_codec no_partitions two_partitions 2 upper 10 (120 ∷ []) two_runs
      no_partitions-IsTiled two_partitions-upper
      (unfold interval_contains after_start before_end lex_ltb in refl)

abbrev whole : MetaPartition
whole = record {
  partition_id = 1;
  ns = NsMode.flat;
  start = lowest;
  end = highest;
  peers = 1 ∷ 2 ∷ 3 ∷ [];
  epoch = 1;
}

one_run : Steps partition_codec no_partitions one_partition
unfolding find_overlap list values before_end lex_ltb
one_run =
    then_step no_partitions one_partition begin (create true everything no_partitions refl refl)

only_whole : one_partition.index.partitions ≡ (1, whole) ∷ []
unfolding apply_create stage_create same_range same_bound same_ns add_partition next_counter values
    insert insert_key start_key ns_tag bytes_eq open_cf write_partition partition_codec
only_whole = refl

only : (id : ℕ) → (id == 1) ≡ true → lookup id ((1, whole) ∷ []) ≡ some whole
unfolding lookup
only id r = rw r refl

other : (id : ℕ) → (id == 1) ≡ false → lookup id ((1, whole) ∷ []) ≡ none
unfolding lookup
other id r = rw r refl

one_flat :
    (id : ℕ) (q : MetaPartition)
    → lookup id one_partition.index.partitions ≡ some q
    → q.ns ≡ NsMode.flat
one_flat id q e = alone (ap (lookup id) (sym only_whole) ∙ e)
  where
    alone : lookup id ((1, whole) ∷ []) ≡ some q → q.ns ≡ NsMode.flat
    alone h = elim (Bool-cases (id == 1)) [
      | inl r ↦ let same : whole ≡ q = cc (sym (only id r) ∙ h) in ap (λ p. p.ns) (sym same)
      | inr r ↦ cc (sym (other id r) ∙ h)
    ]

-- A coordinate of a hierarchical bucket.
route-stray_example : route NsMode.hier (2 ^ 63 + 4) (120 ∷ []) one_partition.index ≡ some whole
route-stray_example =
    route-stray one_partition.index
      (Steps-IsTiled partition_codec no_partitions one_partition one_run no_partitions-IsTiled)
      one_flat 1 whole (2 ^ 63 + 4) (120 ∷ []) (ap (lookup 1) only_whole ∙ (unfold lookup in refl))
      refl (unfold interval_contains after_start before_end in refl)

migrated : (apply_migrate partition_codec true 1 3 4 one_partition).1 ≡ ok (some (1 ∷ 2 ∷ 4 ∷ []))
unfolding apply_migrate set_peers swapped apply_create stage_create same_range same_bound same_ns
    add_partition next_counter lookup values insert insert_key start_key ns_tag bytes_eq open_cf
    write_partition partition_codec
migrated = refl

apply_migrate-voters_example :
    (p : MetaPartition) × (lookup 1 one_partition.index.partitions ≡ some p)
    × (lookup 1 (apply_migrate partition_codec true 1 3 4 one_partition).0.index.partitions
        ≡ some (record p { peers = 1 ∷ 2 ∷ 4 ∷ []; epoch = p.epoch + 1 }))
    × (has_peer 4 (1 ∷ 2 ∷ 4 ∷ []) ≡ true)
    × (has_peer 3 (1 ∷ 2 ∷ 4 ∷ []) ≡ false)
    × ((n : ℕ) → n ≢ 3 → n ≢ 4 → has_peer n (1 ∷ 2 ∷ 4 ∷ []) ≡ has_peer n p.peers)
apply_migrate-voters_example =
    apply_migrate-voters partition_codec 1 3 4 one_partition true (1 ∷ 2 ∷ 4 ∷ [])
      (λ e. absurd (omega (arith, e))) migrated
