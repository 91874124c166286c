-- ===== src/Pd/Partition.antt =====
-- The partitions of crates/epoch-pd/src/meta_mgr.rs: their intervals, and the checks of
-- crates/epoch-pd/src/service.rs before one is created. A coordinate or a route key, a tuple in the
-- source, is the list of its numbers and the bytes behind them, whose order is the tuple's.
pub mod Starts
use epoch_io.Common.{
  ℕ, ◌+◌, ◌^◌, Bool, true, false, not, ◌&&◌, ◌||◌, Option, none, some, List, [], ◌∷◌, ◌++◌, retain,
  any, find?, if◌then◌else◌, ltb, leb, ◌==◌,
}
use epoch_io.Common.Bytes.{bytes_eq}
use epoch_io.Common.Lex.{lex_ltb}
use epoch_io.Pd.Bucket.{NsMode, same_ns}

unfoldable pub ns_tag : NsMode → ℕ
ns_tag NsMode.flat = 0
ns_tag NsMode.hier = 1

pub record PartitionBound : Type 0 where
  pub bucket : ℕ
  pub routing_key : List ℕ
  pub unbounded : Bool

unfoldable pub same_bound : PartitionBound → PartitionBound → Bool
same_bound a b =
    a.bucket == b.bucket
    && bytes_eq a.routing_key b.routing_key
    && (if a.unbounded then b.unbounded else not b.unbounded)

pub record MetaPartition : Type 0 where
  pub partition_id : ℕ
  pub ns : NsMode
  pub start : PartitionBound
  pub end : PartitionBound
  pub peers : List ℕ
  pub epoch : ℕ

-- `(bucket, routing_key)`.
abbrev pub coord : PartitionBound → List ℕ
coord b = b.bucket ∷ b.routing_key

unfoldable pub after_start : MetaPartition → List ℕ → Bool
after_start p c = p.start.unbounded || not (lex_ltb c (coord p.start))

unfoldable pub before_end : MetaPartition → List ℕ → Bool
before_end p c = p.end.unbounded || lex_ltb c (coord p.end)

unfoldable pub interval_contains : MetaPartition → ℕ → List ℕ → Bool
unfolding after_start before_end
interval_contains p bucket routing_key =
    after_start p (bucket ∷ routing_key) && before_end p (bucket ∷ routing_key)

unfoldable pub start_key : MetaPartition → List ℕ
start_key p =
    ns_tag p.ns
    ∷ (if p.start.unbounded then 0 else p.start.bucket)
    ∷ (if p.start.unbounded then [] else p.start.routing_key)

pub record CreatePartition : Type 0 where
  pub ns : NsMode
  pub start : PartitionBound
  pub end : PartitionBound
  pub peers : List ℕ

unfoldable pub same_range : NsMode → PartitionBound → PartitionBound → MetaPartition → Bool
unfolding same_bound same_ns
same_range ns start end p = same_ns p.ns ns && same_bound p.start start && same_bound p.end end

abbrev pub new_partition : ℕ → CreatePartition → MetaPartition
new_partition id cmd = record {
  partition_id = id;
  ns = cmd.ns;
  start = cmd.start;
  end = cmd.end;
  peers = cmd.peers;
  epoch = 1;
}

-- The boundary is strictly inside the partition.
unfoldable pub is_inside : PartitionBound → MetaPartition → Bool
is_inside at parent =
    not at.unbounded
    && (parent.start.unbounded || lex_ltb (coord parent.start) (coord at))
    && (parent.end.unbounded || lex_ltb (coord at) (coord parent.end))

abbrev pub child_of : ℕ → PartitionBound → MetaPartition → MetaPartition
child_of id at parent = record {
  partition_id = id;
  ns = parent.ns;
  start = at;
  end = parent.end;
  peers = parent.peers;
  epoch = 1;
}

abbrev pub narrowed : PartitionBound → MetaPartition → MetaPartition
narrowed at parent = record parent { end = at; epoch = parent.epoch + 1 }

abbrev pub has_peer : ℕ → List ℕ → Bool
has_peer n peers = any (λ p. p == n) peers

unfoldable pub swapped : ℕ → ℕ → List ℕ → List ℕ
swapped old new peers =
    let kept = retain (λ p. not (p == old)) peers in
    if has_peer new peers then kept else kept ++ (new ∷ [])

abbrev pub is_empty : List ℕ → Bool
is_empty [] = true
is_empty (x ∷ xs) = false

-- `[s, e)` and the partition have a coordinate in common: each starts before the other ends.
unfoldable pub overlaps : PartitionBound → PartitionBound → MetaPartition → Bool
overlaps start end p =
    (p.end.unbounded || (start.unbounded || lex_ltb (coord start) (coord p.end)))
    && (end.unbounded || (p.start.unbounded || lex_ltb (coord p.start) (coord end)))

unfoldable pub find_overlap :
    List MetaPartition → NsMode → PartitionBound → PartitionBound → Option ℕ
unfolding overlaps same_ns
find_overlap existing ns start end =
    elim (find? (overlaps start end) (retain (λ p. same_ns p.ns ns) existing)) [
      | none ↦ none
      | some p ↦ some p.partition_id
    ]

abbrev pub hier_bucket_bit : ℕ
hier_bucket_bit = 2 ^ 63

-- Whether the bounds keep to their namespace's side of the bit.
unfoldable pub validate_partition_bounds : NsMode → PartitionBound → PartitionBound → Bool
validate_partition_bounds NsMode.flat start end = end.unbounded || leb end.bucket hier_bucket_bit
validate_partition_bounds NsMode.hier start end =
    start.unbounded || leb hier_bucket_bit start.bucket
