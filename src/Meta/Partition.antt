-- ===== src/Meta/Partition.antt =====
-- crates/epoch-meta/src/partition/mod.rs: the interval of routing keys that a partition owns, its
-- split, its export bounds, and the registry that routes to it. The registry's lock is left out.
pub mod Coord
pub mod Split
pub mod Export
pub mod Family
use epoch_io.Common.{
  ℕ, ◌+◌, ◌^◌, Bool, true, false, not, ◌&&◌, ◌||◌, Option, none, some, List, [], ◌∷◌, ◌++◌, map,
  ltb, ◌==◌, if◌then◌else◌, any,
}
use epoch_io.Common.Bytes.{to_be_bytes, bytes_eq}
use epoch_io.Common.Lex.{lex_ltb}
use epoch_io.Common.Map.{Map, lookup, insert}
use epoch_io.Meta.Keys.{MetaCf, tag, all_cfs, routing_key}

pub data Namespace : Type 0 where
  flat hier : Namespace

abbrev pub primary_cf : Namespace → MetaCf
primary_cf flat = MetaCf.meta
primary_cf hier = MetaCf.fs

-- A bucket and a routing key.
abbrev pub Coord : Type 0
Coord = ℕ × List ℕ

pub record PartitionRange : Type 0 where
  pub ns : Namespace
  pub start : Option Coord
  pub end : Option Coord

unfoldable pub full : Namespace → PartitionRange
full ns = record { ns = ns; start = none; end = none }

-- `<` and `==` on `(u64, &[u8])`.
unfoldable pub coord_ltb : Coord → Coord → Bool
coord_ltb (a, x) (b, y) = if a == b then lex_ltb x y else ltb a b

unfoldable pub coord_eq : Coord → Coord → Bool
coord_eq (a, x) (b, y) = a == b && bytes_eq x y

unfoldable pub after_start : Option Coord → Coord → Bool
after_start none c = true
after_start (some s) c = not (coord_ltb c s)

unfoldable pub before_end : Option Coord → Coord → Bool
before_end none c = true
before_end (some e) c = coord_ltb c e

unfoldable pub contains_coord : PartitionRange → Coord → Bool
contains_coord p c = after_start p.start c && before_end p.end c

abbrev pub is_start : Option Coord → Coord → Bool
is_start none c = false
is_start (some s) c = coord_eq s c

unfoldable pub split : PartitionRange → Coord → Option (PartitionRange × PartitionRange)
split p at_coord =
    if not (contains_coord p at_coord)
    then none
    else if is_start p.start at_coord
    then none
    else some (
      record { ns = p.ns; start = p.start; end = some at_coord },
      record { ns = p.ns; start = some at_coord; end = p.end },
    )

abbrev pub other_primary : Namespace → ℕ
other_primary flat = tag MetaCf.fs
other_primary hier = tag MetaCf.meta

unfoldable pub owns_shared_cf : PartitionRange → ℕ → Bool
owns_shared_cf p t = any (λ cf. tag cf == t) all_cfs && not (t == other_primary p.ns)

abbrev pub contains_routed : PartitionRange → Option Coord → Bool
contains_routed p none = false
contains_routed p (some c) = contains_coord p c

unfoldable pub contains : PartitionRange → List ℕ → Bool
unfolding owns_shared_cf
contains p [] = false
contains p (t ∷ rest) =
    if t == tag (primary_cf p.ns) || owns_shared_cf p t
    then contains_routed p (routing_key (t ∷ rest))
    else false

pub record KeyRange : Type 0 where
  pub cf : MetaCf
  pub start : List ℕ
  pub end : List ℕ

-- `HIER_BUCKET_BIT`.
abbrev pub hier_bucket_bit : ℕ
hier_bucket_bit = 2 ^ 63

unfoldable pub cf_bound : MetaCf → Coord → List ℕ
cf_bound cf (bucket, routing) = tag cf ∷ (to_be_bytes 8 bucket ++ routing)

abbrev pub is_shared_cf : MetaCf → Bool
is_shared_cf MetaCf.meta = false
is_shared_cf MetaCf.fs = false
is_shared_cf MetaCf.meta_seg = true
is_shared_cf MetaCf.upload = true
is_shared_cf MetaCf.delq = true
is_shared_cf MetaCf.ttl = true
is_shared_cf MetaCf.applied = true

unfoldable pub ns_bit_bound : MetaCf → List ℕ
ns_bit_bound cf = tag cf ∷ to_be_bytes 8 hier_bucket_bit

unfoldable pub start_bound : MetaCf → Option Coord → List ℕ
start_bound cf none = tag cf ∷ []
start_bound cf (some c) = cf_bound cf c

abbrev pub is_ttl : MetaCf → Bool
is_ttl MetaCf.ttl = true
is_ttl other = false

unfoldable pub end_bound : MetaCf → Option Coord → List ℕ
end_bound cf none = (tag cf + 1) ∷ []
end_bound cf (some (b, k)) = if is_ttl cf then tag cf ∷ to_be_bytes 8 b else cf_bound cf (b, k)

-- The clamp of a shared family at the namespace bit.
abbrev pub clamped : Namespace → MetaCf → List ℕ → List ℕ → KeyRange
clamped flat cf start end = record {
  cf = cf;
  start = start;
  end = if lex_ltb (ns_bit_bound cf) end then ns_bit_bound cf else end;
}
clamped hier cf start end = record {
  cf = cf;
  start = if lex_ltb start (ns_bit_bound cf) then ns_bit_bound cf else start;
  end = end;
}

unfoldable pub key_range : PartitionRange → MetaCf → KeyRange
key_range p cf =
    if is_shared_cf cf
    then clamped p.ns cf (start_bound cf p.start) (end_bound cf p.end)
    else record { cf = cf; start = start_bound cf p.start; end = end_bound cf p.end }

abbrev pub exported_cfs : Namespace → List MetaCf
exported_cfs flat = MetaCf.meta ∷ MetaCf.meta_seg ∷ MetaCf.upload ∷ MetaCf.delq ∷ MetaCf.ttl ∷ []
exported_cfs hier = MetaCf.fs ∷ MetaCf.meta_seg ∷ MetaCf.upload ∷ MetaCf.delq ∷ MetaCf.ttl ∷ []

unfoldable pub key_ranges : PartitionRange → List KeyRange
unfolding key_range
key_ranges p = map (key_range p) (exported_cfs p.ns)

abbrev scan_end : MetaCf → Option Coord → List ℕ
scan_end cf none = (tag cf + 1) ∷ []
scan_end cf (some c) = cf_bound cf c

unfoldable pub primary_scan_bounds : PartitionRange → MetaCf × (List ℕ × List ℕ)
primary_scan_bounds p =
    (primary_cf p.ns, (start_bound (primary_cf p.ns) p.start, scan_end (primary_cf p.ns) p.end))

-- A peer's address is text, as bytes.
pub record PartitionInfo : Type 0 where
  pub range : PartitionRange
  pub peers : Map (List ℕ)

unfoldable pub register : ℕ → PartitionInfo → Map PartitionInfo → Map PartitionInfo
register group info registry = insert group info registry

-- The first hosted partition, in group order, that covers the coordinate.
unfoldable pub route : Map PartitionInfo → Coord → Option ℕ
route [] c = none
route ((group, info) ∷ rest) c = if contains_coord info.range c then some group else route rest c

unfoldable pub peer_addr : Map PartitionInfo → ℕ → ℕ → Option (List ℕ)
peer_addr registry group node = elim (lookup group registry) [
  | none ↦ none
  | some info ↦ lookup node info.peers
]
