-- ===== src/Tests/Partitions.antt =====
-- Keys and partitions at concrete inputs.
use epoch_io.Common.{ℕ, ◌≡◌, ◌↔◌, refl, arith, true, false, not, ◌&&◌, some, List, [], ◌∷◌, ◌++◌}
use epoch_io.Common.Bytes.{to_be_bytes, bytes_eq}
use epoch_io.Common.Lex.{lex_ltb}
use epoch_io.Common.Map.{Map}
use epoch_io.Meta.Keys.{MetaCf, flat_key, prefix_end, end_loop, seg_no}
use epoch_io.Meta.Keys.Routing.{prefix_end-exact}
use epoch_io.Meta.Partition.{
  Namespace, Coord, PartitionRange, PartitionInfo, contains, contains_coord, split, key_range,
  coord_ltb, after_start, before_end, coord_eq,
}
use epoch_io.Meta.Partition.Split.{left_of, right_of, split-partitions}
use epoch_io.Meta.Partition.Export.{in_range, key_range-exact, ttl_missed}

end_found : prefix_end (97 ∷ 0xff ∷ []) ≡ some (98 ∷ [])
unfolding prefix_end end_loop
end_found = refl

prefix_end-exact_example :
    ((lex_ltb (97 ∷ 0xff ∷ 7 ∷ []) (97 ∷ 0xff ∷ []) ≡ false)
      × (lex_ltb (97 ∷ 0xff ∷ 7 ∷ []) (98 ∷ []) ≡ true))
    ↔ ((zs : List ℕ) × (97 ∷ 0xff ∷ 7 ∷ [] ≡ (97 ∷ 0xff ∷ []) ++ zs))
prefix_end-exact_example =
    prefix_end-exact (97 ∷ 0xff ∷ []) (98 ∷ []) (97 ∷ 0xff ∷ 7 ∷ []) end_found
      (omega arith, (omega arith, (omega arith, tt)))

-- The flat keys from `a` of bucket 5 up to `c` of bucket 6.
abbrev some_range : PartitionRange
some_range = record { ns = Namespace.flat; start = some (5, 97 ∷ []); end = some (6, 99 ∷ []) }

abbrev boundary : Coord
boundary = (5, (98 ∷ []) ++ (0 ∷ []))

split_found :
    split some_range boundary ≡ some (left_of some_range boundary, right_of some_range boundary)
unfolding split contains_coord after_start before_end coord_ltb coord_eq lex_ltb bytes_eq
split_found = refl

split-partitions_example :
    (contains_coord (left_of some_range boundary) (5, 98 ∷ [])
      ≡ (contains_coord some_range (5, 98 ∷ []) && coord_ltb (5, 98 ∷ []) boundary))
    × (contains_coord (right_of some_range boundary) (5, 98 ∷ [])
        ≡ (contains_coord some_range (5, 98 ∷ []) && not (coord_ltb (5, 98 ∷ []) boundary)))
split-partitions_example =
    split-partitions some_range (left_of some_range boundary) (right_of some_range boundary)
      boundary (5, 98 ∷ []) split_found

key_range-exact_example :
    in_range
      (key_range some_range MetaCf.meta_seg)
      (flat_key MetaCf.meta_seg 5 (98 ∷ []) (seg_no 3))
    ≡ contains some_range (flat_key MetaCf.meta_seg 5 (98 ∷ []) (seg_no 3))
key_range-exact_example =
    key_range-exact some_range MetaCf.meta_seg 5 (98 ∷ []) (seg_no 3) ((λ e. cc, λ e. cc), λ e. cc)
      (omega arith) (omega arith) (omega arith)

inside : contains_coord some_range (6, 98 ∷ []) ≡ true
unfolding contains_coord after_start before_end coord_ltb lex_ltb
inside = refl

ttl_missed_example :
    (contains some_range (flat_key MetaCf.ttl 6 (to_be_bytes 8 1700) (98 ∷ [])) ≡ true)
    × (in_range
          (key_range some_range MetaCf.ttl)
          (flat_key MetaCf.ttl 6 (to_be_bytes 8 1700) (98 ∷ []))
        ≡ false)
ttl_missed_example =
    ttl_missed some_range 6 1700 (98 ∷ []) (99 ∷ []) (omega arith) (omega arith) refl inside

abbrev one_group : Map PartitionInfo
one_group = (4, record { range = some_range; peers = [] }) ∷ []
