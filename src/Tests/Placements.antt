-- ===== src/Tests/Placements.antt =====
-- Placement at concrete inputs: three disks on two nodes.
use epoch_io.Common.{ℕ, ◌≡◌, refl, true, some, List, [], ◌∷◌, map, length, All, Occurs}
use epoch_io.Common.Bytes.{bytes_eq}
use epoch_io.Common.Sort.{insert_by, sort_by}
use epoch_io.Pd.Chunk.Placement.{
  DiskCandidate, AntiAffinity, is_rack_aware, place, plan_placement, SlotDomain,
  rebind_preserves_affinity,
}
use epoch_io.Pd.Chunk.Placement.Spread.{AllApart, plan_placement-spread}

abbrev three_disks : List DiskCandidate
three_disks =
    record { disk_id = 1; node_id = 10; rack = 97 ∷ []; writable_extents = 5 }
    ∷ record { disk_id = 2; node_id = 10; rack = 97 ∷ []; writable_extents = 0 }
    ∷ record { disk_id = 3; node_id = 11; rack = 98 ∷ []; writable_extents = 7 }
    ∷ []

placed : plan_placement three_disks 2 AntiAffinity.rack_aware ≡ some (2 ∷ 3 ∷ [])
unfolding plan_placement place insert_by sort_by bytes_eq
placed = refl

plan_placement-spread_example :
    (ps : List DiskCandidate) × (2 ∷ 3 ∷ [] ≡ map (λ c. c.disk_id) ps)
    × (length {A = ℕ} (2 ∷ 3 ∷ []) ≡ 2)
    × All (λ c. Occurs c three_disks) ps
    × AllApart (map (λ c. c.node_id) ps)
    × (is_rack_aware AntiAffinity.rack_aware ≡ true → AllApart (map (λ c. c.rack) ps))
plan_placement-spread_example =
    plan_placement-spread three_disks 2 AntiAffinity.rack_aware (2 ∷ 3 ∷ []) placed

abbrev one_other : List SlotDomain
one_other = record { index = 0; node_id = 11; rack = 98 ∷ [] } ∷ []

abbrev target : DiskCandidate
target = record { disk_id = 2; node_id = 10; rack = 97 ∷ []; writable_extents = 0 }

kept_apart : rebind_preserves_affinity one_other target AntiAffinity.rack_aware ≡ true
unfolding rebind_preserves_affinity bytes_eq
kept_apart = refl
