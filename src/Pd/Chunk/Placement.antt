-- ===== src/Pd/Chunk/Placement.antt =====
-- crates/epoch-pd/src/chunk/placement.rs: which disk hosts each shard. A rack's name is text, as bytes.
pub mod Spread
use epoch_io.Common.{
  ℕ, Bool, true, false, not, ◌&&◌, ◌||◌, Option, none, some, List, [], ◌∷◌, ◌++◌, ltb, leb, ◌==◌,
  if◌then◌else◌, length, any,
}
use epoch_io.Common.Bytes.{bytes_eq}
use epoch_io.Common.Sort.{sort_by}

pub record DiskCandidate : Type 0 where
  pub disk_id : ℕ
  pub node_id : ℕ
  pub rack : List ℕ
  pub writable_extents : ℕ

pub data AntiAffinity : Type 0 where
  host_aware rack_aware : AntiAffinity

abbrev pub is_rack_aware : AntiAffinity → Bool
is_rack_aware host_aware = false
is_rack_aware rack_aware = true

-- The comparison: by watermark, then by disk.
abbrev pub precedes : DiskCandidate → DiskCandidate → Bool
precedes a b =
    ltb a.writable_extents b.writable_extents
    || (a.writable_extents == b.writable_extents && leb a.disk_id b.disk_id)

abbrev pub skipped : AntiAffinity → List ℕ → List (List ℕ) → DiskCandidate → Bool
skipped affinity used_nodes used_racks c =
    any (λ n. n == c.node_id) used_nodes
    || (is_rack_aware affinity && any (λ r. bytes_eq r c.rack) used_racks)

-- The loop over the ordered candidates.
unfoldable pub place :
    ℕ → AntiAffinity → List DiskCandidate → List ℕ → List ℕ → List (List ℕ) → Option (List ℕ)
place total affinity [] chosen used_nodes used_racks = none
place total affinity (c ∷ cs) chosen used_nodes used_racks =
    elim (skipped affinity used_nodes used_racks c) [
      | true ↦ place total affinity cs chosen used_nodes used_racks
      | false ↦ elim (length (chosen ++ (c.disk_id ∷ [])) == total) [
        | true ↦ some (chosen ++ (c.disk_id ∷ []))
        | false ↦
            place total affinity cs (chosen ++ (c.disk_id ∷ [])) (used_nodes ++ (c.node_id ∷ []))
              (used_racks ++ (c.rack ∷ []))
      ]
    ]

unfoldable pub plan_placement : List DiskCandidate → ℕ → AntiAffinity → Option (List ℕ)
unfolding place
plan_placement candidates total affinity =
    place total affinity (sort_by precedes candidates) [] [] []

pub record SlotDomain : Type 0 where
  pub index : ℕ
  pub node_id : ℕ
  pub rack : List ℕ

unfoldable pub rebind_preserves_affinity : List SlotDomain → DiskCandidate → AntiAffinity → Bool
rebind_preserves_affinity others target affinity =
    if any (λ slot. slot.node_id == target.node_id) others
    then false
    else if is_rack_aware affinity && any (λ slot. bytes_eq slot.rack target.rack) others
    then false
    else true
