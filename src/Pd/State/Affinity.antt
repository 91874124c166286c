-- ===== src/Pd/State/Affinity.antt =====
-- What the affinity check of a rebind in crates/epoch-pd/src/state.rs vouches for.
use epoch_io.Common.{
  ℕ, ◌≡◌, ◌≢◌, refl, sym, ◌∙◌, arith, Bool, true, false, none, some, List, [], ◌∷◌, inl, inr, ◌⊎◌,
  Bool-cases, Option-cases, if◌then◌else◌, ◌==◌, any, All,
}
use epoch_io.Common.Map.{Map, lookup}
use epoch_io.Pd.Reject.{RejectReason}
use epoch_io.Pd.Disk.{Disk}
use epoch_io.Pd.Chunk.{Chunk, ShardSlot, slot_index}
use epoch_io.Pd.Chunk.Placement.{host_aware, SlotDomain, DiskCandidate, rebind_preserves_affinity}
use epoch_io.Pd.State.{PdState, rebind_affinity_reject, other_domains, candidate_of}

-- Another slot of the chunk, if its disk is known, is on another node.
abbrev pub IsApart : Map Disk → ℕ → ℕ → ShardSlot → Type 0
IsApart disks index node s =
    (slot_index s ≡ index)
    ⊎ ((lookup s.disk_id disks ≡ none)
        ⊎ ((d : Disk) × (lookup s.disk_id disks ≡ some d) × (d.node_id ≢ node)))

split : (a : Bool) {b : Bool} → (if a then true else b) ≡ false → (a ≡ false) × (b ≡ false)
split true h = cc
split false h = (refl, h)

other_domains-IsApart :
    (disks : Map Disk) (index node : ℕ) (slots : List ShardSlot)
    → any (λ s. s.node_id == node) (other_domains disks index slots) ≡ false
    → All (IsApart disks index node) slots
unfolding other_domains
other_domains-IsApart disks index node [] h = tt
other_domains-IsApart disks index node (s ∷ slots) h = elim (Bool-cases (slot_index s == index)) [
  | inl e ↦ (inl (ground arith), other_domains-IsApart disks index node slots (rw e at h))
  | inr e ↦ elim (Option-cases (lookup s.disk_id disks)) [
    | inl f ↦ (inr (inl f), other_domains-IsApart disks index node slots (rw f at (rw e at h)))
    | inr (d, f) ↦
        let (other, rest) = split (d.node_id == node) (rw f at (rw e at h)) in
        (inr (inr (d, f, ground arith)), other_domains-IsApart disks index node slots rest)
  ]
]

module _ (p : PdState) (chunk_id index new_disk : ℕ) (chunk : Chunk)
    (found : lookup chunk_id p.chunks.chunks ≡ some chunk) where
  gone :
      lookup new_disk p.disks.rows ≡ none
      → rebind_affinity_reject p chunk_id index new_disk ≡ some RejectReason.disk_unavailable
  gone e =
      unfold rebind_affinity_reject in
      rw (found, rebind_affinity_reject) (rw (e, rebind_affinity_reject) refl)

  checked :
      (target : Disk)
      → lookup new_disk p.disks.rows ≡ some target
      → rebind_affinity_reject p chunk_id index new_disk ≡ (
          if rebind_preserves_affinity
            (other_domains p.disks.rows index chunk.shards)
            (candidate_of new_disk target)
            host_aware
          then none
          else some RejectReason.affinity_violation)
  checked target e =
      unfold rebind_affinity_reject in
      rw (found, rebind_affinity_reject) (rw (e, rebind_affinity_reject) refl)

  passed : (a : Bool) → (if a then none else some RejectReason.affinity_violation) ≡ none → a ≡ true
  passed true h = refl
  passed false h = cc

  nodes_apart :
      (others : List SlotDomain) (target : DiskCandidate)
      → rebind_preserves_affinity others target host_aware ≡ true
      → any (λ s. s.node_id == target.node_id) others ≡ false
  unfolding rebind_preserves_affinity
  nodes_apart others target h = elim (Bool-cases (any (λ s. s.node_id == target.node_id) others)) [
    | inl e ↦ cc (rw e at h)
    | inr e ↦ e
  ]

  -- A rebind that passes the affinity check of a chunk that is there goes to a registered disk, and
  -- every other slot of the chunk is on another node.
  pub rebind_affinity_reject-IsApart :
      rebind_affinity_reject p chunk_id index new_disk ≡ none
      → (target : Disk) × (lookup new_disk p.disks.rows ≡ some target)
        × All (IsApart p.disks.rows index target.node_id) chunk.shards
  rebind_affinity_reject-IsApart h = elim (Option-cases (lookup new_disk p.disks.rows)) [
    | inl e ↦ cc (h, gone e)
    | inr (target, e) ↦ (
      target,
      e,
      other_domains-IsApart p.disks.rows index target.node_id chunk.shards (
          nodes_apart (other_domains p.disks.rows index chunk.shards) (candidate_of new_disk target)
            (passed _ (sym (checked target e) ∙ h))),
    )
  ]
