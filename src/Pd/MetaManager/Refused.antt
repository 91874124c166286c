-- ===== src/Pd/MetaManager/Refused.antt =====
-- Splits and migrations that crates/epoch-pd/src/meta_mgr.rs turns down.
use epoch_io.Common.{
  ℕ, ◌+◌, ◌≡◌, refl, true, not, ◌&&◌, none, List, ok, inl, inr, Bool-cases, Option-cases,
  Result-cases,
}
use epoch_io.Common.Map.{lookup}
use epoch_io.Pd.Records.{Codec, open_cf}
use epoch_io.Pd.Partition.{PartitionBound, MetaPartition, is_inside, has_peer, swapped, is_empty}
use epoch_io.Pd.MetaManager.{
  Pending, next_counter, next_tag, stage_split, split_parent, apply_split, set_peers, apply_migrate,
}

module _ (codec : Codec MetaPartition) where
  stage_split-answers :
      (id : ℕ) (p q : MetaPartition) (tag : ℕ) (s : Pending)
      → (stage_split codec true id p q tag s).1 ≡ ok none
      → ⊥
  unfolding stage_split open_cf
  stage_split-answers id p q tag s h = elim (Option-cases (codec.to_vec p)) [
    | inl e ↦ cc (rw (e, stage_split) at h)
    | inr (bytes, e) ↦ elim (Option-cases (codec.to_vec q)) [
      | inl f ↦ cc (rw (f, stage_split) at (rw (e, stage_split) at h))
      | inr (more, f) ↦ cc (rw (f, stage_split) at (rw (e, stage_split) at h))
    ]
  ]

  split_parent-answers :
      (id : ℕ) (at : PartitionBound) (p : MetaPartition) (s : Pending)
      → (split_parent codec true id at p s).1 ≡ ok none
      → ⊥
  unfolding split_parent
  split_parent-answers id at p s h = elim (Result-cases (next_counter s.index.next_id)) [
    | inl (x, e) ↦ cc (rw (e, split_parent) at h)
    | inr (next, e) ↦ elim (Result-cases (next_tag s.index.next_ino_tag)) [
      | inl (x, f) ↦ cc (rw (f, split_parent) at (rw (e, split_parent) at h))
      | inr (tag, f) ↦
          stage_split-answers id _ _ _ _ (rw (f, split_parent) at (rw (e, split_parent) at h))
    ]
  ]

  -- A split that is turned down has not touched the table.
  pub apply_split-none :
      (id : ℕ) (at : PartitionBound) (s : Pending)
      → (apply_split codec true id at s).1 ≡ ok none
      → (apply_split codec true id at s).0 ≡ s
  unfolding apply_split
  apply_split-none id at s h = elim (Option-cases (lookup id s.index.partitions)) [
    | inl e ↦ rw (e, apply_split) refl
    | inr (p, e) ↦ elim (Bool-cases (is_inside at p)) [
      | inr f ↦ rw (e, apply_split) (rw (f, apply_split) refl)
      | inl f ↦
          absurd
            (split_parent-answers id at p s (rw (f, apply_split) at (rw (e, apply_split) at h)))
    ]
  ]

  set_peers-answers :
      (id : ℕ) (peers : List ℕ) (p : MetaPartition) (s : Pending)
      → (set_peers codec true id peers p s).1 ≡ ok none
      → ⊥
  unfolding set_peers open_cf
  set_peers-answers id peers p s h =
      elim (Option-cases (codec.to_vec (record p { peers = peers; epoch = p.epoch + 1 }))) [
        | inl e ↦ cc (rw (e, set_peers) at h)
        | inr (bytes, e) ↦ cc (rw (e, set_peers) at h)
      ]

  -- And so with a migration.
  pub apply_migrate-none :
      (id old new : ℕ) (s : Pending)
      → (apply_migrate codec true id old new s).1 ≡ ok none
      → (apply_migrate codec true id old new s).0 ≡ s
  unfolding apply_migrate
  apply_migrate-none id old new s h = elim (Option-cases (lookup id s.index.partitions)) [
    | inl e ↦ rw (e, apply_migrate) refl
    | inr (p, e) ↦ elim (Bool-cases (has_peer new p.peers && not (has_peer old p.peers))) [
      | inl f ↦ rw (e, apply_migrate) (rw (f, apply_migrate) refl)
      | inr f ↦ elim (Bool-cases (is_empty (swapped old new p.peers))) [
        | inl g ↦ rw (e, apply_migrate) (rw (f, apply_migrate) (rw (g, apply_migrate) refl))
        | inr g ↦ absurd (
            set_peers-answers id (swapped old new p.peers) p s
              (rw (g, apply_migrate) at (rw (f, apply_migrate) at (rw (e, apply_migrate) at h))))
      ]
    ]
  ]
