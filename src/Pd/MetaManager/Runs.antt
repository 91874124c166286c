-- ===== src/Pd/MetaManager/Runs.antt =====
-- Runs of the commands of crates/epoch-pd/src/meta_mgr.rs, creations guarded as in
-- crates/epoch-pd/src/service.rs.
use epoch_io.Common.{
  ℕ, ◌+◌, ◌<◌, ◌≡◌, refl, sym, subst, arith, Bool, true, false, not, ◌&&◌, none, some, List, [],
  ◌∷◌, ok, inl, inr, Bool-cases, Option-cases, Result-cases, ltb, find?,
}
use epoch_io.Common.Lex.{lex_ltb}
use epoch_io.Common.Map.{lookup, insert, values}
use epoch_io.Pd.Records.{Codec, open_cf}
use epoch_io.Pd.Partition.{
  PartitionBound, MetaPartition, CreatePartition, coord, before_end, interval_contains, same_range,
  is_inside, new_partition, child_of, narrowed, has_peer, swapped, is_empty, find_overlap,
}
use epoch_io.Pd.Partition.Starts.{IsProper}
use epoch_io.Pd.MetaManager.{
  PartitionIndex, Pending, next_counter, next_tag, add_partition, stage_create, apply_create,
  stage_split, split_parent, apply_split, set_peers, apply_migrate, route, list,
}
use epoch_io.Pd.MetaManager.Growth.{shrink-IsTiled, add-IsTiled}
use epoch_io.Pd.MetaManager.Tiled.{IsTiled, route-finds}
use epoch_io.Pd.MetaManager.Splits.{find_overlap-none, split-IsTiled}

counted : (n m : ℕ) → next_counter n ≡ ok m → n < m
unfolding next_counter
counted n m h = elim (Bool-cases (ltb (n + 1) 18446744073709551616)) [
  | inl e ↦ let same : n + 1 ≡ m = cc (rw e at h) in omega (arith, same)
  | inr e ↦ cc (rw e at h)
]

module _ (codec : Codec MetaPartition) where
  -- One command, whatever it answers. The leader has found a creation to overlap no partition of its
  -- namespace and not to be empty, and the boundary of a split is not the least coordinate.
  pub data Step : Pending → Pending → Type 0 where
    create :
        (opened : Bool) (cmd : CreatePartition) (s : Pending)
        → find_overlap (list s.index) cmd.ns cmd.start cmd.end ≡ none
        → IsProper (new_partition s.index.next_id cmd)
        → Step s (apply_create codec opened cmd s).0
    split :
        (opened : Bool) (id : ℕ) (at : PartitionBound) (s : Pending)
        → lex_ltb (0 ∷ []) (coord at) ≡ true
        → Step s (apply_split codec opened id at s).0
    migrate :
        (opened : Bool) (id old new : ℕ) (s : Pending)
        → Step s (apply_migrate codec opened id old new s).0

  stage_create-index :
      (opened : Bool) (next : ℕ) (p : MetaPartition) (s : Pending)
      → (stage_create codec opened next p s).0.index ≡ s.index
  stage_create-index false next p s = unfold stage_create open_cf in refl
  stage_create-index true next p s = elim (Option-cases (codec.to_vec p)) [
    | inl e ↦ unfold stage_create open_cf in rw (e, stage_create) refl
    | inr (bytes, e) ↦ unfold stage_create open_cf in rw (e, stage_create) refl
  ]

  stage_split-index :
      (opened : Bool) (id : ℕ) (p q : MetaPartition) (tag : ℕ) (s : Pending)
      → (stage_split codec opened id p q tag s).0.index ≡ s.index
  stage_split-index false id p q tag s = unfold stage_split open_cf in refl
  stage_split-index true id p q tag s = elim (Option-cases (codec.to_vec p)) [
    | inl e ↦ unfold stage_split open_cf in rw (e, stage_split) refl
    | inr (bytes, e) ↦ elim (Option-cases (codec.to_vec q)) [
      | inl f ↦ unfold stage_split open_cf in rw (e, stage_split) (rw (f, stage_split) refl)
      | inr (more, f) ↦ unfold stage_split open_cf in rw (e, stage_split) (rw (f, stage_split) refl)
    ]
  ]

  create-IsTiled :
      (opened : Bool) (cmd : CreatePartition) (s : Pending)
      → IsTiled s.index
      → find_overlap (list s.index) cmd.ns cmd.start cmd.end ≡ none
      → IsProper (new_partition s.index.next_id cmd)
      → IsTiled (apply_create codec opened cmd s).0.index
  create-IsTiled opened cmd s tiled free proper =
      elim (Option-cases
        (find? (same_range cmd.ns cmd.start cmd.end) (values s.index.partitions))) [
          | inr (p, e) ↦ unfold apply_create in rw (e, apply_create) tiled
          | inl e ↦ elim (Result-cases (next_counter s.index.next_id)) [
            | inl (x, f) ↦ unfold apply_create in rw (e, apply_create) (rw (f, apply_create) tiled)
            | inr (next, f) ↦
                (unfold apply_create in
                  rw (e, apply_create)
                    (rw (f, apply_create)
                      (subst IsTiled
                        (sym (
                          stage_create-index opened next (new_partition s.index.next_id cmd)
                            (record {
                              batch = s.batch;
                              index =
                                  add_partition (new_partition s.index.next_id cmd)
                                    (record s.index { next_id = next });
                            })))
                        (add-IsTiled s.index tiled (new_partition s.index.next_id cmd) next refl
                          (counted s.index.next_id next f) proper
                          (λ j q c found ns h k.
                            find_overlap-none s.index.partitions s.index.next_id cmd j q c
                              (unfold list in free) found ns h k)))))
          ]
        ]

  later-IsTiled :
      (x : PartitionIndex) (next : ℕ)
      → IsTiled x
      → x.next_id < next
      → IsTiled (record x { next_id = next })
  later-IsTiled x next t lt = record {
    own = λ id p e.
        let (below, own, proper) = t.own id p e in (omega (arith, below, lt), own, proper);
    rising = t.rising;
    listed = t.listed;
    known = t.known;
    apart = t.apart;
  }

  split_parent-IsTiled :
      (opened : Bool) (id : ℕ) (at : PartitionBound) (parent : MetaPartition) (s : Pending)
      → IsTiled s.index
      → lookup id s.index.partitions ≡ some parent
      → is_inside at parent ≡ true
      → lex_ltb (0 ∷ []) (coord at) ≡ true
      → IsTiled (split_parent codec opened id at parent s).0.index
  split_parent-IsTiled opened id at parent s tiled found inside least =
      elim (Result-cases (next_counter s.index.next_id)) [
        | inl (x, e) ↦ unfold split_parent in rw (e, split_parent) tiled
        | inr (next, e) ↦
            let lt = counted s.index.next_id next e in
            elim (Result-cases (next_tag s.index.next_ino_tag)) [
              | inl (x, f) ↦
                  (unfold split_parent in
                    rw (e, split_parent)
                      (rw (f, split_parent) (later-IsTiled s.index next tiled lt)))
              | inr (tag, f) ↦
                  (unfold split_parent in
                    rw (e, split_parent)
                      (rw (f, split_parent)
                        (subst IsTiled
                          (sym (
                            stage_split-index opened id (narrowed at parent)
                              (child_of s.index.next_id at parent) s.index.next_ino_tag
                              (split_index next tag)))
                          (split-IsTiled s.index tiled id next tag at parent found inside least
                            lt))))
            ]
      ]
    where
      split_index : ℕ → ℕ → Pending
      split_index next tag = record {
        batch = s.batch;
        index = add_partition (child_of s.index.next_id at parent) (record s.index {
          next_id = next;
          next_ino_tag = tag;
          partitions = insert id (narrowed at parent) s.index.partitions;
        });
      }

  abbrev with_peers : List ℕ → MetaPartition → MetaPartition
  with_peers peers p = record p { peers = peers; epoch = p.epoch + 1 }

  set_peers-index :
      (opened : Bool) (id : ℕ) (peers : List ℕ) (p : MetaPartition) (s : Pending)
      → (set_peers codec opened id peers p s).0.index
        ≡ record s.index { partitions = insert id (with_peers peers p) s.index.partitions }
  set_peers-index false id peers p s = unfold set_peers open_cf in refl
  set_peers-index true id peers p s = elim (Option-cases (codec.to_vec (with_peers peers p))) [
    | inl e ↦ unfold set_peers open_cf in rw (e, set_peers) refl
    | inr (bytes, e) ↦ unfold set_peers open_cf in rw (e, set_peers) refl
  ]

  set_peers-IsTiled :
      (opened : Bool) (id : ℕ) (peers : List ℕ) (p : MetaPartition) (s : Pending)
      → IsTiled s.index
      → lookup id s.index.partitions ≡ some p
      → IsTiled (set_peers codec opened id peers p s).0.index
  unfolding before_end
  set_peers-IsTiled opened id peers p s tiled found =
      subst IsTiled (sym (set_peers-index opened id peers p s)) (
        shrink-IsTiled s.index tiled id p (with_peers peers p) found refl refl refl
          (tiled.own id p found).2 (λ c h. h))

  -- A tiled table stays tiled under every guarded command, whether it is answered or fails.
  pub Step-IsTiled : (s s' : Pending) → Step s s' → IsTiled s.index → IsTiled s'.index
  Step-IsTiled s _ (create opened cmd _ free proper) tiled =
      create-IsTiled opened cmd s tiled free proper
  Step-IsTiled s _ (split opened id at _ least) tiled =
      elim (Option-cases (lookup id s.index.partitions)) [
        | inl e ↦ unfold apply_split in rw (e, apply_split) tiled
        | inr (parent, e) ↦ elim (Bool-cases (is_inside at parent)) [
          | inr f ↦ unfold apply_split in rw (e, apply_split) (rw (f, apply_split) tiled)
          | inl f ↦
              (unfold apply_split in
                rw (e, apply_split)
                  (rw (f, apply_split)
                    (split_parent-IsTiled opened id at parent s tiled e f least)))
        ]
      ]
  Step-IsTiled s _ (migrate opened id old new _) tiled =
      elim (Option-cases (lookup id s.index.partitions)) [
        | inl e ↦ unfold apply_migrate in rw (e, apply_migrate) tiled
        | inr (p, e) ↦ elim (Bool-cases (has_peer new p.peers && not (has_peer old p.peers))) [
          | inl f ↦ unfold apply_migrate in rw (e, apply_migrate) (rw (f, apply_migrate) tiled)
          | inr f ↦ elim (Bool-cases (is_empty (swapped old new p.peers))) [
            | inl g ↦
                (unfold apply_migrate in
                  rw (e, apply_migrate) (rw (f, apply_migrate) (rw (g, apply_migrate) tiled)))
            | inr g ↦
                (unfold apply_migrate in
                  rw (e, apply_migrate)
                    (rw (f, apply_migrate)
                      (rw (g, apply_migrate)
                        (set_peers-IsTiled opened id (swapped old new p.peers) p s tiled e))))
          ]
        ]
      ]

  pub data Steps (start : Pending) : Pending → Type 0 where
    begin : Steps start start
    then_step : (s s' : Pending) → Steps start s → Step s s' → Steps start s'

  pub Steps-IsTiled : (s s' : Pending) → Steps s s' → IsTiled s.index → IsTiled s'.index
  Steps-IsTiled s _ begin tiled = tiled
  Steps-IsTiled s _ (then_step t s' run step) tiled =
      Step-IsTiled t s' step (Steps-IsTiled s t run tiled)

  -- After every run of guarded commands from a table whose partitions do not overlap, a
  -- coordinate that a partition contains is routed to that partition in its namespace; a guarded
  -- creation overlaps no partition of its namespace and is not empty, and a guarded split is not
  -- at the least coordinate.
  pub Steps-routed :
      (s s' : Pending) (id : ℕ) (p : MetaPartition) (b : ℕ) (k : List ℕ)
      → Steps s s'
      → IsTiled s.index
      → lookup id s'.index.partitions ≡ some p
      → interval_contains p b k ≡ true
      → route p.ns b k s'.index ≡ some p
  Steps-routed s s' id p b k run tiled found inside =
      route-finds s'.index (Steps-IsTiled s s' run tiled) id p b k found inside
