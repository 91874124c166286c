-- ===== src/Pd/MetaManager/Splits.antt =====
-- The children of a split, and a created partition, beside the other partitions of
-- crates/epoch-pd/src/meta_mgr.rs.
use epoch_io.Common.{
  ℕ, ◌<◌, ◌≡◌, refl, sym, ap, ap₂, subst, ◌∙◌, Bool, true, false, not, ◌&&◌, ◌||◌, Option, none,
  some, List, [], ◌∷◌, Bool-cases, inl, inr, ◌⊎◌, ◌==◌, retain, find?,
}
use epoch_io.Common.Lex.{lex_ltb, lex_ltb_trans}
use epoch_io.Common.Map.{Map, lookup, insert, values, lookup-insert-cases}
use epoch_io.Pd.Bucket.{NsMode, same_ns}
use epoch_io.Pd.Partition.{
  PartitionBound, MetaPartition, CreatePartition, coord, before_end, is_inside, child_of, narrowed,
  new_partition, overlaps, find_overlap,
}
use epoch_io.Pd.Partition.Starts.{start_coord, both, from_not}
use epoch_io.Pd.MetaManager.{PartitionIndex, add_partition}
use epoch_io.Pd.MetaManager.Growth.{shrink-IsTiled, add-IsTiled}
use epoch_io.Pd.MetaManager.Tiled.{Holds, IsTiled, before_lt}

-- What is found nowhere is false of every value that is looked at.
find?-none :
    (P Q : MetaPartition → Bool) (j : ℕ) (q : MetaPartition) (m : Map MetaPartition)
    → find? P (retain Q (values m)) ≡ none
    → lookup j m ≡ some q
    → Q q ≡ true
    → P q ≡ false
unfolding lookup values
find?-none P Q j q [] h e t = cc
find?-none P Q j q ((i, w) ∷ m) h e t = elim (Bool-cases (Q w)) [
  | inr out ↦ find?-none P Q j q m (rw out at h) (next_entry (Bool-cases (j == i)) out) t
  | inl counts ↦ elim (Bool-cases (P w)) [
    | inl p ↦ cc (rw (counts, p) at h)
    | inr p ↦ elim (Bool-cases (j == i)) [
      | inl here ↦ let same : w ≡ q = cc (rw here at e) in ap P (sym same) ∙ p
      | inr away ↦ find?-none P Q j q m (rw p at (rw counts at h)) (rw away at e) t
    ]
  ]
]
  where
    next_entry : ((j == i) ≡ true) ⊎ ((j == i) ≡ false) → Q w ≡ false → lookup j m ≡ some q
    next_entry (inl here) out = let same : w ≡ q = cc (rw here at e) in cc (ap Q same, out, t)
    next_entry (inr away) out = rw away at e

same_ns_refl : (n : NsMode) → same_ns n n ≡ true
unfolding same_ns
same_ns_refl NsMode.flat = refl
same_ns_refl NsMode.hier = refl

-- A partition starts before another ends that shares a coordinate with it.
meets :
    (p q : MetaPartition) (c : List ℕ)
    → Holds p c
    → Holds q c
    → (q.end.unbounded || (p.start.unbounded || lex_ltb (coord p.start) (coord q.end))) ≡ true
unfolding before_end
meets p q c (ge, in_p) (ge_q, before) = elim (Bool-cases q.end.unbounded) [
  | inl e ↦ rw e refl
  | inr e ↦ elim (Bool-cases p.start.unbounded) [
    | inl u ↦ rw (e, u) refl
    | inr u ↦ rw (e, u) (before_lt c (coord p.start) (coord q.end) (rw u at ge) (rw e at before))
  ]
]

-- A partition that overlaps none of its namespace shares no coordinate with one.
pub find_overlap-none :
    (m : Map MetaPartition) (id : ℕ) (cmd : CreatePartition) (j : ℕ) (q : MetaPartition)
    (c : List ℕ)
    → find_overlap (values m) cmd.ns cmd.start cmd.end ≡ none
    → lookup j m ≡ some q
    → cmd.ns ≡ q.ns
    → Holds (new_partition id cmd) c
    → Holds q c
    → ⊥
unfolding find_overlap overlaps
find_overlap-none m id cmd j q c h found ns in_p in_q =
    let p : MetaPartition = new_partition id cmd in
    let apart : overlaps cmd.start cmd.end q ≡ false =
      find?-none (overlaps cmd.start cmd.end) (λ r. same_ns r.ns cmd.ns) j q m
        (nothing (find? (overlaps cmd.start cmd.end) (retain (λ r. same_ns r.ns cmd.ns) (values m)))
          h)
        found (ap (λ n. same_ns n cmd.ns) (sym ns) ∙ same_ns_refl cmd.ns) in
    let meet : overlaps cmd.start cmd.end q ≡ true =
      ap₂ (λ a b. a && b) (meets p q c in_p in_q) (meets q p c in_q in_p) in
    cc (apart, meet)
  where
    nothing :
        (o : Option MetaPartition)
        → (elim o as (λ x. Option ℕ) [ none ↦ none | some r ↦ some r.partition_id ]) ≡ none
        → o ≡ none
    nothing none e = refl
    nothing (some r) e = cc

-- The tags play no part.
pub retag-IsTiled :
    (x : PartitionIndex) (tag : ℕ) → IsTiled x → IsTiled (record x { next_ino_tag = tag })
retag-IsTiled x tag t = record {
  own = t.own;
  rising = t.rising;
  listed = t.listed;
  known = t.known;
  apart = t.apart;
}

module _ (x : PartitionIndex) (tiled : IsTiled x) (id next tag : ℕ) (at : PartitionBound)
    (parent : MetaPartition) (found : lookup id x.partitions ≡ some parent)
    (inside : is_inside at parent ≡ true) (least : lex_ltb (0 ∷ []) (coord at) ≡ true)
    (later : x.next_id < next) where
  bounds :
      (at.unbounded ≡ false)
      × (lex_ltb (start_coord parent) (coord at) ≡ true)
      × (before_end parent (coord at) ≡ true)
  unfolding is_inside before_end
  bounds =
      let (first, before) =
        both
          (not at.unbounded && (parent.start.unbounded || lex_ltb (coord parent.start) (coord at)))
          (parent.end.unbounded || lex_ltb (coord at) (coord parent.end)) inside in
      let (bounded, after) =
        both (not at.unbounded) (parent.start.unbounded || lex_ltb (coord parent.start) (coord at))
          first in
      (from_not at.unbounded bounded, above after (Bool-cases parent.start.unbounded), before)
    where
      above :
          (parent.start.unbounded || lex_ltb (coord parent.start) (coord at)) ≡ true
          → (parent.start.unbounded ≡ true) ⊎ (parent.start.unbounded ≡ false)
          → lex_ltb (start_coord parent) (coord at) ≡ true
      above h (inl u) = rw u least
      above h (inr u) = rw u (rw u at h)

  child_start : start_coord (child_of x.next_id at parent) ≡ coord at
  child_start = rw bounds.0 refl

  ends_at : (c : List ℕ) → before_end (narrowed at parent) c ≡ lex_ltb c (coord at)
  unfolding before_end
  ends_at c = rw bounds.0 refl

  narrowed-before_end :
      (c : List ℕ) → before_end (narrowed at parent) c ≡ true → before_end parent c ≡ true
  unfolding before_end
  narrowed-before_end c h = elim (Bool-cases parent.end.unbounded) [
    | inl e ↦ rw e refl
    | inr e ↦
        rw e
          (lex_ltb_trans c (coord at) (coord parent.end) (sym (ends_at c) ∙ h) (rw e at bounds.2))
  ]

  -- The parent holds what the child holds.
  parent_holds : (c : List ℕ) → Holds (child_of x.next_id at parent) c → Holds parent c
  unfolding before_end
  parent_holds c (ge, before) = (
    not_earlier (sym (ap (lex_ltb c) child_start) ∙ ge)
        (Bool-cases (lex_ltb c (start_coord parent))),
    before,
  )
    where
      not_earlier :
          lex_ltb c (coord at) ≡ false
          → (lex_ltb c (start_coord parent) ≡ true) ⊎ (lex_ltb c (start_coord parent) ≡ false)
          → lex_ltb c (start_coord parent) ≡ false
      not_earlier ge (inl e) = cc (lex_ltb_trans c (start_coord parent) (coord at) e bounds.1, ge)
      not_earlier ge (inr e) = e

  narrowed-IsTiled : IsTiled (record x { partitions = insert id (narrowed at parent) x.partitions })
  narrowed-IsTiled =
      shrink-IsTiled x tiled id parent (narrowed at parent) found refl refl refl
        (ends_at (start_coord parent) ∙ bounds.1) narrowed-before_end

  -- The parent narrowed to the boundary and the child behind it keep the table tiled.
  pub split-IsTiled : IsTiled (
      add_partition (child_of x.next_id at parent) (record x {
        next_id = next;
        next_ino_tag = tag;
        partitions = insert id (narrowed at parent) x.partitions;
      }))
  unfolding before_end
  split-IsTiled =
      add-IsTiled
        (record x { next_ino_tag = tag; partitions = insert id (narrowed at parent) x.partitions })
        (retag-IsTiled _ tag narrowed-IsTiled) (child_of x.next_id at parent) next refl later
        (ap (before_end parent) child_start ∙ bounds.2)
        (λ j q c e n h k. elim (lookup-insert-cases id j (narrowed at parent) q x.partitions e) [
          | inl (here, same) ↦ cc (
            sym (ap (lex_ltb c) child_start) ∙ h.0,
            sym (ends_at c) ∙ (subst (λ y. Holds y c) (sym same) k).1,
          )
          | inr (ne, there) ↦
              absurd (ne (tiled.apart j id q parent c there found (sym n) k (parent_holds c h)))
        ])
