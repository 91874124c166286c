-- ===== src/Pd/MetaManager/Tiled.antt =====
-- The route table of crates/epoch-pd/src/meta_mgr.rs when its partitions do not overlap.
use epoch_io.Common.{
  ℕ, ◌<◌, ◌≡◌, refl, sym, ap, ap₂, ◌∙◌, arith, true, false, some, List, ◌∷◌, Bool-cases, inl, inr,
}
use epoch_io.Common.Lex.{lex_ltb, lex_ltb_irrefl, lex_ltb_connex, lex_ltb_trans}
use epoch_io.Common.Map.{lookup}
use epoch_io.Common.KeyMap.{at_key, floor, Rising, floor-greatest}
use epoch_io.Pd.Partition.{MetaPartition, ns_tag, coord, before_end, interval_contains, start_key}
use epoch_io.Pd.Partition.Starts.{
  start_coord, IsProper, start_key-start_coord, interval_contains_parts, lex_ltb-tail,
  ns_tag-injective,
}
use epoch_io.Pd.MetaManager.{PartitionIndex, route}

-- The coordinate is in the partition.
abbrev pub Holds : MetaPartition → List ℕ → Type 0
Holds p c = (lex_ltb c (start_coord p) ≡ false) × (before_end p c ≡ true)

-- Every partition stands under its own id, below the next one, and has a coordinate; the route index
-- has each partition under its start, and nothing else; no coordinate of a namespace is in two.
pub record IsTiled (x : PartitionIndex) : Type 0 where
  pub own :
      (id : ℕ) (p : MetaPartition)
      → lookup id x.partitions ≡ some p
      → (id < x.next_id) × (p.partition_id ≡ id) × IsProper p
  pub rising : Rising x.by_start
  pub listed :
      (id : ℕ) (p : MetaPartition)
      → lookup id x.partitions ≡ some p
      → at_key (start_key p) x.by_start ≡ some id
  pub known :
      (k : List ℕ) (id : ℕ)
      → at_key k x.by_start ≡ some id
      → (p : MetaPartition) × (lookup id x.partitions ≡ some p) × (start_key p ≡ k)
  pub apart :
      (i j : ℕ) (p q : MetaPartition) (c : List ℕ)
      → lookup i x.partitions ≡ some p
      → lookup j x.partitions ≡ some q
      → p.ns ≡ q.ns
      → Holds p c
      → Holds q c
      → i ≡ j

-- What is not above a smaller one is smaller.
pub before_lt : (c s e : List ℕ) → lex_ltb c s ≡ false → lex_ltb c e ≡ true → lex_ltb s e ≡ true
before_lt c s e ge lt = elim (Bool-cases (lex_ltb s e)) [
  | inl q ↦ q
  | inr q ↦ elim (Bool-cases (lex_ltb s c)) [
    | inl r ↦ lex_ltb_trans s c e r lt
    | inr r ↦ ap (λ x. lex_ltb x e) (sym (lex_ltb_connex c s ge r)) ∙ lt
  ]
]

pub before_end_mono :
    (p : MetaPartition) (c d : List ℕ)
    → lex_ltb c d ≡ false
    → before_end p c ≡ true
    → before_end p d ≡ true
unfolding before_end
before_end_mono p c d ge h = elim (Bool-cases p.end.unbounded) [
  | inl e ↦ rw e refl
  | inr e ↦ rw e (before_lt c d (coord p.end) ge (rw e at h))
]

same_tag :
    (a b : ℕ) (c d e : List ℕ)
    → lex_ltb (a ∷ c) (b ∷ d) ≡ false
    → lex_ltb (b ∷ d) (a ∷ e) ≡ false
    → a ≡ b
unfolding lex_ltb
same_tag a b c d e h k = ground arith

module _ (x : PartitionIndex) (tiled : IsTiled x) where
  routed :
      (id : ℕ) (p : MetaPartition) (b : ℕ) (k : List ℕ)
      → lookup id x.partitions ≡ some p
      → Holds p (b ∷ k)
      → floor (ns_tag p.ns ∷ b ∷ k) x.by_start ≡ some id
  routed id p b k found (ge, before) =
      let key = start_key-start_coord p in
      let not_above : lex_ltb (ns_tag p.ns ∷ b ∷ k) (start_key p) ≡ false =
        ap (lex_ltb (ns_tag p.ns ∷ b ∷ k)) key
        ∙ lex_ltb-tail (ns_tag p.ns) (b ∷ k) (start_coord p)
        ∙ ge in
      let (i, w, f, at, ge_i, last) =
        floor-greatest (ns_tag p.ns ∷ b ∷ k) (start_key p) id x.by_start tiled.rising
          (tiled.listed id p found) not_above in
      let (q, found_q, here) = tiled.known i w at in
      let i_key : i ≡ ns_tag q.ns ∷ start_coord q = sym here ∙ start_key-start_coord q in
      let ge_q = ap (lex_ltb (ns_tag p.ns ∷ b ∷ k)) (sym i_key) ∙ ge_i in
      let last_q = ap₂ lex_ltb (sym i_key) (sym key) ∙ last in
      let tags =
        same_tag (ns_tag p.ns) (ns_tag q.ns) (b ∷ k) (start_coord q) (start_coord p) ge_q last_q in
      let same_ns = ns_tag-injective p.ns q.ns tags in
      let ge_c : lex_ltb (b ∷ k) (start_coord q) ≡ false =
        sym (lex_ltb-tail (ns_tag p.ns) (b ∷ k) (start_coord q))
        ∙ ap (λ t. lex_ltb (ns_tag p.ns ∷ b ∷ k) (t ∷ start_coord q)) tags
        ∙ ge_q in
      let last_c : lex_ltb (start_coord q) (start_coord p) ≡ false =
        sym (lex_ltb-tail (ns_tag p.ns) (start_coord q) (start_coord p))
        ∙ ap (λ t. lex_ltb (t ∷ start_coord q) (ns_tag p.ns ∷ start_coord p)) tags
        ∙ last_q in
      let same : w ≡ id =
        tiled.apart w id q p (start_coord q) found_q found (sym same_ns)
          (lex_ltb_irrefl (start_coord q), (tiled.own w q found_q).2)
          (last_c, before_end_mono p (b ∷ k) (start_coord q) ge_c before) in
      f ∙ ap some same

  -- Where no two partitions overlap, a coordinate is routed to the partition of the namespace whose
  -- interval contains it.
  pub route-finds :
      (id : ℕ) (p : MetaPartition) (b : ℕ) (k : List ℕ)
      → lookup id x.partitions ≡ some p
      → interval_contains p b k ≡ true
      → route p.ns b k x ≡ some p
  route-finds id p b k found inside =
      let at = routed id p b k found (interval_contains_parts p b k inside) in
      unfold route in rw (at, route) (rw (found, route) (rw (inside, route) refl))
