-- ===== src/Pd/MetaManager/Stray.antt =====
-- Routes of crates/epoch-pd/src/meta_mgr.rs for a namespace without partitions.
use epoch_io.Common.{ℕ, ◌≡◌, refl, sym, ap, ap₂, ◌∙◌, arith, true, false, some, List, ◌∷◌}
use epoch_io.Common.Lex.{lex_ltb, lex_ltb_irrefl}
use epoch_io.Common.Map.{lookup}
use epoch_io.Common.KeyMap.{floor, floor-greatest}
use epoch_io.Pd.Bucket.{NsMode}
use epoch_io.Pd.Partition.{MetaPartition, ns_tag, before_end, interval_contains, start_key}
use epoch_io.Pd.Partition.Starts.{start_coord, start_key-start_coord, lex_ltb-tail, lex_ltb-head_ge}
use epoch_io.Pd.MetaManager.{PartitionIndex, route}
use epoch_io.Pd.MetaManager.Tiled.{IsTiled}

open_before : (p : MetaPartition) (c : List ℕ) → p.end.unbounded ≡ true → before_end p c ≡ true
unfolding before_end
open_before p c e = rw e refl

module _ (x : PartitionIndex) (tiled : IsTiled x)
    (all_flat : (id : ℕ) (q : MetaPartition)
      → lookup id x.partitions ≡ some q
      → q.ns ≡ NsMode.flat) where
  flat_key :
      (id : ℕ) (q : MetaPartition)
      → lookup id x.partitions ≡ some q
      → start_key q ≡ 0 ∷ start_coord q
  unfolding ns_tag
  flat_key id q e = start_key-start_coord q ∙ ap (λ n. ns_tag n ∷ start_coord q) (all_flat id q e)

  strayed :
      (id : ℕ) (p : MetaPartition) (b : ℕ) (k : List ℕ)
      → lookup id x.partitions ≡ some p
      → p.end.unbounded ≡ true
      → floor (1 ∷ b ∷ k) x.by_start ≡ some id
  strayed id p b k found open_end =
      let below : lex_ltb (1 ∷ b ∷ k) (start_key p) ≡ false =
        ap (lex_ltb (1 ∷ b ∷ k)) (flat_key id p found) ∙ above_zero (b ∷ k) (start_coord p) in
      let (i, w, f, at, _, last) =
        floor-greatest (1 ∷ b ∷ k) (start_key p) id x.by_start tiled.rising
          (tiled.listed id p found) below in
      let (q, found_q, here) = tiled.known i w at in
      let behind : lex_ltb (start_coord q) (start_coord p) ≡ false =
        sym (lex_ltb-tail 0 (start_coord q) (start_coord p))
        ∙ ap₂ lex_ltb (sym (flat_key w q found_q) ∙ here) (sym (flat_key id p found))
        ∙ last in
      let same : w ≡ id =
        tiled.apart w id q p (start_coord q) found_q found
          (all_flat w q found_q ∙ sym (all_flat id p found))
          (lex_ltb_irrefl (start_coord q), (tiled.own w q found_q).2)
          (behind, open_before p (start_coord q) open_end) in
      f ∙ ap some same
    where
      above_zero : (c d : List ℕ) → lex_ltb (1 ∷ c) (0 ∷ d) ≡ false
      above_zero c d = lex_ltb-head_ge 1 0 c d (omega arith)

  -- In a table whose partitions do not overlap and are all flat, a coordinate is routed, in the
  -- hierarchical namespace, to the flat partition with an open end, if that contains the
  -- coordinate.
  pub route-stray :
      (id : ℕ) (p : MetaPartition) (b : ℕ) (k : List ℕ)
      → lookup id x.partitions ≡ some p
      → p.end.unbounded ≡ true
      → interval_contains p b k ≡ true
      → route NsMode.hier b k x ≡ some p
  unfolding ns_tag
  route-stray id p b k found open_end inside =
      let at = strayed id p b k found open_end in
      unfold route in rw (at, route) (rw (found, route) (rw (inside, route) refl))
