-- ===== src/Pd/MetaManager/Growth.antt =====
-- Changes of the route table of crates/epoch-pd/src/meta_mgr.rs that let no partitions overlap.
use epoch_io.Common.{
  ℕ, ◌<◌, ◌≡◌, ◌≢◌, refl, sym, ap, ap₂, subst, ◌∙◌, arith, true, false, some, List, ◌∷◌, Bool-cases,
  inl, inr, ◌==◌,
}
use epoch_io.Common.Bytes.{bytes_eq, bytes_eq→eq, bytes_eq_refl}
use epoch_io.Common.Lex.{lex_ltb, lex_ltb_irrefl}
use epoch_io.Common.Map.{lookup, insert, lookup-insert_self, lookup-insert_ne, lookup-insert-cases}
use epoch_io.Common.KeyMap.{
  at_key, at_key-insert_key_same, at_key-insert_key_other, insert_key-Rising,
}
use epoch_io.Pd.Partition.{MetaPartition, ns_tag, before_end, start_key}
use epoch_io.Pd.Partition.Starts.{start_coord, IsProper, start_key-start_coord, ns_tag-injective}
use epoch_io.Pd.MetaManager.{PartitionIndex, add_partition}
use epoch_io.Pd.MetaManager.Tiled.{Holds, IsTiled}

module _ (x : PartitionIndex) (tiled : IsTiled x) where
  same_key :
      (p q : MetaPartition)
      → p.ns ≡ q.ns
      → start_coord p ≡ start_coord q
      → start_key p ≡ start_key q
  same_key p q n s =
      start_key-start_coord p ∙ ap₂ (λ a b. ns_tag a ∷ b) n s ∙ sym (start_key-start_coord q)

  -- A partition in the place of one with the same id, namespace and start, and no later end.
  module _ (id : ℕ) (p q : MetaPartition) (found : lookup id x.partitions ≡ some p)
      (same_id : q.partition_id ≡ p.partition_id) (same_ns : q.ns ≡ p.ns)
      (same_start : start_coord q ≡ start_coord p) (proper : IsProper q)
      (within : (c : List ℕ) → before_end q c ≡ true → before_end p c ≡ true) where
    -- What stood there before.
    record Older (j : ℕ) (r : MetaPartition) : Type 0 where
      old : MetaPartition
      at : lookup j x.partitions ≡ some old
      ns : r.ns ≡ old.ns
      start : start_coord r ≡ start_coord old
      own_id : r.partition_id ≡ old.partition_id
      is_proper : IsProper r
      holds : (c : List ℕ) → Holds r c → Holds old c

    older : (j : ℕ) (r : MetaPartition) → lookup j (insert id q x.partitions) ≡ some r → Older j r
    older j r e = elim (lookup-insert-cases id j q r x.partitions e) [
      | inl (here, same) ↦ subst (Older j) same (record {
        old = p;
        at = ap (λ n. lookup n x.partitions) here ∙ found;
        ns = same_ns;
        start = same_start;
        own_id = same_id;
        is_proper = proper;
        holds = λ c h. (sym (ap (lex_ltb c) same_start) ∙ h.0, within c h.1);
      })
      | inr (ne, at) ↦ record {
        old = r;
        at = at;
        ns = refl;
        start = refl;
        own_id = refl;
        is_proper = (tiled.own j r at).2;
        holds = λ c h. h;
      }
    ]

    known_again :
        (k : List ℕ) (j : ℕ)
        → at_key k x.by_start ≡ some j
        → (r : MetaPartition) × (lookup j (insert id q x.partitions) ≡ some r) × (start_key r ≡ k)
    known_again k j e =
        let (r, at, key) = tiled.known k j e in
        elim (Bool-cases (j == id)) [
          | inl here ↦
              let there : j ≡ id = ground arith in
              let same : r ≡ p = cc (at, found, ap (λ n. lookup n x.partitions) there) in
              (
                q,
                ap (λ n. lookup n (insert id q x.partitions)) there
                    ∙ lookup-insert_self id q x.partitions,
                same_key q p same_ns same_start ∙ ap start_key (sym same) ∙ key,
              )
          | inr away ↦ (r, lookup-insert_ne id j q x.partitions (ground arith) ∙ at, key)
        ]

    pub shrink-IsTiled : IsTiled (record x { partitions = insert id q x.partitions })
    shrink-IsTiled = record {
      own = λ j r e.
          let o = older j r e in
          let (lt, own, _) = tiled.own j o.old o.at in (lt, o.own_id ∙ own, o.is_proper);
      rising = tiled.rising;
      listed = λ j r e.
          let o = older j r e in
          ap (λ k. at_key k x.by_start) (same_key r o.old o.ns o.start) ∙ tiled.listed j o.old o.at;
      known = known_again;
      apart = λ i j r s c e f n h k.
          let o = older i r e in
          let u = older j s f in
          tiled.apart i j o.old u.old c o.at u.at (sym o.ns ∙ n ∙ u.ns) (o.holds c h) (u.holds c k);
    }

  -- A new partition beside the others.
  module _ (p : MetaPartition) (next : ℕ) (own_id : p.partition_id ≡ x.next_id)
      (later : x.next_id < next) (proper : IsProper p)
      (free : (j : ℕ) (q : MetaPartition) (c : List ℕ)
        → lookup j x.partitions ≡ some q
        → p.ns ≡ q.ns
        → Holds p c
        → Holds q c
        → ⊥) where
    other_start :
        (j : ℕ) (r : MetaPartition)
        → lookup j x.partitions ≡ some r
        → bytes_eq (start_key r) (start_key p) ≡ false
    other_start j r e = elim (Bool-cases (bytes_eq (start_key r) (start_key p))) [
      | inr q ↦ q
      | inl q ↦
          let keys =
            sym (start_key-start_coord r)
            ∙ bytes_eq→eq (start_key r) (start_key p) q
            ∙ start_key-start_coord p in
          let ns = ns_tag-injective p.ns r.ns (sym (cc keys)) in
          let start : start_coord r ≡ start_coord p = cc keys in
          absurd (
            free j r (start_coord p) e ns (lex_ltb_irrefl (start_coord p), proper)
              (
                ap (lex_ltb (start_coord p)) start ∙ lex_ltb_irrefl (start_coord p),
                subst (λ c. before_end r c ≡ true) start (tiled.own j r e).2,
              ))
    ]

    pub add-IsTiled : IsTiled (add_partition p (record x { next_id = next }))
    unfolding add_partition
    add-IsTiled = record {
      own = λ j r e. elim (lookup-insert-cases p.partition_id j p r x.partitions e) [
        | inl (here, same) ↦ (
          omega (arith, here, own_id, later),
          ap (λ y. y.partition_id) (sym same) ∙ sym here,
          subst IsProper same proper,
        )
        | inr (ne, at) ↦ let (lt, own, is) = tiled.own j r at in (omega (arith, lt, later), own, is)
      ];
      rising = insert_key-Rising (start_key p) p.partition_id x.by_start tiled.rising;
      listed = λ j r e. elim (lookup-insert-cases p.partition_id j p r x.partitions e) [
        | inl (here, same) ↦
            at_key-insert_key_same (start_key p) (start_key r) p.partition_id x.by_start (
              ap (λ y. bytes_eq (start_key y) (start_key p)) (sym same)
              ∙ bytes_eq_refl (start_key p))
            ∙ ap some (sym here)
        | inr (ne, at) ↦
            at_key-insert_key_other (start_key p) (start_key r) p.partition_id x.by_start
              (other_start j r at)
            ∙ tiled.listed j r at
      ];
      known = λ k j e. elim (Bool-cases (bytes_eq k (start_key p))) [
        | inl q ↦
            let here : p.partition_id ≡ j =
              cc (sym (at_key-insert_key_same (start_key p) k p.partition_id x.by_start q) ∙ e) in
            (
              p,
              ap (λ n. lookup n (insert p.partition_id p x.partitions)) (sym here)
                  ∙ lookup-insert_self p.partition_id p x.partitions,
              sym (bytes_eq→eq k (start_key p) q),
            )
        | inr q ↦
            let (r, at, key) =
              tiled.known k j
                (sym (at_key-insert_key_other (start_key p) k p.partition_id x.by_start q) ∙ e) in
            let lt = (tiled.own j r at).0 in
            let ne : j ≢ p.partition_id = λ t. absurd (omega (arith, t, own_id, lt)) in
            (r, lookup-insert_ne p.partition_id j p x.partitions ne ∙ at, key)
      ];
      apart = λ i j r s c e f n h k.
          elim (lookup-insert-cases p.partition_id i p r x.partitions e) [
            | inl (here, same) ↦ elim (lookup-insert-cases p.partition_id j p s x.partitions f) [
              | inl (there, same') ↦ here ∙ sym there
              | inr (ne, at) ↦
                  absurd (
                    free j s c at (ap (λ y. y.ns) same ∙ n) (subst (λ y. Holds y c) (sym same) h) k)
            ]
            | inr (ne, at) ↦ elim (lookup-insert-cases p.partition_id j p s x.partitions f) [
              | inl (there, same) ↦ absurd (
                  free i r c at (ap (λ y. y.ns) same ∙ sym n) (subst (λ y. Holds y c) (sym same) k)
                    h)
              | inr (ne', at') ↦ tiled.apart i j r s c at at' n h k
            ]
          ];
    }
