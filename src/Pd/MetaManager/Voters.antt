-- ===== src/Pd/MetaManager/Voters.antt =====
-- The voter set after a migration of crates/epoch-pd/src/meta_mgr.rs.
use epoch_io.Common.{
  ℕ, ◌+◌, ◌≡◌, ◌≢◌, refl, sym, ap, ◌∙◌, arith, Bool, true, false, not, ◌&&◌, ◌||◌, none, some, List,
  [], ◌∷◌, ◌++◌, retain, ok, inl, inr, ◌⊎◌, Bool-cases, Option-cases, ◌==◌,
}
use epoch_io.Common.Map.{lookup, lookup-insert_self}
use epoch_io.Pd.Records.{Codec, open_cf}
use epoch_io.Pd.Partition.{MetaPartition, has_peer, swapped, is_empty}
use epoch_io.Pd.MetaManager.{Pending, set_peers, apply_migrate}

has_peer-retain :
    (n old : ℕ) (peers : List ℕ)
    → has_peer n (retain (λ p. not (p == old)) peers) ≡ (has_peer n peers && not (n == old))
has_peer-retain n old [] = refl
has_peer-retain n old (p ∷ peers) = elim (Bool-cases (p == old)) [
  | inl e ↦ rw e (ground (arith, has_peer-retain n old peers))
  | inr e ↦ rw e (ground (arith, has_peer-retain n old peers))
]

has_peer-append :
    (n m : ℕ) (peers : List ℕ) → has_peer n (peers ++ (m ∷ [])) ≡ (has_peer n peers || m == n)
has_peer-append n m [] = ground arith
has_peer-append n m (p ∷ peers) = ground (arith, has_peer-append n m peers)

-- The voters of a swap of two nodes are the new one and the others but the old one.
pub swapped-peers :
    (old new n : ℕ) (peers : List ℕ)
    → old ≢ new
    → has_peer n (swapped old new peers) ≡ (n == new || (has_peer n peers && not (n == old)))
unfolding swapped
swapped-peers old new n peers ne = elim (Bool-cases (n == new)) [
  | inl q ↦
      let here : n ≡ new = ground arith in
      let same : has_peer n peers ≡ has_peer new peers = ap (λ x. has_peer x peers) here in
      elim (Bool-cases (has_peer new peers)) [
        | inl e ↦ rw e (ground (arith, has_peer-retain n old peers, same))
        | inr e ↦ rw e (ground (arith, has_peer-append n new (retain (λ p. not (p == old)) peers)))
      ]
  | inr q ↦ elim (Bool-cases (has_peer new peers)) [
    | inl e ↦ rw e (ground (arith, has_peer-retain n old peers))
    | inr e ↦ rw e (
        ground (
          arith,
          has_peer-append n new (retain (λ p. not (p == old)) peers),
          has_peer-retain n old peers,
        ))
  ]
]

module _ (codec : Codec MetaPartition) (id old new : ℕ) (s : Pending) where
  answered_by :
      (opened : Bool) (peers : List ℕ) (p : MetaPartition) (answer : List ℕ)
      → (set_peers codec opened id peers p s).1 ≡ ok (some answer)
      → (answer ≡ peers)
        × (lookup id (set_peers codec opened id peers p s).0.index.partitions
            ≡ some (record p { peers = peers; epoch = p.epoch + 1 }))
  unfolding set_peers open_cf
  answered_by false peers p answer h = cc
  answered_by true peers p answer h =
      elim (Option-cases (codec.to_vec (record p { peers = peers; epoch = p.epoch + 1 }))) [
        | inl e ↦ cc (rw (e, set_peers) at h)
        | inr (bytes, e) ↦ (
          cc (rw (e, set_peers) at h),
          rw (e, set_peers) (lookup-insert_self id _ s.index.partitions),
        )
      ]

  apply_migrate-cases :
      (opened : Bool)
      → ((apply_migrate codec opened id old new s).1 ≡ ok none)
        ⊎ ((p : MetaPartition) × (lookup id s.index.partitions ≡ some p)
            × (apply_migrate codec opened id old new s
                ≡ set_peers codec opened id (swapped old new p.peers) p s))
  apply_migrate-cases opened = elim (Option-cases (lookup id s.index.partitions)) [
    | inl e ↦ inl (unfold apply_migrate in rw (e, apply_migrate) refl)
    | inr (p, e) ↦ elim (Bool-cases (has_peer new p.peers && not (has_peer old p.peers))) [
      | inl f ↦ inl (unfold apply_migrate in rw (e, apply_migrate) (rw (f, apply_migrate) refl))
      | inr f ↦ elim (Bool-cases (is_empty (swapped old new p.peers))) [
        | inl g ↦ inl (
            unfold apply_migrate in
            rw (e, apply_migrate) (rw (f, apply_migrate) (rw (g, apply_migrate) refl)))
        | inr g ↦ inr (
          p,
          e,
          (unfold apply_migrate in
              rw (e, apply_migrate) (rw (f, apply_migrate) (rw (g, apply_migrate) refl))),
        )
      ]
    ]
  ]

  -- An answered migration to another node answers the voters recorded under the next epoch: the new
  -- node is one, the old one is none, and of every other node nothing changes.
  pub apply_migrate-voters :
      (opened : Bool) (answer : List ℕ)
      → old ≢ new
      → (apply_migrate codec opened id old new s).1 ≡ ok (some answer)
      → (p : MetaPartition) × (lookup id s.index.partitions ≡ some p)
        × (lookup id (apply_migrate codec opened id old new s).0.index.partitions
            ≡ some (record p { peers = answer; epoch = p.epoch + 1 }))
        × (has_peer new answer ≡ true)
        × (has_peer old answer ≡ false)
        × ((n : ℕ) → n ≢ old → n ≢ new → has_peer n answer ≡ has_peer n p.peers)
  apply_migrate-voters opened answer ne h = elim (apply_migrate-cases opened) [
    | inl e ↦ cc (h, e)
    | inr (p, found, e) ↦
        let (same, recorded) =
          answered_by opened (swapped old new p.peers) p answer (sym (ap (λ r. r.1) e) ∙ h) in
        let peer : (n : ℕ)
            → has_peer n answer ≡ (n == new || (has_peer n p.peers && not (n == old))) =
          λ n. ap (has_peer n) same ∙ swapped-peers old new n p.peers ne in
        (
          p,
          found,
          ap (λ r. lookup id r.0.index.partitions) e
              ∙ recorded
              ∙ ap (λ x. some (record p { peers = x; epoch = p.epoch + 1 })) (sym same),
          peer new ∙ ground arith,
          peer old ∙ ground (arith, ne),
          λ n other out. peer n ∙ ground (arith, other, out),
        )
  ]
