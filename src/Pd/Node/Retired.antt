-- ===== src/Pd/Node/Retired.antt =====
-- What becomes of a node of crates/epoch-pd/src/cluster/node.rs that was decommissioned or removed.
use epoch_io.Common.{
  ℕ, ◌<◌, ◌≡◌, ◌≢◌, refl, sym, ap, subst, ◌∙◌, arith, true, some, inl, inr, ◌==◌, Bool-cases,
}
use epoch_io.Common.Map.{lookup, insert, lookup-insert_self, lookup-insert_ne}
use epoch_io.Pd.Records.{Codec, Table, Pending}
use epoch_io.Pd.Records.Unique.{remove-found}
use epoch_io.Pd.Node.{Node, NodeStatus, decommissioned, can_transition_to}
use epoch_io.Pd.Node.Manager.{new_node}
use epoch_io.Pd.Node.Changes.{apply_register-cases, apply_update_status-cases, apply_remove-cases}
use epoch_io.Pd.Node.Lifecycle.{
  Step, Steps, register, update_status, remove_node, flush, begin, then_step,
}

module _ (codec : Codec Node) where
  -- The id was given out, and no node stands under it but a decommissioned one.
  abbrev pub IsRetired : ℕ → Table Node → Type 0
  IsRetired id t =
      (id < t.next_id) × ((n : Node) → lookup id t.rows ≡ some n → n.status ≡ decommissioned)

  terminal :
      (a b : NodeStatus) → a ≡ decommissioned → can_transition_to a b ≡ true → b ≡ decommissioned
  unfolding can_transition_to
  terminal a NodeStatus.decommissioned p h = refl
  terminal a NodeStatus.starting p h = cc (ap (λ x. can_transition_to x NodeStatus.starting) p, h)
  terminal a NodeStatus.live p h = cc (ap (λ x. can_transition_to x NodeStatus.live) p, h)
  terminal a NodeStatus.offline p h = cc (ap (λ x. can_transition_to x NodeStatus.offline) p, h)
  terminal a NodeStatus.lost p h = cc (ap (λ x. can_transition_to x NodeStatus.lost) p, h)

  Step-IsRetired :
      (s s' : Pending Node) (id : ℕ)
      → Step codec s s'
      → IsRetired id s.index
      → IsRetired id s'.index
  Step-IsRetired s _ id (flush _) r = r
  Step-IsRetired s _ id (register opened cmd _) (lt, old) =
      elim (apply_register-cases codec s opened cmd) [
        | inl (j, f, e) ↦ subst (λ x. IsRetired id x.0.index) (sym e) (lt, old)
        | inr (inl (bytes, f, h, v, e)) ↦
            let ne : id ≢ s.index.next_id = λ p. absurd (omega arith) in
            subst (λ x. IsRetired id x.0.index) (sym e)
              (
                omega arith,
                λ n q. old n (
                    sym (
                      lookup-insert_ne s.index.next_id id (new_node s.index.next_id cmd)
                        s.index.rows ne)
                    ∙ q),
              )
        | inr (inr (x, e)) ↦ subst (λ x. IsRetired id x.0.index) (sym e) (lt, old)
      ]
  Step-IsRetired s _ id (update_status opened j status _ h) (lt, old) =
      elim (apply_update_status-cases codec s opened j status) [
        | inr e ↦ subst (λ x. IsRetired id x.index) (sym e) (lt, old)
        | inl (m, bytes, f, t, v, e) ↦
            subst (λ x. IsRetired id x.0.index) (sym e) (lt, insert_retired m f t)
      ]
    where
      insert_retired :
          (m : Node)
          → lookup j s.index.rows ≡ some m
          → can_transition_to m.status status ≡ true
          → (n : Node) → lookup id (insert j (record m { status = status }) s.index.rows) ≡ some n
          → n.status ≡ decommissioned
      insert_retired m f t n q = elim (Bool-cases (id == j)) [
        | inl a ↦
            let at : id ≡ j = ground arith in
            let was = old m (ap (λ x. lookup x s.index.rows) at ∙ f) in
            let r : Node = record m { status = status } in
            let same : r ≡ n = cc (
              q,
              ap (λ x. lookup x (insert j r s.index.rows)) at,
              lookup-insert_self j r s.index.rows,
            ) in
            sym (ap (λ x. x.status) same) ∙ terminal m.status status was t
        | inr a ↦
            let ne : id ≢ j = ground arith in
            old n (sym (lookup-insert_ne j id (record m { status = status }) s.index.rows ne) ∙ q)
      ]
  Step-IsRetired s _ id (remove_node opened j _ h) (lt, old) =
      elim (apply_remove-cases codec s opened j) [
        | inr e ↦ subst (λ x. IsRetired id x.index) (sym e) (lt, old)
        | inl (m, f, t, e) ↦
            subst (λ x. IsRetired id x.0.index) (sym e)
              (lt, λ n q. old n (remove-found j id n s.index.rows q))
      ]

  -- Through any run of commands a node that was decommissioned or removed does not come back:
  -- its id, which was given out, stands for no node again, or for a decommissioned one.
  pub Steps-IsRetired :
      (s s' : Pending Node) (id : ℕ)
      → Steps codec s s'
      → IsRetired id s.index
      → IsRetired id s'.index
  Steps-IsRetired s _ id begin r = r
  Steps-IsRetired s _ id (then_step t s' run st) r =
      Step-IsRetired t s' id st (Steps-IsRetired s t id run r)
