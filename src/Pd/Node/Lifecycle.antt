-- ===== src/Pd/Node/Lifecycle.antt =====
-- What holds of the node manager of crates/epoch-pd/src/cluster/node.rs through any run of its commands.
use epoch_io.Common.{
  ℕ, ◌^◌, ◌<◌, ◌≡◌, ◌≢◌, refl, sym, ap, subst, ◌∙◌, Bool, true, none, some, List, [], ◌∷◌, suc, ok,
  inl, inr, ◌==◌, Bool-cases, Option-cases,
}
use epoch_io.Common.Bytes.{bytes_eq, bytes_eq→eq, bytes_eq_refl}
use epoch_io.Common.Map.{Map, lookup, lookup-insert_self, Ascending, lookup_first, lookup_behind}
use epoch_io.Pd.Records.{Codec, Cf, Table, Pending, open_cf}
use epoch_io.Pd.Records.Change.{Change-IsOwn, Change-Ascending, IsOwn}
use epoch_io.Pd.Records.Unique.{IsUnique, insert-IsUnique, remove-IsUnique}
use epoch_io.Pd.Node.{Node, NodeStatus}
use epoch_io.Pd.Node.Manager.{
  RegisterNode, node_id_of, new_node, find_by_addr, apply_register, apply_update_status,
  apply_remove,
}
use epoch_io.Pd.Node.Changes.{
  NodeChange, apply_register-cases, apply_update_status-cases, apply_remove-cases, register-Change,
  update_status-Change, remove-Change,
}

-- No node has the address.
find_by_addr-none :
    (addr : List ℕ) (m : Map Node) (k : ℕ) (n : Node)
    → find_by_addr addr m ≡ none
    → lookup k m ≡ some n
    → n.addr ≢ addr
unfolding find_by_addr lookup
find_by_addr-none addr [] k n h e p = cc
find_by_addr-none addr ((j, w) ∷ m) k n h e p = elim (Bool-cases (bytes_eq w.addr addr)) [
  | inl q ↦ cc (rw q at h)
  | inr q ↦ elim (Bool-cases (k == j)) [
    | inl r ↦
        let same : w ≡ n = cc (rw r at e) in
        cc (q, ap (λ x. bytes_eq x.addr addr) same, ap (λ x. bytes_eq x addr) p, bytes_eq_refl addr)
    | inr r ↦ find_by_addr-none addr m k n (rw q at h) (rw r at e) p
  ]
]

-- The node with the address that is found is in the map.
find_by_addr-some :
    (addr : List ℕ) (b : ℕ) (m : Map Node) (id : ℕ)
    → Ascending b m
    → find_by_addr addr m ≡ some id
    → (k : ℕ) × (n : Node) × (lookup k m ≡ some n) × (n.addr ≡ addr) × (n.node_id ≡ id)
unfolding find_by_addr
find_by_addr-some addr b [] id asc h = cc
find_by_addr-some addr b ((j, w) ∷ m) id (lo, asc) h = elim (Bool-cases (bytes_eq w.addr addr)) [
  | inl q ↦ (j, w, lookup_first j w m, bytes_eq→eq w.addr addr q, cc (rw q at h))
  | inr q ↦
      let (k, n, e, a, i) = find_by_addr-some addr (suc j) m id asc (rw q at h) in
      (k, n, lookup_behind b j k w n m (lo, asc) e, a, i)
]

abbrev addr_of : Node → List ℕ
addr_of n = n.addr

module _ (codec : Codec Node) where
  -- The index is in key order, every node under its own id, and no two nodes share an address.
  pub record IsSound (t : Table Node) : Type 0 where
    pub ordered : Ascending 0 t.rows
    pub own : IsOwn codec node_id_of Cf.node t
    pub addresses : IsUnique addr_of t.rows

  -- One command, answered or failed, or the batch written out.
  pub data Step : Pending Node → Pending Node → Type 0 where
    register :
        (opened : Bool) (cmd : RegisterNode) (s : Pending Node)
        → Step s (apply_register codec opened cmd s).0
    update_status :
        (opened : Bool) (id : ℕ) (status : NodeStatus) (s : Pending Node)
        → id < 2 ^ 32
        → Step s (apply_update_status codec opened id status s).0
    remove_node :
        (opened : Bool) (id : ℕ) (s : Pending Node)
        → id < 2 ^ 32
        → Step s (apply_remove codec opened id s).0
    flush : (s : Pending Node) → Step s (record { batch = []; index = s.index })

  pub data Steps (start : Pending Node) : Pending Node → Type 0 where
    begin : Steps start start
    then_step : (s s' : Pending Node) → Steps start s → Step s s' → Steps start s'

  changed :
      (s s' : Pending Node)
      → NodeChange codec s s'
      → IsSound s.index
      → IsUnique addr_of s'.index.rows
      → IsSound s'.index
  changed s s' c sound unique = record {
    ordered = Change-Ascending codec node_id_of Cf.node s s' c sound.ordered;
    own = Change-IsOwn codec node_id_of Cf.node s s' c sound.own;
    addresses = unique;
  }

  -- Any command keeps the index sound.
  pub Step-IsSound : (s s' : Pending Node) → Step s s' → IsSound s.index → IsSound s'.index
  Step-IsSound s _ (flush _) sound = sound
  Step-IsSound s _ (register opened cmd _) sound =
      changed s _ (register-Change codec s opened cmd) sound
        (elim (apply_register-cases codec s opened cmd) [
          | inl (id, f, e) ↦ subst (λ r. IsUnique addr_of r.0.index.rows) (sym e) sound.addresses
          | inr (inl (bytes, f, h, v, e)) ↦
              subst (λ r. IsUnique addr_of r.0.index.rows) (sym e)
                (insert-IsUnique addr_of s.index.next_id (new_node s.index.next_id cmd) s.index.rows
                  sound.addresses
                  (λ k n found p. absurd (find_by_addr-none cmd.addr s.index.rows k n f found p)))
          | inr (inr (x, e)) ↦ subst (λ r. IsUnique addr_of r.0.index.rows) (sym e) sound.addresses
        ])
  Step-IsSound s _ (update_status opened id status _ h) sound =
      changed s _ (update_status-Change codec s opened id status h) sound
        (elim (apply_update_status-cases codec s opened id status) [
          | inl (n, bytes, f, t, v, e) ↦
              subst (λ r. IsUnique addr_of r.0.index.rows) (sym e)
                (insert-IsUnique addr_of id (record n { status = status }) s.index.rows
                  sound.addresses (λ k m found p. sound.addresses k id m n found f p))
          | inr e ↦ subst (λ r. IsUnique addr_of r.index.rows) (sym e) sound.addresses
        ])
  Step-IsSound s _ (remove_node opened id _ h) sound =
      changed s _ (remove-Change codec s opened id h) sound
        (elim (apply_remove-cases codec s opened id) [
          | inl (n, f, q, e) ↦
              subst (λ r. IsUnique addr_of r.0.index.rows) (sym e)
                (remove-IsUnique addr_of id s.index.rows sound.addresses)
          | inr e ↦ subst (λ r. IsUnique addr_of r.index.rows) (sym e) sound.addresses
        ])

  -- In a sound index the address leads to the id.
  find_by_addr-IsSound :
      (t : Table Node) (k : ℕ) (n : Node)
      → IsSound t
      → lookup k t.rows ≡ some n
      → find_by_addr n.addr t.rows ≡ some k
  find_by_addr-IsSound t k n sound found = elim (Option-cases (find_by_addr n.addr t.rows)) [
    | inl e ↦ absurd (find_by_addr-none n.addr t.rows k n e found refl)
    | inr (id, e) ↦
        let (j, m, at, same, own) = find_by_addr-some n.addr 0 t.rows id sound.ordered e in
        let here : j ≡ k = sound.addresses j k m n at found same in
        let (_, key) = sound.own j m at in e ∙ ap some (sym own ∙ key ∙ here)
  ]

  register_known :
      (cmd : RegisterNode) (s : Pending Node) (id : ℕ)
      → find_by_addr cmd.addr s.index.rows ≡ some id
      → apply_register codec true cmd s ≡ (s, ok id)
  register_known cmd s id f = unfold apply_register open_cf in rw (f, apply_register)

  -- In a sound index, once a registration of an address is answered, registering it again
  -- changes nothing and answers the same id, whatever else the second request says.
  pub register_again :
      (cmd again : RegisterNode) (s : Pending Node) (id : ℕ)
      → IsSound s.index
      → again.addr ≡ cmd.addr
      → (apply_register codec true cmd s).1 ≡ ok id
      → apply_register codec true again (apply_register codec true cmd s).0
        ≡ ((apply_register codec true cmd s).0, ok id)
  register_again cmd again s id sound p h =
      register_known again _ id (ap (λ a. find_by_addr a rows') p ∙ known)
    where
      rows' : Map Node
      rows' = (apply_register codec true cmd s).0.index.rows

      known : find_by_addr cmd.addr rows' ≡ some id
      known = elim (apply_register-cases codec s true cmd) [
        | inl (j, f, e) ↦
            let same : j ≡ id = cc (h, ap (λ r. r.1) e) in
            ap (λ r. find_by_addr cmd.addr r.0.index.rows) e ∙ f ∙ ap some same
        | inr (inl (bytes, f, lt, v, e)) ↦
            let same : s.index.next_id ≡ id = cc (h, ap (λ r. r.1) e) in
            let node = new_node s.index.next_id cmd in
            find_by_addr-IsSound _ s.index.next_id node
              (Step-IsSound s _ (register true cmd s) sound)
              (ap (λ r. lookup s.index.next_id r.0.index.rows) e
                ∙ lookup-insert_self s.index.next_id node s.index.rows)
            ∙ ap some same
        | inr (inr (x, e)) ↦ cc (h, ap (λ r. r.1) e)
      ]

  -- The index is sound after every run of commands from a sound one.
  pub Steps-IsSound : (s s' : Pending Node) → Steps s s' → IsSound s.index → IsSound s'.index
  Steps-IsSound s _ begin sound = sound
  Steps-IsSound s _ (then_step t s' run st) sound =
      Step-IsSound t s' st (Steps-IsSound s t run sound)
