-- ===== src/Pd/Disk/Lifecycle.antt =====
-- What holds of the disk manager of crates/epoch-pd/src/cluster/disk.rs through any run of its commands.
use epoch_io.Common.{
  ℕ, suc, ◌^◌, ◌<◌, ◌≡◌, ◌≢◌, refl, sym, ap, ap₂, subst, ◌∙◌, arith, Bool, true, ◌&&◌, none, some,
  List, [], ◌∷◌, ok, inl, inr, ◌==◌, Bool-cases, Option-cases,
}
use epoch_io.Common.Bytes.{bytes_eq, bytes_eq→eq, bytes_eq_refl}
use epoch_io.Common.Map.{Map, lookup, Ascending, lookup_first, lookup_behind}
use epoch_io.Pd.Records.{Codec, Cf, Table, Pending, open_cf}
use epoch_io.Pd.Records.Change.{Change-IsOwn, Change-Ascending, IsOwn}
use epoch_io.Pd.Records.Unique.{IsUnique, insert-IsUnique}
use epoch_io.Pd.Disk.{
  Disk, DiskStatus, RegisterDisk, disk_id_of, new_disk, find_by_node_path, apply_register,
  apply_update_status,
}
use epoch_io.Pd.Disk.Changes.{
  DiskChange, apply_register-cases, apply_update_status-cases, register-Change,
  update_status-Change,
}

-- The key of a registration: the node and the mount path.
abbrev pub place_of : Disk → ℕ × List ℕ
place_of d = (d.node_id, d.path)

same_place : (d : Disk) (node : ℕ) (path : List ℕ) → Bool
same_place d node path = d.node_id == node && bytes_eq d.path path

same_place_iff :
    (d : Disk) (node : ℕ) (path : List ℕ)
    → same_place d node path ≡ true
    → place_of d ≡ (node, path)
unfolding same_place
same_place_iff d node path h =
    let p : d.path ≡ path = bytes_eq→eq d.path path (ground arith) in ground (arith, p)

same_place_self : (d : Disk) → same_place d d.node_id d.path ≡ true
unfolding same_place
same_place_self d = ground (arith, bytes_eq_refl d.path)

find_by_node_path-none :
    (node : ℕ) (path : List ℕ) (m : Map Disk) (k : ℕ) (d : Disk)
    → find_by_node_path node path m ≡ none
    → lookup k m ≡ some d
    → place_of d ≢ (node, path)
unfolding find_by_node_path lookup same_place
find_by_node_path-none node path [] k d h e p = cc
find_by_node_path-none node path ((j, w) ∷ m) k d h e p =
    elim (Bool-cases (w.node_id == node && bytes_eq w.path path)) [
      | inl q ↦ cc (rw q at h)
      | inr q ↦ elim (Bool-cases (k == j)) [
        | inl r ↦
            let same : w ≡ d = cc (rw r at e) in
            cc (
              q,
              ap (λ x. same_place x node path) same,
              ap (λ x. same_place d x.0 x.1) p,
              same_place_self d,
            )
        | inr r ↦ find_by_node_path-none node path m k d (rw q at h) (rw r at e) p
      ]
    ]

find_by_node_path-some :
    (node : ℕ) (path : List ℕ) (b : ℕ) (m : Map Disk) (id : ℕ)
    → Ascending b m
    → find_by_node_path node path m ≡ some id
    → (k : ℕ) × (d : Disk) × (lookup k m ≡ some d) × (place_of d ≡ (node, path)) × (d.disk_id ≡ id)
unfolding find_by_node_path
find_by_node_path-some node path b [] id asc h = cc
find_by_node_path-some node path b ((j, w) ∷ m) id (lo, asc) h =
    elim (Bool-cases (w.node_id == node && bytes_eq w.path path)) [
      | inl q ↦ (
        j,
        w,
        lookup_first j w m,
        same_place_iff w node path (unfold same_place in q),
        cc (rw q at h),
      )
      | inr q ↦
          let (k, d, e, a, i) = find_by_node_path-some node path (suc j) m id asc (rw q at h) in
          (k, d, lookup_behind b j k w d m (lo, asc) e, a, i)
    ]

module _ (codec : Codec Disk) where
  -- The index is in key order, every disk under its own id, and no two disks of a node share a path.
  pub record IsSound (t : Table Disk) : Type 0 where
    pub ordered : Ascending 0 t.rows
    pub own : IsOwn codec disk_id_of Cf.disk t
    pub places : IsUnique place_of t.rows

  -- One command, answered or failed, or the batch written out.
  pub data Step : Pending Disk → Pending Disk → Type 0 where
    register :
        (opened : Bool) (cmd : RegisterDisk) (s : Pending Disk)
        → Step s (apply_register codec opened cmd s).0
    update_status :
        (opened : Bool) (id : ℕ) (status : DiskStatus) (s : Pending Disk)
        → id < 2 ^ 32
        → Step s (apply_update_status codec opened id status s).0
    flush : (s : Pending Disk) → Step s (record { batch = []; index = s.index })

  pub data Steps (start : Pending Disk) : Pending Disk → Type 0 where
    begin : Steps start start
    then_step : (s s' : Pending Disk) → Steps start s → Step s s' → Steps start s'

  changed :
      (s s' : Pending Disk)
      → DiskChange codec s s'
      → IsSound s.index
      → IsUnique place_of s'.index.rows
      → IsSound s'.index
  changed s s' c sound unique = record {
    ordered = Change-Ascending codec disk_id_of Cf.disk s s' c sound.ordered;
    own = Change-IsOwn codec disk_id_of Cf.disk s s' c sound.own;
    places = unique;
  }

  -- Any command keeps the index sound.
  pub Step-IsSound : (s s' : Pending Disk) → Step s s' → IsSound s.index → IsSound s'.index
  Step-IsSound s _ (flush _) sound = sound
  Step-IsSound s _ (register opened cmd _) sound =
      changed s _ (register-Change codec s opened cmd) sound
        (elim (apply_register-cases codec s opened cmd) [
          | inl (id, f, e) ↦ subst (λ r. IsUnique place_of r.0.index.rows) (sym e) sound.places
          | inr (inl (bytes, f, h, v, e)) ↦
              subst (λ r. IsUnique place_of r.0.index.rows) (sym e)
                (insert-IsUnique place_of s.index.next_id (new_disk s.index.next_id cmd)
                  s.index.rows sound.places
                  (λ k d found p.
                    absurd
                      (find_by_node_path-none cmd.node_id cmd.path s.index.rows k d f found p)))
          | inr (inr (x, e)) ↦ subst (λ r. IsUnique place_of r.0.index.rows) (sym e) sound.places
        ])
  Step-IsSound s _ (update_status opened id status _ h) sound =
      changed s _ (update_status-Change codec s opened id status h) sound
        (elim (apply_update_status-cases codec s opened id status) [
          | inl (d, bytes, f, t, v, e) ↦
              subst (λ r. IsUnique place_of r.0.index.rows) (sym e)
                (insert-IsUnique place_of id (record d { status = status }) s.index.rows
                  sound.places (λ k m found p. sound.places k id m d found f p))
          | inr e ↦ subst (λ r. IsUnique place_of r.index.rows) (sym e) sound.places
        ])

  -- The index is sound after every run of commands.
  pub Steps-IsSound : (s s' : Pending Disk) → Steps s s' → IsSound s.index → IsSound s'.index
  Steps-IsSound s _ begin sound = sound
  Steps-IsSound s _ (then_step t s' run st) sound =
      Step-IsSound t s' st (Steps-IsSound s t run sound)

  -- In a sound index the node and the path lead to the id.
  find_by_node_path-IsSound :
      (t : Table Disk) (k : ℕ) (d : Disk)
      → IsSound t
      → lookup k t.rows ≡ some d
      → find_by_node_path d.node_id d.path t.rows ≡ some k
  find_by_node_path-IsSound t k d sound found =
      elim (Option-cases (find_by_node_path d.node_id d.path t.rows)) [
        | inl e ↦ absurd (find_by_node_path-none d.node_id d.path t.rows k d e found refl)
        | inr (id, e) ↦
            let (j, m, at, same, own) =
              find_by_node_path-some d.node_id d.path 0 t.rows id sound.ordered e in
            let here : j ≡ k = sound.places j k m d at found same in
            let (_, key) = sound.own j m at in e ∙ ap some (sym own ∙ key ∙ here)
      ]

  register_known :
      (cmd : RegisterDisk) (s : Pending Disk) (id : ℕ)
      → find_by_node_path cmd.node_id cmd.path s.index.rows ≡ some id
      → apply_register codec true cmd s ≡ (s, ok id)
  register_known cmd s id f = unfold apply_register open_cf in rw (f, apply_register)

  -- In a sound index, registering a disk that stands in it, by its node and path, changes
  -- nothing and answers its id, whatever became of its status.
  register_known_disk :
      (s : Pending Disk) (k : ℕ) (d : Disk) (cmd : RegisterDisk)
      → IsSound s.index
      → lookup k s.index.rows ≡ some d
      → (cmd.node_id ≡ d.node_id) × (cmd.path ≡ d.path)
      → apply_register codec true cmd s ≡ (s, ok k)
  register_known_disk s k d cmd sound found (n, p) = register_known cmd s k (
      ap₂ (λ a b. find_by_node_path a b s.index.rows) n p
      ∙ find_by_node_path-IsSound s.index k d sound found)
