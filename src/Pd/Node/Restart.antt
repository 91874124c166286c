-- ===== src/Pd/Node/Restart.antt =====
-- Restarting the node manager of crates/epoch-pd/src/cluster/node.rs from the store.
use epoch_io.Common.{ℕ, ◌^◌, ◌<◌, ◌≡◌, refl, subst, true, List, [], ok}
use epoch_io.Common.Map.{lookup}
use epoch_io.Pd.Records.{Rocks, Codec, Cf, Table, Pending, get, load_records, collect}
use epoch_io.Pd.Records.View.{Agrees}
use epoch_io.Pd.Records.Change.{kept, Change-restored}
use epoch_io.Pd.Node.{Node}
use epoch_io.Pd.Node.Manager.{node_id_of}
use epoch_io.Pd.Node.Changes.{NodeChange, register-Change, update_status-Change, remove-Change}
use epoch_io.Pd.Node.Lifecycle.{Step, register, update_status, remove_node, flush}

module _ (codec : Codec Node) where
  pub Step-Change : (s s' : Pending Node) → Step codec s s' → s.batch ≡ [] → NodeChange codec s s'
  Step-Change s _ (register opened cmd _) h = register-Change codec s opened cmd
  Step-Change s _ (update_status opened id status _ lt) h =
      update_status-Change codec s opened id status lt
  Step-Change s _ (remove_node opened id _ lt) h = remove-Change codec s opened id lt
  Step-Change s _ (flush _) h =
      subst (λ b. NodeChange codec s (record { batch = b; index = s.index })) h kept

module _ (rocks : Rocks) (codec : Codec Node) where
  open rocks use {Db, entries, write}

  -- Of a store that agrees with the nodes of the manager, one node command and the write of its
  -- batch, whatever the command answered, leave a store from which loading gives the nodes and
  -- the next id of the manager.
  pub node-restored :
      (db : Db) (t : Table Node) (s : Pending Node)
      → Agrees codec node_id_of (λ k. get k (entries db Cf.node)) t
      → Step codec (record { batch = []; index = t }) s
      → (rs : List Node) × (load_records codec true (entries (write db s.batch) Cf.node)
          ≡ ok (rs, s.index.next_id))
        × ((id : ℕ) → id < 2 ^ 32 → lookup id (collect node_id_of [] rs) ≡ lookup id s.index.rows)
  node-restored db t s a step =
      Change-restored rocks codec node_id_of Cf.node db t s a
        (Step-Change codec (record { batch = []; index = t }) s step refl)
