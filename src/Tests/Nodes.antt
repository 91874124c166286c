-- ===== src/Tests/Nodes.antt =====
-- A serialiser of nodes, and the node manager at concrete inputs.
use epoch_io.Common.{
  ℕ, zero, suc, ◌^◌, ◌<◌, ◌≡◌, refl, sym, ap, ◌∙◌, arith, true, Option, none, some, List, [], ◌∷◌,
  ◌++◌, length, take, drop, ok,
}
use epoch_io.Common.Map.{lookup, insert}
use epoch_io.Pd.Records.{
  Bytes, Codec, Cf, Table, Pending, get, load_records, collect, advance_counter, open_cf,
  stage_put_record, stage_put_counter,
}
use epoch_io.Pd.Records.View.{Agrees}
use epoch_io.Pd.Node.{Node, NodeStatus}
use epoch_io.Pd.Node.Manager.{
  RegisterNode, node_id_of, find_by_addr, apply_register, apply_update_status, apply_remove,
}
use epoch_io.Pd.Node.Lifecycle.{
  IsSound, Steps, register, update_status, remove_node, begin, then_step, register_again,
}
use epoch_io.Pd.Node.Retired.{IsRetired, Steps-IsRetired}
use epoch_io.Pd.Node.Restart.{node-restored}
use epoch_io.Tests.ChunkCodec.{take_all, drop_all, some_or}
use epoch_io.Tests.MemStore.{mem_rocks, empty_db}

unfoldable pub node_status_tag : NodeStatus → ℕ
node_status_tag NodeStatus.starting = 0
node_status_tag NodeStatus.live = 1
node_status_tag NodeStatus.offline = 2
node_status_tag NodeStatus.lost = 3
node_status_tag NodeStatus.decommissioned = 4

unfoldable pub node_status_of : ℕ → NodeStatus
node_status_of zero = NodeStatus.starting
node_status_of (suc zero) = NodeStatus.live
node_status_of (suc (suc zero)) = NodeStatus.offline
node_status_of (suc (suc (suc zero))) = NodeStatus.lost
node_status_of (suc (suc (suc (suc n)))) = NodeStatus.decommissioned

node_status_back : (s : NodeStatus) → node_status_of (node_status_tag s) ≡ s
unfolding node_status_of node_status_tag
node_status_back NodeStatus.starting = refl
node_status_back NodeStatus.live = refl
node_status_back NodeStatus.offline = refl
node_status_back NodeStatus.lost = refl
node_status_back NodeStatus.decommissioned = refl

unfoldable pub write_node : Node → Option Bytes
write_node n = some (
    n.node_id
    ∷ n.roles
    ∷ node_status_tag n.status
    ∷ length n.addr
    ∷ length n.az
    ∷ (n.addr ++ (n.az ++ n.rack)))

unfoldable pub read_node : Bytes → Option Node
read_node (id ∷ roles ∷ status ∷ a ∷ z ∷ rest) = some (record {
  node_id = id;
  addr = take a rest;
  az = take z (drop a rest);
  rack = drop z (drop a rest);
  roles = roles;
  status = node_status_of status;
})
read_node other = none

pub node_back : (n : Node) (bytes : Bytes) → write_node n ≡ some bytes → read_node bytes ≡ some n
unfolding write_node read_node some_or
node_back n bytes e = ap (some_or read_node) (sym e) ∙ (λ i. some (record n {
  addr = take_all n.addr (n.az ++ n.rack) i;
  az = (ap (take (length n.az)) (drop_all n.addr (n.az ++ n.rack)) ∙ take_all n.az n.rack) i;
  rack = (ap (drop (length n.az)) (drop_all n.addr (n.az ++ n.rack)) ∙ drop_all n.az n.rack) i;
  status = node_status_back n.status i;
}))

abbrev pub node_codec : Codec Node
node_codec = record { to_vec = write_node; from_slice = read_node; read_back = node_back }

abbrev pub no_nodes : Table Node
no_nodes = record { rows = []; next_id = 1 }

abbrev no_batch : Pending Node
no_batch = record { batch = []; index = no_nodes }

abbrev pub a_node : RegisterNode
a_node = record { addr = 10 ∷ 1 ∷ []; az = 65 ∷ []; rack = 66 ∷ []; roles = 1 }

-- The same address from another rack.
abbrev a_node_moved : RegisterNode
a_node_moved = record { addr = 10 ∷ 1 ∷ []; az = 65 ∷ []; rack = 67 ∷ []; roles = 3 }

no_nodes-IsSound : IsSound node_codec no_nodes
unfolding lookup
no_nodes-IsSound = record { ordered = tt; own = λ k v e. cc; addresses = λ k j a b e f p. cc }

abbrev one_node : Pending Node
one_node = (apply_register node_codec true a_node no_batch).0

registered : (apply_register node_codec true a_node no_batch).1 ≡ ok 1
unfolding apply_register find_by_addr open_cf advance_counter stage_put_record stage_put_counter
    insert write_node node_status_tag
registered = refl

register_again_example : apply_register node_codec true a_node_moved one_node ≡ (one_node, ok 1)
register_again_example =
    register_again node_codec a_node a_node_moved no_batch 1 no_nodes-IsSound refl registered

-- A node that has left, still on the books, and the address of a new one.
abbrev left_node : Node
left_node = record {
  node_id = 1;
  addr = 10 ∷ 1 ∷ [];
  az = 65 ∷ [];
  rack = 66 ∷ [];
  roles = 1;
  status = NodeStatus.decommissioned;
}

abbrev one_left : Pending Node
one_left = record { batch = []; index = record { rows = (1, left_node) ∷ []; next_id = 2 } }

one_left-IsRetired : IsRetired node_codec 1 one_left.index
unfolding lookup
one_left-IsRetired =
    (omega arith, λ n e. let same : left_node ≡ n = cc e in sym (ap (λ m. m.status) same))

-- Back to live, removed, and registered again.
abbrev after_return : Pending Node
after_return = (apply_update_status node_codec true 1 NodeStatus.live one_left).0

abbrev after_removal : Pending Node
after_removal = (apply_remove node_codec true 1 after_return).0

left_run : Steps node_codec one_left (apply_register node_codec true a_node after_removal).0
left_run =
    then_step after_removal (apply_register node_codec true a_node after_removal).0
      (then_step after_return after_removal
        (then_step one_left after_return begin
          (update_status true 1 NodeStatus.live one_left (omega arith)))
        (remove_node true 1 after_return (omega arith)))
      (register true a_node after_removal)

Steps-IsRetired_example :
    IsRetired node_codec 1 (apply_register node_codec true a_node after_removal).0.index
Steps-IsRetired_example =
    Steps-IsRetired node_codec one_left (apply_register node_codec true a_node after_removal).0 1
      left_run one_left-IsRetired

empty-Agrees :
    Agrees node_codec node_id_of (λ k. get k (mem_rocks.entries empty_db Cf.node)) no_nodes
unfolding get lookup
empty-Agrees = record {
  in_range = omega arith;
  counter = refl;
  stored = λ k v e. cc;
  same = λ id h. refl;
}

node-restored_example :
    (rs : List Node) × (load_records node_codec true
        (mem_rocks.entries (mem_rocks.write empty_db one_node.batch) Cf.node)
      ≡ ok (rs, one_node.index.next_id))
    × ((id : ℕ)
        → id < 2 ^ 32
        → lookup id (collect node_id_of [] rs) ≡ lookup id one_node.index.rows)
node-restored_example =
    node-restored mem_rocks node_codec empty_db no_nodes one_node empty-Agrees
      (register true a_node no_batch)
