-- ===== src/Pd/Node/Manager.antt =====
-- crates/epoch-pd/src/cluster/node.rs: the node manager. A handler takes the pending batch and the
-- index, and gives both back with its answer; `opened` tells whether the column family is there.
use epoch_io.Common.{
  ℕ, Bool, true, false, Option, none, some, List, [], ◌∷◌, ◌++◌, map, Result, ok, err,
  if◌then◌else◌, ◌==◌,
}
use epoch_io.Common.Bytes.{bytes_eq}
use epoch_io.Common.Map.{Map, lookup, insert, remove, values}
use epoch_io.Pd.Records.{
  SmError, delete, Entries, Cf, Codec, Table, Pending, open_cf, advance_counter, load_records,
  collect, record_key, stage_put_record, stage_put_counter, stage_clear, stage_records,
}
use epoch_io.Pd.Reject.{RejectReason, not_found, invalid_transition, not_removable}
use epoch_io.Pd.Node.{Node, NodeStatus, starting, decommissioned, can_transition_to}

pub record RegisterNode : Type 0 where
  pub addr : List ℕ
  pub az : List ℕ
  pub rack : List ℕ
  pub roles : ℕ

abbrev pub node_id_of : Node → ℕ
node_id_of n = n.node_id

-- `values().find(..)`.
unfoldable pub find_by_addr : List ℕ → Map Node → Option ℕ
find_by_addr addr [] = none
find_by_addr addr ((j, n) ∷ m) =
    if bytes_eq n.addr addr then some n.node_id else find_by_addr addr m

-- `==` of the statuses.
abbrev status_code : NodeStatus → ℕ
status_code NodeStatus.starting = 0
status_code NodeStatus.live = 1
status_code NodeStatus.offline = 2
status_code NodeStatus.lost = 3
status_code NodeStatus.decommissioned = 4

unfoldable pub same_status : NodeStatus → NodeStatus → Bool
same_status a b = status_code a == status_code b

abbrev pub new_node : ℕ → RegisterNode → Node
new_node id cmd = record {
  node_id = id;
  addr = cmd.addr;
  az = cmd.az;
  rack = cmd.rack;
  roles = cmd.roles;
  status = starting;
}

module _ (codec : Codec Node) (opened : Bool) where
  unfoldable pub restore : Entries → Table Node → Result SmError (Table Node)
  unfolding load_records
  restore es index = elim (load_records codec opened es) [
    | err e ↦ err e
    | ok (records, next_id) ↦
        ok (record { rows = collect node_id_of [] records; next_id = next_id })
  ]

  unfoldable pub apply_register : RegisterNode → Pending Node → Pending Node × Result SmError ℕ
  apply_register cmd s = elim (open_cf opened) [
    | err e ↦ (s, err e)
    | ok _ ↦ elim (find_by_addr cmd.addr s.index.rows) [
      | some existing ↦ (s, ok existing)
      | none ↦ elim (advance_counter s.index.next_id) [
        | err e ↦ (s, err e)
        | ok next_id ↦
            let node : Node = new_node s.index.next_id cmd in
            elim (stage_put_record codec s.batch Cf.node s.index.next_id node) [
              | err e ↦ (s, err e)
              | ok batch ↦ (
                record {
                  batch = stage_put_counter batch Cf.node next_id;
                  index = record {
                    rows = insert s.index.next_id node s.index.rows;
                    next_id = next_id;
                  };
                },
                ok s.index.next_id,
              )
            ]
      ]
    ]
  ]

  unfoldable pub set_status :
      ℕ → NodeStatus → Node → Pending Node → Pending Node × Result SmError (Option RejectReason)
  set_status id status current s =
      let updated : Node = record current { status = status } in
      elim (stage_put_record codec s.batch Cf.node id updated) [
        | err e ↦ (s, err e)
        | ok batch ↦ (
          record {
            batch = batch;
            index = record { rows = insert id updated s.index.rows; next_id = s.index.next_id };
          },
          ok none,
        )
      ]

  unfoldable pub apply_update_status :
      ℕ → NodeStatus → Pending Node → Pending Node × Result SmError (Option RejectReason)
  unfolding set_status
  apply_update_status id status s = elim (open_cf opened) [
    | err e ↦ (s, err e)
    | ok _ ↦ elim (lookup id s.index.rows) [
      | none ↦ (s, ok (some not_found))
      | some current ↦ elim (same_status current.status status) [
        | true ↦ (s, ok none)
        | false ↦ elim (can_transition_to current.status status) [
          | false ↦ (s, ok (some invalid_transition))
          | true ↦ set_status id status current s
        ]
      ]
    ]
  ]

  unfoldable pub apply_remove :
      ℕ → Pending Node → Pending Node × Result SmError (Option RejectReason)
  apply_remove id s = elim (open_cf opened) [
    | err e ↦ (s, err e)
    | ok _ ↦ elim (lookup id s.index.rows) [
      | none ↦ (s, ok (some not_found))
      | some current ↦ elim (same_status current.status decommissioned) [
        | false ↦ (s, ok (some not_removable))
        | true ↦ (
          record {
            batch = s.batch ++ (delete Cf.node (record_key id) ∷ []);
            index = record { rows = remove id s.index.rows; next_id = s.index.next_id };
          },
          ok none,
        )
      ]
    ]
  ]

  -- What an aborted install has staged by then is dropped with the batch.
  unfoldable pub stage_and_apply_snapshot :
      Entries → List Node → ℕ → Pending Node → Result SmError (Pending Node)
  unfolding stage_records
  stage_and_apply_snapshot es nodes next_id s = elim (open_cf opened) [
    | err e ↦ err e
    | ok _ ↦ elim (stage_records codec node_id_of Cf.node (stage_clear s.batch Cf.node es) nodes) [
      | err e ↦ err e
      | ok batch ↦ ok (record {
        batch = stage_put_counter batch Cf.node next_id;
        index = record { rows = collect node_id_of [] nodes; next_id = next_id };
      })
    ]
  ]

-- The read paths.
unfoldable pub snapshot_view : Table Node → List Node × ℕ
snapshot_view t = (values t.rows, t.next_id)

unfoldable pub contains : ℕ → Map Node → Bool
contains id m = elim (lookup id m) [ none ↦ false | some n ↦ true ]

unfoldable pub statuses : Table Node → List (ℕ × NodeStatus)
statuses t = map (λ n. (n.node_id, n.status)) (values t.rows)

unfoldable pub list : Table Node → List Node
list t = values t.rows
