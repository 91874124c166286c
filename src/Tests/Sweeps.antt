-- ===== src/Tests/Sweeps.antt =====
-- One sweep of the job driver: a repair of a disk of the first node, over two live data nodes.
use epoch_io.Common.{ℕ, ◌≤◌, ◌≡◌, refl, true, false, none, some, List, [], ◌∷◌, All, Occurs, ◌⊎◌}
use epoch_io.Common.Map.{values}
use epoch_io.Common.Sort.{insert_by, sort_by}
use epoch_io.Pd.Node.{Node, NodeStatus, contains_roles}
use epoch_io.Pd.Records.{Table}
use epoch_io.Pd.Job.{Job, JobKind, JobState, suspect_disk, needs_coordinator}
use epoch_io.Pd.Job.Driver.{
  pick_coordinator, needing_coordinator, excluded_node, propose, proposals, sweep, least,
  candidates, is_excluded, serves_data,
}
use epoch_io.Pd.Job.Driver.Dispatch.{eligible, pick_coordinator-decides, IsApt, sweep-IsApt}

abbrev node_at : ℕ → NodeStatus → Node
node_at id status = record {
  node_id = id;
  addr = [];
  az = [];
  rack = [];
  roles = 5;
  status = status;
}

abbrev four_nodes : List Node
four_nodes =
    node_at 9 NodeStatus.live
    ∷ node_at 1 NodeStatus.live
    ∷ node_at 2 NodeStatus.offline
    ∷ node_at 6 NodeStatus.live
    ∷ []

abbrev repair : Job
repair = record {
  id = 3;
  kind = JobKind.repair_disk 8;
  state = JobState.created;
  coordinator = none;
  lease_expiry_millis = 0;
  progress_watermark = 0;
}

abbrev one_job : Table Job
one_job = record { rows = (3, repair) ∷ []; next_id = 4 }

swept :
    sweep true (λ disk. some 1) four_nodes one_job 100
    ≡ record { job_id = 3; coordinator = 6; lease_expiry_millis = 30100 } ∷ []
unfolding sweep proposals propose pick_coordinator least candidates serves_data is_excluded
    contains_roles excluded_node suspect_disk needing_coordinator needs_coordinator sort_by
    insert_by values
swept = refl

pick_coordinator-decides_example :
    ((id : ℕ) × (n : Node) × (pick_coordinator four_nodes (some 1) ≡ some id)
      × Occurs n four_nodes
      × (eligible (some 1) n ≡ true)
      × (n.node_id ≡ id)
      × All (λ m. (eligible (some 1) m ≡ false) ⊎ (id ≤ m.node_id)) four_nodes)
    ⊎ ((pick_coordinator four_nodes (some 1) ≡ none)
        × All (λ m. eligible (some 1) m ≡ false) four_nodes)
pick_coordinator-decides_example = pick_coordinator-decides four_nodes (some 1)

sweep-IsApt_example :
    All
      (IsApt (λ disk. some 1) four_nodes (values one_job.rows) 100)
      (sweep true (λ disk. some 1) four_nodes one_job 100)
sweep-IsApt_example = sweep-IsApt true (λ disk. some 1) four_nodes one_job 100
