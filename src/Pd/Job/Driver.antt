-- ===== src/Pd/Job/Driver.antt =====
-- Which coordinator the driver of crates/epoch-pd/src/job/driver.rs picks for a job, and which jobs
-- its sweep picks one for.
pub mod Dispatch
use epoch_io.Common.{
  ℕ, ◌≤◌, ◌≡◌, refl, sym, ap, subst, ◌∙◌, arith, Bool, true, false, not, ◌&&◌, Option, none, some,
  List, [], ◌∷◌, leb, ◌==◌, min, ◌+◌, ◌-◌, ◌^◌, if◌then◌else◌, retain, All, Occurs, Bool-cases, inl,
  inr, ◌⊎◌, map,
}
use epoch_io.Common.Map.{values}
use epoch_io.Common.Sort.{sort_by, sort_by-All}
use epoch_io.Pd.Node.{Node, is_live, contains_roles, data_role}
use epoch_io.Pd.Job.{Job, suspect_disk, needs_coordinator}
use epoch_io.Pd.Records.{Table}

-- `min_by_key(|id| id.get())`.
unfoldable pub least : List ℕ → Option ℕ
least [] = none
least (x ∷ xs) = elim (least xs) [ none ↦ some x | some y ↦ if leb x y then some x else some y ]

unfoldable pub is_excluded : Option ℕ → ℕ → Bool
is_excluded none id = false
is_excluded (some e) id = id == e

unfoldable pub serves_data : Node → Bool
unfolding contains_roles
serves_data n = is_live n.status && contains_roles n.roles data_role

unfoldable pub candidates : List Node → Option ℕ → List ℕ
unfolding is_excluded serves_data
candidates nodes exclude =
    retain (λ id. not (is_excluded exclude id)) (map (λ n. n.node_id) (retain serves_data nodes))

unfoldable pub pick_coordinator : List Node → Option ℕ → Option ℕ
unfolding least candidates
pick_coordinator nodes exclude = least (candidates nodes exclude)

-- `JOB_LEASE_MILLIS`.
abbrev pub job_lease_millis : ℕ
job_lease_millis = 30000

-- `JobManager::needing_coordinator` of job/mod.rs.
unfoldable pub needing_coordinator : Table Job → ℕ → List Job
unfolding sort_by
needing_coordinator t now =
    sort_by (λ a b. leb a.id b.id) (retain (λ j. needs_coordinator j now) (values t.rows))

-- The node that `sweep` excludes; `disks` answers the node of a disk.
unfoldable pub excluded_node : (ℕ → Option ℕ) → Job → Option ℕ
excluded_node disks j = elim (suspect_disk j.kind) [ none ↦ none | some disk ↦ disks disk ]

pub record Proposal : Type 0 where
  pub job_id : ℕ
  pub coordinator : ℕ
  pub lease_expiry_millis : ℕ

-- One round of the loop of `sweep`: what it proposes, whatever becomes of the proposal.
unfoldable pub propose : ℕ → Job → Option ℕ → List Proposal → List Proposal
propose expiry j none rest = rest
propose expiry j (some node) rest =
    record { job_id = j.id; coordinator = node; lease_expiry_millis = expiry } ∷ rest

unfoldable pub proposals : (ℕ → Option ℕ) → List Node → ℕ → List Job → List Proposal
unfolding propose
proposals disks nodes expiry [] = []
proposals disks nodes expiry (j ∷ jobs) =
    propose expiry j (pick_coordinator nodes (excluded_node disks j))
      (proposals disks nodes expiry jobs)

unfoldable pub sweep : Bool → (ℕ → Option ℕ) → List Node → Table Job → ℕ → List Proposal
unfolding proposals
sweep is_leader disks nodes t now =
    if is_leader
    then proposals disks nodes (min (now + job_lease_millis) (2 ^ 64 - 1))
        (needing_coordinator t now)
    else []
