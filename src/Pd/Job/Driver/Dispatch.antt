-- ===== src/Pd/Job/Driver/Dispatch.antt =====
-- Whom the sweep of crates/epoch-pd/src/job/driver.rs dispatches a job to.
use epoch_io.Common.{
  ℕ, ◌≤◌, ◌≡◌, refl, sym, ap, subst, ◌∙◌, arith, Bool, true, false, not, ◌&&◌, Option, none, some,
  List, [], ◌∷◌, leb, min, ◌+◌, ◌-◌, ◌^◌, retain, All, Occurs, Bool-cases, inl, inr, ◌⊎◌,
}
use epoch_io.Common.Map.{values}
use epoch_io.Common.Sort.{sort_by-All}
use epoch_io.Pd.Node.{Node}
use epoch_io.Pd.Job.{Job, needs_coordinator}
use epoch_io.Pd.Records.{Table}
use epoch_io.Pd.Job.Driver.{
  least, is_excluded, serves_data, candidates, pick_coordinator, job_lease_millis,
  needing_coordinator, excluded_node, Proposal, propose, proposals, sweep,
}

abbrev pub eligible : Option ℕ → Node → Bool
eligible exclude n = serves_data n && not (is_excluded exclude n.node_id)

candidates_in :
    (n : Node) (nodes : List Node) (exclude : Option ℕ)
    → eligible exclude n ≡ true
    → candidates (n ∷ nodes) exclude ≡ n.node_id ∷ candidates nodes exclude
unfolding candidates
candidates_in n nodes exclude e = ground arith

candidates_out :
    (n : Node) (nodes : List Node) (exclude : Option ℕ)
    → eligible exclude n ≡ false
    → candidates (n ∷ nodes) exclude ≡ candidates nodes exclude
unfolding candidates
candidates_out n nodes exclude e = ground arith

All-mono :
    {A : Type 0} {P Q : A → Type 0} (f : (m : A) → P m → Q m) (nodes : List A)
    → All P nodes
    → All Q nodes
All-mono f [] h = tt
All-mono f (m ∷ nodes) (h, hs) = (f m h, All-mono f nodes hs)

below :
    (id first : ℕ) (exclude : Option ℕ)
    → first ≤ id
    → (m : Node) → (eligible exclude m ≡ false) ⊎ (id ≤ m.node_id)
    → (eligible exclude m ≡ false) ⊎ (first ≤ m.node_id)
below id first exclude le m (inl h) = inl h
below id first exclude le m (inr h) = inr (omega arith)

least_first : (x y : ℕ) (xs : List ℕ) → least xs ≡ some y → leb x y ≡ true → least (x ∷ xs) ≡ some x
unfolding least
least_first x y xs e le = rw e (rw le refl)

least_later :
    (x y : ℕ) (xs : List ℕ) → least xs ≡ some y → leb x y ≡ false → least (x ∷ xs) ≡ some y
unfolding least
least_later x y xs e gt = rw e (rw gt refl)

least_only : (x : ℕ) (xs : List ℕ) → least xs ≡ none → least (x ∷ xs) ≡ some x
unfolding least
least_only x xs e = rw e refl

-- The coordinator that is answered is the lowest of the nodes that may be one; without an answer there
-- is no such node.
pub pick_coordinator-decides :
    (nodes : List Node) (exclude : Option ℕ)
    → ((id : ℕ) × (n : Node) × (pick_coordinator nodes exclude ≡ some id)
        × Occurs n nodes
        × (eligible exclude n ≡ true)
        × (n.node_id ≡ id)
        × All (λ m. (eligible exclude m ≡ false) ⊎ (id ≤ m.node_id)) nodes)
      ⊎ ((pick_coordinator nodes exclude ≡ none) × All (λ m. eligible exclude m ≡ false) nodes)
unfolding pick_coordinator
pick_coordinator-decides [] exclude = inr (unfold candidates in unfold least in refl, tt)
pick_coordinator-decides (m ∷ nodes) exclude = elim (Bool-cases (eligible exclude m)) [
  | inr e ↦ elim (pick_coordinator-decides nodes exclude) [
    | inl (id, n, found, at, may, own, low) ↦
        inl (
          id,
          n,
          ap least (candidates_out m nodes exclude e) ∙ found,
          inr at,
          may,
          own,
          (inl e, low),
        )
    | inr (no_id, others) ↦ inr (ap least (candidates_out m nodes exclude e) ∙ no_id, (e, others))
  ]
  | inl e ↦ elim (pick_coordinator-decides nodes exclude) [
    | inl (id, n, found, at, may, own, low) ↦ elim (Bool-cases (leb m.node_id id)) [
      | inl le ↦ inl (
        m.node_id,
        m,
        ap least (candidates_in m nodes exclude e)
            ∙ least_first m.node_id id (candidates nodes exclude) found le,
        inl refl,
        e,
        refl,
        (inr (omega arith), All-mono (below id m.node_id exclude (ground arith)) nodes low),
      )
      | inr gt ↦ inl (
        id,
        n,
        ap least (candidates_in m nodes exclude e)
            ∙ least_later m.node_id id (candidates nodes exclude) found gt,
        inr at,
        may,
        own,
        (inr (ground arith), low),
      )
    ]
    | inr (no_id, others) ↦ inl (
      m.node_id,
      m,
      ap least (candidates_in m nodes exclude e)
          ∙ least_only m.node_id (candidates nodes exclude) no_id,
      inl refl,
      e,
      refl,
      (inr (omega arith), All-mono (λ k h. inl h) nodes others),
    )
  ]
]

-- A proposal for one of `jobs`, whose coordinator is a live data node and not that of its disk.
pub record IsApt (disks : ℕ → Option ℕ) (nodes : List Node) (jobs : List Job) (now : ℕ)
    (p : Proposal) : Type 0 where
  pub job : Job
  pub known : Occurs job jobs
  pub named : p.job_id ≡ job.id
  pub waiting : needs_coordinator job now ≡ true
  pub node : Node
  pub listed : Occurs node nodes
  pub chosen : p.coordinator ≡ node.node_id
  pub may : eligible (excluded_node disks job) node ≡ true

All-Occurs : {A : Type 0} (xs : List A) → All (λ x. Occurs x xs) xs
All-Occurs [] = tt
All-Occurs (x ∷ xs) = (inl refl, All-mono (λ y m. inr m) xs (All-Occurs xs))

abbrev IsWaiting : List Job → ℕ → Job → Type 0
IsWaiting jobs now j = Occurs j jobs × (needs_coordinator j now ≡ true)

retained-IsWaiting :
    (all jobs : List Job) (now : ℕ)
    → All (λ j. Occurs j all) jobs
    → All (IsWaiting all now) (retain (λ j. needs_coordinator j now) jobs)
retained-IsWaiting all [] now h = tt
retained-IsWaiting all (j ∷ jobs) now (h, hs) = elim (Bool-cases (needs_coordinator j now)) [
  | inl e ↦ rw e ((h, e), retained-IsWaiting all jobs now hs)
  | inr e ↦ rw e (retained-IsWaiting all jobs now hs)
]

module _ (disks : ℕ → Option ℕ) (nodes : List Node) (expiry : ℕ) (j : Job) (jobs : List Job) where
  proposals_picked :
      (id : ℕ)
      → pick_coordinator nodes (excluded_node disks j) ≡ some id
      → proposals disks nodes expiry (j ∷ jobs)
        ≡ record { job_id = j.id; coordinator = id; lease_expiry_millis = expiry }
          ∷ proposals disks nodes expiry jobs
  unfolding proposals propose
  proposals_picked id e = ap (λ o. propose expiry j o (proposals disks nodes expiry jobs)) e

  proposals_skipped :
      pick_coordinator nodes (excluded_node disks j) ≡ none
      → proposals disks nodes expiry (j ∷ jobs) ≡ proposals disks nodes expiry jobs
  unfolding proposals propose
  proposals_skipped e = ap (λ o. propose expiry j o (proposals disks nodes expiry jobs)) e

proposals-IsApt :
    (disks : ℕ → Option ℕ) (nodes : List Node) (expiry now : ℕ) (all jobs : List Job)
    → All (IsWaiting all now) jobs
    → All (IsApt disks nodes all now) (proposals disks nodes expiry jobs)
unfolding proposals
proposals-IsApt disks nodes expiry now all [] h = tt
proposals-IsApt disks nodes expiry now all (j ∷ jobs) ((known, waits), hs) =
    let rest = proposals-IsApt disks nodes expiry now all jobs hs in
    elim (pick_coordinator-decides nodes (excluded_node disks j)) [
      | inl (id, n, found, listed, may, own, low) ↦
          subst (All (IsApt disks nodes all now))
            (sym (proposals_picked disks nodes expiry j jobs id found))
            (
              record {
                job = j;
                known = known;
                named = refl;
                waiting = waits;
                node = n;
                listed = listed;
                chosen = sym own;
                may = may;
              },
              rest,
            )
      | inr (no_id, others) ↦
          subst (All (IsApt disks nodes all now))
            (sym (proposals_skipped disks nodes expiry j jobs no_id)) rest
    ]

-- Every proposal of a sweep is for a job of the table that awaits a coordinator, and names a listed
-- live data node other than the node of the disk that the job repairs or drops.
pub sweep-IsApt :
    (is_leader : Bool) (disks : ℕ → Option ℕ) (nodes : List Node) (t : Table Job) (now : ℕ)
    → All (IsApt disks nodes (values t.rows) now) (sweep is_leader disks nodes t now)
unfolding sweep needing_coordinator
sweep-IsApt false disks nodes t now = tt
sweep-IsApt true disks nodes t now =
    proposals-IsApt disks nodes (min (now + job_lease_millis) (2 ^ 64 - 1)) now (values t.rows)
      (needing_coordinator t now)
      (sort_by-All (λ a b. leb a.id b.id) (IsWaiting (values t.rows) now)
        (retain (λ j. needs_coordinator j now) (values t.rows))
        (retained-IsWaiting (values t.rows) (values t.rows) now (All-Occurs (values t.rows))))
