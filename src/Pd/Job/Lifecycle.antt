-- ===== src/Pd/Job/Lifecycle.antt =====
-- crates/epoch-pd/src/job/mod.rs: what an answered command does to the jobs of the index.
use epoch_io.Common.{
  ℕ, ◌+◌, ◌≤◌, ◌<◌, ◌≡◌, refl, sym, ap, subst, ◌∙◌, arith, Bool, true, false, Option, none, some,
  ok, inl, inr, ◌==◌, if◌then◌else◌, Bool-cases,
}
use epoch_io.Common.Map.{lookup, lookup-insert}
use epoch_io.Pd.Records.{Codec, Table}
use epoch_io.Pd.Job.{
  Job, JobKind, JobState, JobCommand, JobOutcome, created_job, Staged, apply, apply_create,
  apply_mutate, assigned, renewed, advanced, completed, is_running,
}
use epoch_io.Pd.Job.Cases.{Outcome, apply_mutate-cases, apply_create-cases, fresh_job}

abbrev pub changed : (Job → Job) → Option Job → Option Job
changed f none = none
changed f (some j) = some (f j)

abbrev pub rank : JobState → ℕ
rank JobState.created = 0
rank JobState.running = 1
rank JobState.done = 2

abbrev pub is_assign : JobCommand → Bool
is_assign (JobCommand.create kind) = false
is_assign (JobCommand.assign id node lease) = true
is_assign (JobCommand.renew_lease id lease) = false
is_assign (JobCommand.advance_watermark id watermark lease) = false
is_assign (JobCommand.complete id) = false

-- Every id in use has been handed out.
abbrev pub IsBelow : Table Job → Type 0
IsBelow t = (k : ℕ) (j : Job) → lookup k t.rows ≡ some j → k < t.next_id

-- How a job may change: it keeps its kind, its progress never shrinks, and only an assignment may
-- take its state back.
abbrev pub Grows : Bool → Job → Job → Type 0
Grows assigning j j' =
    (j'.id ≡ j.id)
    × (j'.kind ≡ j.kind)
    × (j.progress_watermark ≤ j'.progress_watermark)
    × (assigning ≡ false → rank j.state ≤ rank j'.state)

rank-le : (s : JobState) → rank s ≤ 2
rank-le JobState.created = omega arith
rank-le JobState.running = omega arith
rank-le JobState.done = omega arith

assigned-Grows : (node lease : ℕ) (j : Job) → Grows true j (assigned node lease j)
unfolding assigned
assigned-Grows node lease j = (refl, refl, omega arith, λ e. cc)

renewed-Grows : (lease : ℕ) (j : Job) → Grows false j (renewed lease j)
unfolding renewed
renewed-Grows lease j = elim (Bool-cases (is_running j.state)) [
  | inl e ↦ rw e (refl, refl, omega arith, λ _. omega arith)
  | inr e ↦ rw e (refl, refl, omega arith, λ _. omega arith)
]

advanced-Grows : (watermark lease : ℕ) (j : Job) → Grows false j (advanced watermark lease j)
unfolding advanced
advanced-Grows watermark lease j = (refl, refl, ground arith, λ _. omega arith)

completed-Grows : (j : Job) → Grows false j (completed j)
unfolding completed
completed-Grows j = (refl, refl, omega arith, λ _. rank-le j.state)

module _ (codec : Codec Job) (opened : Bool) where
  -- The index after an answered change of one job, and after an answered creation.
  pub lookup-apply_mutate :
      (id : ℕ) (mutate : Job → Job) (s : Staged) (out : JobOutcome) (k : ℕ)
      → (apply_mutate codec opened id mutate s).1 ≡ ok out
      → (lookup k (apply_mutate codec opened id mutate s).0.index.rows
          ≡ (if k == id then changed mutate (lookup k s.index.rows) else lookup k s.index.rows))
        × ((apply_mutate codec opened id mutate s).0.index.next_id ≡ s.index.next_id)
  lookup-apply_mutate id mutate s out k e = elim (apply_mutate-cases codec s opened id mutate) [
    | inl (inl (absent, r)) ↦
        rw r (ground (arith, absent, ap (λ t. lookup t s.index.rows) {x = k} {y = id}), refl)
    | inl (inr (j, bytes, found, written, r)) ↦
        rw r (lookup-insert id k (mutate j) s.index.rows ∙ ground (arith, found), refl)
    | inr (x, f) ↦ cc (e, f)
  ]

  pub lookup-apply_create :
      (kind : JobKind) (s : Staged) (out : JobOutcome) (k : ℕ)
      → (apply_create codec opened kind s).1 ≡ ok out
      → (lookup k (apply_create codec opened kind s).0.index.rows ≡ (
          if k == s.index.next_id
          then some (fresh_job s.index.next_id kind)
          else lookup k s.index.rows))
        × ((apply_create codec opened kind s).0.index.next_id ≡ s.index.next_id + 1)
        × (out ≡ created_job s.index.next_id)
  lookup-apply_create kind s out k e = elim (apply_create-cases codec s opened kind) [
    | inl (bytes, h, written, r) ↦ (
      ap (λ t. lookup k t.0.index.rows) r
          ∙ lookup-insert s.index.next_id k (fresh_job s.index.next_id kind) s.index.rows,
      ap (λ t. t.0.index.next_id) r,
      cc (e, ap (λ t. t.1) r),
    )
    | inr (x, f) ↦ cc (e, f)
  ]

  -- Where a job of the old index is after an answered change.
  abbrev Kept : Bool → Outcome → ℕ → Job → Type 0
  Kept assigning res k j = (j' : Job) × (lookup k res.0.index.rows ≡ some j') × Grows assigning j j'

  unchanged : (assigning : Bool) (j : Job) → Grows assigning j j
  unchanged assigning j = (refl, refl, omega arith, λ _. omega arith)

  mutate-Kept :
      (assigning : Bool) (id : ℕ) (mutate : Job → Job) (s : Staged) (out : JobOutcome) (k : ℕ)
      (j : Job)
      → ((i : Job) → Grows assigning i (mutate i))
      → lookup k s.index.rows ≡ some j
      → (apply_mutate codec opened id mutate s).1 ≡ ok out
      → Kept assigning (apply_mutate codec opened id mutate s) k j
  mutate-Kept assigning id mutate s out k j grows h e =
      let (l, _) = lookup-apply_mutate id mutate s out k e in
      elim (Bool-cases (k == id)) [
        | inl p ↦ (mutate j, l ∙ rw p (ap (changed mutate) h), grows j)
        | inr p ↦ (j, l ∙ rw p h, unchanged assigning j)
      ]

  create-Kept :
      (kind : JobKind) (s : Staged) (out : JobOutcome) (k : ℕ) (j : Job)
      → IsBelow s.index
      → lookup k s.index.rows ≡ some j
      → (apply_create codec opened kind s).1 ≡ ok out
      → Kept false (apply_create codec opened kind s) k j
  create-Kept kind s out k j below h e =
      let (l, _, _) = lookup-apply_create kind s out k e in
      let b = below k j h in
      let p : (k == s.index.next_id) ≡ false = ground arith in (j, l ∙ rw p h, unchanged false j)

  -- No answered command loses a job, changes its kind or takes back its progress, and none but an
  -- assignment takes back its state.
  pub apply-Grows :
      (c : JobCommand) (s : Staged) (out : JobOutcome) (k : ℕ) (j : Job)
      → IsBelow s.index
      → lookup k s.index.rows ≡ some j
      → (apply codec opened c s).1 ≡ ok out
      → (j' : Job) × (lookup k (apply codec opened c s).0.index.rows ≡ some j')
        × Grows (is_assign c) j j'
  unfolding apply
  apply-Grows (JobCommand.create kind) s out k j below h e = create-Kept kind s out k j below h e
  apply-Grows (JobCommand.assign id node lease) s out k j below h e =
      mutate-Kept true id (assigned node lease) s out k j (assigned-Grows node lease) h e
  apply-Grows (JobCommand.renew_lease id lease) s out k j below h e =
      mutate-Kept false id (renewed lease) s out k j (renewed-Grows lease) h e
  apply-Grows (JobCommand.advance_watermark id watermark lease) s out k j below h e =
      mutate-Kept false id (advanced watermark lease) s out k j (advanced-Grows watermark lease) h e
  apply-Grows (JobCommand.complete id) s out k j below h e =
      mutate-Kept false id completed s out k j completed-Grows h e

  mutate-IsBelow :
      (id : ℕ) (mutate : Job → Job) (s : Staged) (out : JobOutcome)
      → IsBelow s.index
      → (apply_mutate codec opened id mutate s).1 ≡ ok out
      → IsBelow (apply_mutate codec opened id mutate s).0.index
  mutate-IsBelow id mutate s out below e k j h =
      let (l, n) = lookup-apply_mutate id mutate s out k e in
      omega (arith, n, was (lookup k s.index.rows) refl l)
    where
      was :
          (o : Option Job)
          → lookup k s.index.rows ≡ o
          → lookup k (apply_mutate codec opened id mutate s).0.index.rows
            ≡ (if k == id then changed mutate (lookup k s.index.rows) else lookup k s.index.rows)
          → k < s.index.next_id
      was (some i) p l = below k i p
      was none p l = ground (arith, p, l, h)

  create-IsBelow :
      (kind : JobKind) (s : Staged) (out : JobOutcome)
      → IsBelow s.index
      → (apply_create codec opened kind s).1 ≡ ok out
      → IsBelow (apply_create codec opened kind s).0.index
  create-IsBelow kind s out below e k j h =
      let (l, n, _) = lookup-apply_create kind s out k e in
      elim (Bool-cases (k == s.index.next_id)) [
        | inl p ↦ ground (arith, n)
        | inr p ↦
            let old : lookup k s.index.rows ≡ some j = sym (l ∙ rw p) ∙ h in
            omega (arith, n, below k j old)
      ]

  -- Ids in use stay below the counter under every answered command.
  pub apply-IsBelow :
      (c : JobCommand) (s : Staged) (out : JobOutcome)
      → IsBelow s.index
      → (apply codec opened c s).1 ≡ ok out
      → IsBelow (apply codec opened c s).0.index
  unfolding apply
  apply-IsBelow (JobCommand.create kind) s out below e = create-IsBelow kind s out below e
  apply-IsBelow (JobCommand.assign id node lease) s out below e =
      mutate-IsBelow id (assigned node lease) s out below e
  apply-IsBelow (JobCommand.renew_lease id lease) s out below e =
      mutate-IsBelow id (renewed lease) s out below e
  apply-IsBelow (JobCommand.advance_watermark id watermark lease) s out below e =
      mutate-IsBelow id (advanced watermark lease) s out below e
  apply-IsBelow (JobCommand.complete id) s out below e = mutate-IsBelow id completed s out below e

  -- An answered creation hands out the next id, which no job had, records the new job under it, and
  -- the ids in use stay below the counter.
  create_fresh :
      (kind : JobKind) (s s' : Staged) (out : JobOutcome)
      → IsBelow s.index
      → apply codec opened (JobCommand.create kind) s ≡ (s', ok out)
      → (lookup s.index.next_id s.index.rows ≡ none)
        × (out ≡ created_job s.index.next_id)
        × (lookup s.index.next_id s'.index.rows ≡ some (fresh_job s.index.next_id kind))
        × IsBelow s'.index
  unfolding apply
  create_fresh kind s s' out below e =
      let n = s.index.next_id in
      let st = ap (λ r. r.0) e in
      let (l, _, o) = lookup-apply_create kind s out n (ap (λ r. r.1) e) in
      let p : (n == n) ≡ true = ground arith in
      (
        unused (lookup n s.index.rows) refl,
        o,
        sym (ap (λ r. lookup n r.index.rows) st) ∙ l ∙ rw p,
        subst (λ r. IsBelow r.index) st (create-IsBelow kind s out below (ap (λ r. r.1) e)),
      )
    where
      unused : (o : Option Job) → lookup s.index.next_id s.index.rows ≡ o → o ≡ none
      unused none p = refl
      unused (some j) p = absurd (omega (arith, below s.index.next_id j p))

  -- An answered assignment makes its job running under the new coordinator, whatever state the job
  -- was in: a job that was already done runs again.
  pub assign_any_state :
      (id node lease : ℕ) (s : Staged) (out : JobOutcome) (j : Job)
      → lookup id s.index.rows ≡ some j
      → (apply codec opened (JobCommand.assign id node lease) s).1 ≡ ok out
      → lookup id (apply codec opened (JobCommand.assign id node lease) s).0.index.rows
        ≡ some (record j {
          state = JobState.running;
          coordinator = some node;
          lease_expiry_millis = lease;
        })
  unfolding apply assigned
  assign_any_state id node lease s out j h e =
      let (l, _) = lookup-apply_mutate id (assigned node lease) s out id e in
      let p : (id == id) ≡ true = ground arith in l ∙ rw (p, h)
