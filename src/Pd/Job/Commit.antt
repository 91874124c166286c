-- ===== src/Pd/Job/Commit.antt =====
-- crates/epoch-pd/src/job/commit.rs: who may commit on behalf of a job.
use epoch_io.Common.{
  ℕ, ◌≡◌, refl, arith, true, Option, none, some, Result, ok, err, ◌==◌, ◌↔◌, not, if◌then◌else◌,
}
use epoch_io.Pd.Job.{Job, JobState, is_running, is_coordinator, running}

pub data CommitRejection : Type 0 where
  unknown_job not_running not_coordinator epoch_mismatch : CommitRejection

unfoldable pub authorize_commit : Option Job → ℕ → ℕ → ℕ → Result CommitRejection (Unit {0})
authorize_commit none committer commit_epoch expected_epoch = err unknown_job
authorize_commit (some j) committer commit_epoch expected_epoch =
    if not (is_running j.state)
    then err not_running
    else if not (is_coordinator j.coordinator committer)
    then err not_coordinator
    else if not (commit_epoch == expected_epoch)
    then err epoch_mismatch
    else ok tt

coordinator_is : (o : Option ℕ) (n : ℕ) → (is_coordinator o n ≡ true) ↔ (o ≡ some n)
unfolding is_coordinator
coordinator_is none n = (λ e. cc, λ e. cc)
coordinator_is (some m) n = ground arith

running_is : (s : JobState) → (is_running s ≡ true) ↔ (s ≡ running)
running_is JobState.created = (λ e. cc, λ e. cc)
running_is JobState.running = (λ e. refl, λ e. refl)
running_is JobState.done = (λ e. cc, λ e. cc)

-- A commit is authorized exactly for the coordinator of a running job at the expected epoch.
pub authorize_commit_iff :
    (j : Job) (committer commit_epoch expected_epoch : ℕ)
    → (authorize_commit (some j) committer commit_epoch expected_epoch ≡ ok tt)
      ↔ ((j.state ≡ running) × (j.coordinator ≡ some committer) × (commit_epoch ≡ expected_epoch))
unfolding authorize_commit
authorize_commit_iff j c a b = ground (arith, coordinator_is j.coordinator c, running_is j.state)
