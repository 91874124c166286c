-- ===== src/Pd/State/Kept.antt =====
-- Answers of crates/epoch-pd/src/state.rs that leave the state as it was when they reject.
use epoch_io.Common.{◌≡◌, refl, ap, Option, none, some, Result, ok, err, ◌>>=◌}
use epoch_io.Pd.Records.{SmError, Pending}
use epoch_io.Pd.Reject.{RejectReason}
use epoch_io.Pd.Node.{Node}
use epoch_io.Pd.Disk.{Disk}
use epoch_io.Pd.Chunk.Manager as Chunks
use epoch_io.Pd.Writer as Writers
use epoch_io.Pd.Job as Jobs
use epoch_io.Pd.State.Entries.{ApplyResult, rejected}
use epoch_io.Pd.State.{
  Applying, Answer, reject, reject_to_result, from_nodes, from_disks, from_chunks, from_writers,
  from_jobs, to_nodes, to_disks, to_chunks, to_writers, to_jobs, job_result,
}
use epoch_io.Pd.State.Rejections.{Refuses}
use epoch_io.Pd.MetaManager as Partitions
use epoch_io.Pd.State.{from_partitions, to_partitions}

-- A rejection is of the state as it was.
abbrev pub Keeps : Applying → Answer → Type 0
Keeps w a = (reason : RejectReason) → a.1 ≡ ok (rejected reason) → a.0 ≡ w

module _ (w : Applying) where
  pub nodes-Keeps :
      (res : Pending Node × Result SmError (Option RejectReason))
      → Refuses (to_nodes w) res
      → Keeps w (from_nodes w reject_to_result res)
  unfolding reject_to_result
  nodes-Keeps (s, err e) refuses reason h = cc
  nodes-Keeps (s, ok none) refuses reason h = cc
  nodes-Keeps (s, ok (some r)) refuses reason h =
      ap (λ (x : Pending Node). (from_nodes w reject_to_result (x, ok (some r))).0) (refuses r refl)

  pub disks-Keeps :
      (res : Pending Disk × Result SmError (Option RejectReason))
      → Refuses (to_disks w) res
      → Keeps w (from_disks w reject_to_result res)
  unfolding reject_to_result
  disks-Keeps (s, err e) refuses reason h = cc
  disks-Keeps (s, ok none) refuses reason h = cc
  disks-Keeps (s, ok (some r)) refuses reason h =
      ap (λ (x : Pending Disk). (from_disks w reject_to_result (x, ok (some r))).0) (refuses r refl)

  pub chunks-Keeps :
      (f : Option RejectReason → ApplyResult) (res : Chunks.Answer)
      → ((reason : RejectReason) → f none ≡ rejected reason → ⊥)
      → Refuses (to_chunks w) res
      → Keeps w (from_chunks w f res)
  chunks-Keeps f (s, err e) other refuses reason h = cc
  chunks-Keeps f (s, ok none) other refuses reason h = absurd (other reason (cc h))
  chunks-Keeps f (s, ok (some r)) other refuses reason h =
      ap (λ (x : Chunks.Staged). (from_chunks w f (x, ok (some r))).0) (refuses r refl)

  pub writers-Keeps :
      (res : Writers.Staged × Result SmError (Option RejectReason))
      → Refuses (to_writers w) res
      → Keeps w (from_writers w reject_to_result res)
  unfolding reject_to_result
  writers-Keeps (s, err e) refuses reason h = cc
  writers-Keeps (s, ok none) refuses reason h = cc
  writers-Keeps (s, ok (some r)) refuses reason h =
      ap (λ (x : Writers.Staged). (from_writers w reject_to_result (x, ok (some r))).0)
        (refuses r refl)

  -- What only fails or answers an id never rejects.
  pub answers-Keeps :
      {S A : Type 0} (back : S → Applying) (f : A → ApplyResult) (res : S × Result SmError A)
      → ((a : A) (reason : RejectReason) → f a ≡ rejected reason → ⊥)
      → Keeps w (back res.0, res.1 >>= λ a. ok (f a))
  answers-Keeps back f (s, err e) other reason h = cc
  answers-Keeps back f (s, ok a) other reason h = absurd (other a reason (cc h))

  pub jobs-Keeps :
      (res : Jobs.Staged × Result SmError Jobs.JobOutcome)
      → ((r : RejectReason) → res.1 ≡ ok (Jobs.rejected r) → res.0 ≡ to_jobs w)
      → Keeps w (from_jobs w job_result res)
  jobs-Keeps (s, err e) refuses reason h = cc
  jobs-Keeps (s, ok (Jobs.created_job id)) refuses reason h = cc
  jobs-Keeps (s, ok Jobs.applied) refuses reason h = cc
  jobs-Keeps (s, ok (Jobs.rejected r)) refuses reason h =
      ap (λ (x : Jobs.Staged). (from_jobs w job_result (x, ok (Jobs.rejected r))).0)
        (refuses r refl)

  pub partitions-Keeps :
      {A : Type 0} (f : Option A → ApplyResult)
      (res : Partitions.Pending × Result SmError (Option A))
      → ((a : A) (reason : RejectReason) → f (some a) ≡ rejected reason → ⊥)
      → (res.1 ≡ ok none → res.0 ≡ to_partitions w)
      → Keeps w (from_partitions w f res)
  partitions-Keeps f (s, err e) other refuses reason h = cc
  partitions-Keeps f (s, ok none) other refuses reason h =
      ap (λ (x : Partitions.Pending). (from_partitions w f (x, ok none)).0) (refuses refl)
  partitions-Keeps f (s, ok (some a)) other refuses reason h = absurd (other a reason (cc h))

  pub reject-Keeps : (r : RejectReason) → Keeps w (reject w r)
  reject-Keeps r reason h = refl
