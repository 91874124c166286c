-- ===== src/Pd/State/Rejections.antt =====
-- A command that `apply_command` of crates/epoch-pd/src/state.rs rejects leaves everything as it was.
use epoch_io.Common.{ℕ, ◌≡◌, ap, arith, true, Option, some, Result, ok, inl, inr}
use epoch_io.Pd.Records.{SmError, Codec, Pending, open_cf}
use epoch_io.Pd.Reject.{RejectReason}
use epoch_io.Pd.Node.{Node, NodeStatus}
use epoch_io.Pd.Node.Manager as Nodes
use epoch_io.Pd.Node.Changes as NodeChanges
use epoch_io.Pd.Disk as Disks
use epoch_io.Pd.Disk.Changes as DiskChanges
use epoch_io.Pd.Chunk.{Chunk, StagingChunk}
use epoch_io.Pd.Chunk.Manager.{
  Staged, seal, apply_commit, apply_rebump, apply_seal_chunk, apply_rebind,
}
use epoch_io.Pd.Chunk.Moves.{rebind-effect}
use epoch_io.Pd.Job as Jobs
use epoch_io.Pd.Job.{Job, JobKind, JobCommand, JobOutcome}
use epoch_io.Pd.Job.Cases.{apply_mutate-cases, apply_create-cases}
use epoch_io.Pd.Writer as Writers
use epoch_io.Pd.Writer.Cases as WriterCases

-- An outcome that rejects has changed nothing.
abbrev pub Refuses : {S : Type 0} → S → S × Result SmError (Option RejectReason) → Type 0
Refuses s res = (reason : RejectReason) → res.1 ≡ ok (some reason) → res.0 ≡ s

module _ (codec : Codec Node) (s : Pending Node) where
  pub update_node-Refuses :
      (id : ℕ) (status : NodeStatus) → Refuses s (Nodes.apply_update_status codec true id status s)
  update_node-Refuses id status reason h =
      elim (NodeChanges.apply_update_status-cases codec s true id status) [
        | inl (n, bytes, f, t, v, e) ↦ cc (h, ap (λ r. r.1) e)
        | inr e ↦ e
      ]

  pub remove_node-Refuses : (id : ℕ) → Refuses s (Nodes.apply_remove codec true id s)
  remove_node-Refuses id reason h = elim (NodeChanges.apply_remove-cases codec s true id) [
    | inl (n, f, q, e) ↦ cc (h, ap (λ r. r.1) e)
    | inr e ↦ e
  ]

pub update_disk-Refuses :
    (codec : Codec Disks.Disk) (s : Pending Disks.Disk) (id : ℕ) (status : Disks.DiskStatus)
    → Refuses s (Disks.apply_update_status codec true id status s)
update_disk-Refuses codec s id status reason h =
    elim (DiskChanges.apply_update_status-cases codec s true id status) [
      | inl (n, bytes, f, t, v, e) ↦ cc (h, ap (λ r. r.1) e)
      | inr e ↦ e
    ]

module _ (chunks : Codec Chunk) (plans : Codec StagingChunk) (s : Staged) where
  pub commit-Refuses : (id : ℕ) → Refuses s (apply_commit chunks plans true id s)
  unfolding apply_commit open_cf
  commit-Refuses id reason h = ground arith

  pub rebump-Refuses : (id : ℕ) → Refuses s (apply_rebump chunks plans true id s)
  unfolding apply_rebump open_cf
  rebump-Refuses id reason h = ground arith

  pub seal-Refuses : (id : ℕ) → Refuses s (apply_seal_chunk chunks plans true id s)
  unfolding apply_seal_chunk seal open_cf
  seal-Refuses id reason h = ground arith

  pub rebind-Refuses :
      (id slot expected new_disk ts : ℕ)
      → Refuses s (apply_rebind chunks plans true id slot expected new_disk ts s)
  rebind-Refuses id slot expected new_disk ts reason h =
      elim (rebind-effect chunks plans s true id slot expected new_disk ts) [
        | inl (same, other) ↦ same
        | inr (chunk, old, rebuilt, guards, inl (e, failed, index)) ↦ cc (h, failed)
        | inr (chunk, old, rebuilt, guards, inr (answered, index)) ↦ cc (h, answered)
      ]

module _ (codec : Codec Job) (s : Jobs.Staged) where
  -- A job command that rejects has changed nothing.
  abbrev pub JobRefuses : Jobs.Staged × Result SmError JobOutcome → Type 0
  JobRefuses res = (reason : RejectReason) → res.1 ≡ ok (JobOutcome.rejected reason) → res.0 ≡ s

  mutate-Refuses : (id : ℕ) (f : Job → Job) → JobRefuses (Jobs.apply_mutate codec true id f s)
  mutate-Refuses id f reason h = elim (apply_mutate-cases codec s true id f) [
    | inl (inl (missing, e)) ↦ ap (λ r. r.0) e
    | inl (inr (j, bytes, found, written, e)) ↦ cc (h, ap (λ r. r.1) e)
    | inr (x, e) ↦ cc (h, e)
  ]

  create-Refuses : (kind : JobKind) → JobRefuses (Jobs.apply_create codec true kind s)
  create-Refuses kind reason h = elim (apply_create-cases codec s true kind) [
    | inl (bytes, lt, v, e) ↦ cc (h, ap (λ r. r.1) e)
    | inr (x, e) ↦ cc (h, e)
  ]

  pub job-Refuses : (cmd : JobCommand) → JobRefuses (Jobs.apply codec true cmd s)
  unfolding Jobs.apply
  job-Refuses (Jobs.create kind) = create-Refuses kind
  job-Refuses (Jobs.assign id node lease) = mutate-Refuses id (Jobs.assigned node lease)
  job-Refuses (Jobs.renew_lease id lease) = mutate-Refuses id (Jobs.renewed lease)
  job-Refuses (Jobs.advance_watermark id watermark lease) =
      mutate-Refuses id (Jobs.advanced watermark lease)
  job-Refuses (Jobs.complete id) = mutate-Refuses id Jobs.completed

pub mark_dead-Refuses :
    (codec : Codec Writers.WriterRecord) (s : Writers.Staged) (token : ℕ)
    → Refuses s (Writers.apply_mark_dead codec true token s)
mark_dead-Refuses codec s token reason h =
    elim (WriterCases.apply_mark_dead-cases codec s true token) [
      | inl (inl (missing, e)) ↦ ap (λ r. r.0) e
      | inl (inr (inl (x, found, was, e))) ↦ ap (λ r. r.0) e
      | inl (inr (inr (x, bytes, found, v, e))) ↦ cc (h, ap (λ r. r.1) e)
      | inr (x, e) ↦ ap (λ r. r.0) e
    ]
