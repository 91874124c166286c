-- ===== src/Pd/Job.antt =====
-- crates/epoch-pd/src/job: the records of the coarse-grained jobs, who may commit for one, and the
-- replicated manager. A batch under construction and the in-memory index are the state; a call
-- that fails keeps what it had changed by then.
pub mod Commit
pub mod Cases
pub mod Durable
pub mod Snapshot
pub mod Lifecycle
pub mod Driver
use epoch_io.Common.{
  ℕ, ◌≡◌, Bool, true, false, ◌&&◌, Option, none, some, List, [], Result, ok, err, ltb, ◌==◌,
  if◌then◌else◌, retain,
}
use epoch_io.Common.Map.{Map, lookup, insert, values}
use epoch_io.Pd.Records.{
  SmError, BatchOp, Cf, Codec, Table, open_cf, advance_counter, stage_put_record, stage_put_counter,
  Entries, first_id, load_records, collect, stage_clear, stage_records,
}
use epoch_io.Pd.Reject.{RejectReason, not_found}

pub data JobKind : Type 0 where
  repair_disk drop_disk balance : ℕ → JobKind
  inspect_round gc_round : JobKind

unfoldable pub suspect_disk : JobKind → Option ℕ
suspect_disk (repair_disk disk) = some disk
suspect_disk (drop_disk disk) = some disk
suspect_disk (balance disk) = none
suspect_disk inspect_round = none
suspect_disk gc_round = none

pub data JobState : Type 0 where
  created running done : JobState

pub record Job : Type 0 where
  pub id : ℕ
  pub kind : JobKind
  pub state : JobState
  pub coordinator : Option ℕ
  pub lease_expiry_millis : ℕ
  pub progress_watermark : ℕ

abbrev pub job_id_of : Job → ℕ
job_id_of j = j.id

abbrev pub is_running : JobState → Bool
is_running created = false
is_running running = true
is_running done = false

unfoldable pub lease_expired : Job → ℕ → Bool
lease_expired j now = is_running j.state && ltb j.lease_expiry_millis now

abbrev needs_in : JobState → ℕ → ℕ → Bool
needs_in created lease now = true
needs_in running lease now = ltb lease now
needs_in done lease now = false

unfoldable pub needs_coordinator : Job → ℕ → Bool
needs_coordinator j now = needs_in j.state j.lease_expiry_millis now

pub data JobCommand : Type 0 where
  create : JobKind → JobCommand
  assign : ℕ → ℕ → ℕ → JobCommand
  renew_lease : ℕ → ℕ → JobCommand
  advance_watermark : ℕ → ℕ → ℕ → JobCommand
  complete : ℕ → JobCommand

pub data JobOutcome : Type 0 where
  created_job : ℕ → JobOutcome
  applied : JobOutcome
  rejected : RejectReason → JobOutcome

-- What the four mutating commands do to a job.
unfoldable pub assigned : ℕ → ℕ → Job → Job
assigned node lease j = record j {
  state = running;
  coordinator = some node;
  lease_expiry_millis = lease;
}

unfoldable pub renewed : ℕ → Job → Job
renewed lease j = if is_running j.state then record j { lease_expiry_millis = lease } else j

unfoldable pub advanced : ℕ → ℕ → Job → Job
advanced watermark lease j = record j {
  progress_watermark =
      if ltb j.progress_watermark watermark then watermark else j.progress_watermark;
  lease_expiry_millis = if ltb j.lease_expiry_millis lease then lease else j.lease_expiry_millis;
}

unfoldable pub completed : Job → Job
completed j = record j { state = done }

pub record Staged : Type 0 where
  pub batch : List BatchOp
  pub index : Table Job

-- `next_id.max(FIRST_ID)`.
unfoldable pub at_least_first : ℕ → ℕ
at_least_first next_id = if ltb next_id first_id then first_id else next_id

module _ (codec : Codec Job) (opened : Bool) where
  unfoldable pub apply_create : JobKind → Staged → Staged × Result SmError JobOutcome
  apply_create kind s = elim (open_cf opened) [
    | err e ↦ (s, err e)
    | ok _ ↦ elim (advance_counter s.index.next_id) [
      | err e ↦ (s, err e)
      | ok next_id ↦
          let job : Job = record {
            id = s.index.next_id;
            kind = kind;
            state = created;
            coordinator = none;
            lease_expiry_millis = 0;
            progress_watermark = 0;
          } in
          elim (stage_put_record codec s.batch Cf.job s.index.next_id job) [
            | err e ↦ (s, err e)
            | ok batch ↦ (
              record {
                batch = stage_put_counter batch Cf.job next_id;
                index = record {
                  rows = insert s.index.next_id job s.index.rows;
                  next_id = next_id;
                };
              },
              ok (created_job s.index.next_id),
            )
          ]
    ]
  ]

  -- The job is changed in place before the record is staged.
  unfoldable pub apply_mutate : ℕ → (Job → Job) → Staged → Staged × Result SmError JobOutcome
  apply_mutate job_id mutate s = elim (open_cf opened) [
    | err e ↦ (s, err e)
    | ok _ ↦ elim (lookup job_id s.index.rows) [
      | none ↦ (s, ok (rejected not_found))
      | some job ↦
          let index : Table Job = record {
            rows = insert job_id (mutate job) s.index.rows;
            next_id = s.index.next_id;
          } in
          elim (stage_put_record codec s.batch Cf.job job_id (mutate job)) [
            | err e ↦ (record { batch = s.batch; index = index }, err e)
            | ok batch ↦ (record { batch = batch; index = index }, ok applied)
          ]
    ]
  ]

  unfoldable pub apply : JobCommand → Staged → Staged × Result SmError JobOutcome
  apply (create kind) s = apply_create kind s
  apply (assign job_id node lease) s = apply_mutate job_id (assigned node lease) s
  apply (renew_lease job_id lease) s = apply_mutate job_id (renewed lease) s
  apply (advance_watermark job_id watermark lease) s =
      apply_mutate job_id (advanced watermark lease) s
  apply (complete job_id) s = apply_mutate job_id completed s

  -- `restore`, from the entries of the column family.
  unfoldable pub restore : Entries → Table Job → Result SmError (Table Job)
  unfolding load_records
  restore es index = elim (load_records codec opened es) [
    | err e ↦ err e
    | ok (records, next_id) ↦ ok (record { rows = collect job_id_of [] records; next_id = next_id })
  ]

  -- What an aborted install has staged by then is dropped with the batch.
  unfoldable pub stage_and_apply_snapshot : Entries → List Job → ℕ → Staged → Result SmError Staged
  unfolding stage_records
  stage_and_apply_snapshot es jobs next_id s =
      let next_id' = at_least_first next_id in
      elim (open_cf opened) [
        | err e ↦ err e
        | ok _ ↦ elim (stage_records codec job_id_of Cf.job (stage_clear s.batch Cf.job es) jobs) [
          | err e ↦ err e
          | ok batch ↦ ok (record {
            batch = stage_put_counter batch Cf.job next_id';
            index = record { rows = collect job_id_of [] jobs; next_id = next_id' };
          })
        ]
      ]

-- The read paths.
unfoldable pub snapshot_view : Table Job → List Job × ℕ
snapshot_view t = (values t.rows, t.next_id)

unfoldable pub expired_jobs : Table Job → ℕ → List Job
expired_jobs t now = retain (λ j. lease_expired j now) (values t.rows)

unfoldable pub is_coordinator : Option ℕ → ℕ → Bool
is_coordinator none node = false
is_coordinator (some n) node = n == node

unfoldable pub jobs_for_coordinator : Table Job → ℕ → List Job
unfolding is_coordinator
jobs_for_coordinator t node =
    retain (λ j. is_running j.state && is_coordinator j.coordinator node) (values t.rows)
