-- ===== src/Tests/Jobs.antt =====
-- Jobs at work: a serialiser of job records, and the theorems of the manager at concrete inputs.
use epoch_io.Common.{
  ℕ, zero, suc, ◌≡◌, ◌<◌, ◌^◌, refl, sym, ap, ◌∙◌, arith, true, false, Option, none, some, List, [],
  ◌∷◌, ok,
}
use epoch_io.Common.Map.{lookup, insert}
use epoch_io.Pd.Records.{
  Bytes, Codec, Cf, Table, get, load_records, collect, advance_counter, open_cf, stage_put_record,
  stage_put_counter,
}
use epoch_io.Pd.Records.View.{Agrees}
use epoch_io.Pd.Job.{
  Job, job_id_of, JobKind, JobState, JobCommand, JobOutcome, Staged, apply, apply_create,
  apply_mutate, assigned, advanced,
}
use epoch_io.Pd.Job.Cases.{fresh_job, put_job, put_next_id}
use epoch_io.Pd.Job.Durable.{restart-apply}
use epoch_io.Pd.Job.Lifecycle.{Grows, IsBelow, apply-Grows, assign_any_state}
use epoch_io.Tests.MemStore.{mem_rocks, empty_db}

unfoldable pub kind_tag : JobKind → ℕ
kind_tag (JobKind.repair_disk d) = 0
kind_tag (JobKind.drop_disk d) = 1
kind_tag (JobKind.balance d) = 2
kind_tag JobKind.inspect_round = 3
kind_tag JobKind.gc_round = 4

unfoldable pub kind_disk : JobKind → ℕ
kind_disk (JobKind.repair_disk d) = d
kind_disk (JobKind.drop_disk d) = d
kind_disk (JobKind.balance d) = d
kind_disk JobKind.inspect_round = 0
kind_disk JobKind.gc_round = 0

kind_of : ℕ → ℕ → JobKind
kind_of zero d = JobKind.repair_disk d
kind_of (suc zero) d = JobKind.drop_disk d
kind_of (suc (suc zero)) d = JobKind.balance d
kind_of (suc (suc (suc zero))) d = JobKind.inspect_round
kind_of (suc (suc (suc (suc n)))) d = JobKind.gc_round

unfoldable pub state_tag : JobState → ℕ
state_tag JobState.created = 0
state_tag JobState.running = 1
state_tag JobState.done = 2

state_of : ℕ → JobState
state_of zero = JobState.created
state_of (suc zero) = JobState.running
state_of (suc (suc n)) = JobState.done

unfoldable pub node_bytes : Option ℕ → Bytes
node_bytes none = []
node_bytes (some n) = n ∷ []

node_of : Bytes → Option ℕ
node_of [] = none
node_of (n ∷ rest) = some n

pub read_job : Bytes → Option Job
read_job (id ∷ tag ∷ disk ∷ state ∷ lease ∷ watermark ∷ rest) = some (record {
  id = id;
  kind = kind_of tag disk;
  state = state_of state;
  coordinator = node_of rest;
  lease_expiry_millis = lease;
  progress_watermark = watermark;
})
read_job other = none

unfoldable pub write_job : Job → Option Bytes
write_job j = some (
    j.id
    ∷ kind_tag j.kind
    ∷ kind_disk j.kind
    ∷ state_tag j.state
    ∷ j.lease_expiry_millis
    ∷ j.progress_watermark
    ∷ node_bytes j.coordinator)

kind_back : (k : JobKind) → kind_of (kind_tag k) (kind_disk k) ≡ k
unfolding kind_of kind_tag kind_disk
kind_back (JobKind.repair_disk d) = refl
kind_back (JobKind.drop_disk d) = refl
kind_back (JobKind.balance d) = refl
kind_back JobKind.inspect_round = refl
kind_back JobKind.gc_round = refl

state_back : (s : JobState) → state_of (state_tag s) ≡ s
unfolding state_of state_tag
state_back JobState.created = refl
state_back JobState.running = refl
state_back JobState.done = refl

node_back : (o : Option ℕ) → node_of (node_bytes o) ≡ o
unfolding node_of node_bytes
node_back none = refl
node_back (some n) = refl

pub job_back : (j : Job) (bytes : Bytes) → write_job j ≡ some bytes → read_job bytes ≡ some j
unfolding read_job write_job
job_back j bytes e = ap (some_or_read bytes) (sym e) ∙ (λ i. some (record j {
  kind = kind_back j.kind i;
  state = state_back j.state i;
  coordinator = node_back j.coordinator i;
}))
  where
    some_or_read : Bytes → Option Bytes → Option Job
    some_or_read d none = none
    some_or_read d (some b) = read_job b

unfoldable pub job_codec : Codec Job
job_codec = record { to_vec = write_job; from_slice = read_job; read_back = job_back }

abbrev no_jobs : Table Job
no_jobs = record { rows = []; next_id = 1 }

empty-Agrees : Agrees job_codec job_id_of (λ k. get k (mem_rocks.entries empty_db Cf.job)) no_jobs
unfolding get lookup
empty-Agrees = record {
  in_range = omega arith;
  counter = refl;
  stored = λ k v e. cc;
  same = λ id h. refl;
}

abbrev first_job : Staged
first_job = record {
  batch = put_next_id (put_job [] 1 (1 ∷ 4 ∷ 0 ∷ 0 ∷ 0 ∷ 0 ∷ [])) 2;
  index = record { rows = (1, fresh_job 1 JobKind.gc_round) ∷ []; next_id = 2 };
}

create_first :
    apply job_codec true
      (JobCommand.create JobKind.gc_round)
      (record { batch = []; index = no_jobs })
    ≡ (first_job, ok (JobOutcome.created_job 1))
unfolding apply apply_create job_codec write_job kind_tag kind_disk state_tag node_bytes
    advance_counter open_cf stage_put_record stage_put_counter insert
create_first = refl

restart-apply_example :
    (jobs : List Job) × (load_records job_codec true
        (mem_rocks.entries (mem_rocks.write empty_db first_job.batch) Cf.job)
      ≡ ok (jobs, 2))
    × ((id : ℕ)
        → id < 2 ^ 32
        → lookup id (collect job_id_of [] jobs) ≡ lookup id first_job.index.rows)
restart-apply_example =
    restart-apply mem_rocks job_codec true empty_db no_jobs (JobCommand.create JobKind.gc_round)
      first_job (JobOutcome.created_job 1) tt empty-Agrees create_first

abbrev done_job : Job
done_job = record {
  id = 1;
  kind = JobKind.gc_round;
  state = JobState.done;
  coordinator = some 3;
  lease_expiry_millis = 500;
  progress_watermark = 9;
}

abbrev one_done : Staged
one_done = record { batch = []; index = record { rows = (1, done_job) ∷ []; next_id = 2 } }

only_done : lookup 1 one_done.index.rows ≡ some done_job
unfolding lookup
only_done = refl

one_done-IsBelow : IsBelow one_done.index
unfolding lookup
one_done-IsBelow k j e = ground arith

assign_answered :
    (apply job_codec true (JobCommand.assign 1 7 900) one_done).1 ≡ ok JobOutcome.applied
unfolding apply apply_mutate job_codec write_job kind_tag kind_disk state_tag node_bytes open_cf
    assigned lookup stage_put_record
assign_answered = refl

advance_answered :
    (apply job_codec true (JobCommand.advance_watermark 1 4 100) one_done).1 ≡ ok JobOutcome.applied
unfolding apply apply_mutate job_codec write_job kind_tag kind_disk state_tag node_bytes open_cf
    advanced lookup stage_put_record
advance_answered = refl

-- The done job that an assignment sets running again.
assign_any_state_example :
    lookup 1 (apply job_codec true (JobCommand.assign 1 7 900) one_done).0.index.rows
    ≡ some (record done_job {
      state = JobState.running;
      coordinator = some 7;
      lease_expiry_millis = 900;
    })
assign_any_state_example =
    assign_any_state job_codec true 1 7 900 one_done JobOutcome.applied done_job only_done
      assign_answered

apply-Grows_example :
    (j : Job) × (lookup 1
        (apply job_codec true (JobCommand.advance_watermark 1 4 100) one_done).0.index.rows
      ≡ some j)
    × Grows false done_job j
apply-Grows_example =
    apply-Grows job_codec true (JobCommand.advance_watermark 1 4 100) one_done JobOutcome.applied 1
      done_job one_done-IsBelow only_done advance_answered

no_jobs-IsBelow : IsBelow no_jobs
unfolding lookup
no_jobs-IsBelow k j e = cc
