-- ===== src/Tests/Snapshots.antt =====
-- A snapshot of two jobs on a member whose store holds another one.
use epoch_io.Common.{ℕ, ◌^◌, ◌<◌, ◌≡◌, refl, arith, true, some, none, [], ◌∷◌, ok}
use epoch_io.Common.Bytes.{bytes_eq}
use epoch_io.Common.Map.{lookup, insert, values, Every, insert-Every}
use epoch_io.Pd.Records.{
  put, delete, Cf, same_cf, Table, open_cf, collect, stage_put_record, stage_put_counter,
  stage_clear, stage_records, record_key, next_id_key,
}
use epoch_io.Pd.Job.{
  Job, JobKind, JobState, Staged, at_least_first, restore, snapshot_view, stage_and_apply_snapshot,
}
use epoch_io.Pd.Job.Snapshot.{IsKept, snapshot-restored}
use epoch_io.Tests.Jobs.{job_codec, write_job, kind_tag, kind_disk, state_tag, node_bytes}
use epoch_io.Tests.MemStore.{MemDb, apply_ops, apply_op, set_entry, drop_entry, mem_rocks, empty_db}

-- A member that holds the job 9 only.
abbrev stale_db : MemDb
stale_db = mem_rocks.write empty_db (
    put Cf.job (record_key 9) (9 ∷ 4 ∷ 0 ∷ 0 ∷ 0 ∷ 0 ∷ [])
    ∷ put Cf.job next_id_key (0 ∷ 0 ∷ 0 ∷ 10 ∷ [])
    ∷ [])

abbrev stale_jobs : Table Job
stale_jobs = record {
  rows =
      (
        9,
        record {
          id = 9;
          kind = JobKind.gc_round;
          state = JobState.created;
          coordinator = none;
          lease_expiry_millis = 0;
          progress_watermark = 0;
        },
      )
      ∷ [];
  next_id = 10;
}

abbrev drop_of_seven : Job
drop_of_seven = record {
  id = 1;
  kind = JobKind.drop_disk 7;
  state = JobState.running;
  coordinator = some 3;
  lease_expiry_millis = 500;
  progress_watermark = 9;
}

abbrev inspection : Job
inspection = record {
  id = 4;
  kind = JobKind.inspect_round;
  state = JobState.created;
  coordinator = none;
  lease_expiry_millis = 0;
  progress_watermark = 0;
}

abbrev two_jobs : Table Job
two_jobs = record { rows = (1, drop_of_seven) ∷ (4, inspection) ∷ []; next_id = 5 }

-- Its own key, which is a `u32`.
abbrev IsOwn : ℕ → Job → Type 0
IsOwn i j = (j.id ≡ i) × (i < 2 ^ 32)

none_in_empty : Every IsOwn []
unfolding lookup
none_in_empty i j e = cc e

two_jobs-Every : Every IsOwn two_jobs.rows
unfolding insert
two_jobs-Every =
    insert-Every IsOwn 1 drop_of_seven ((4, inspection) ∷ []) (refl, omega arith)
      (insert-Every IsOwn 4 inspection [] (refl, omega arith) none_in_empty)

two_jobs-IsKept : IsKept two_jobs
two_jobs-IsKept = record {
  ordered = (omega arith, (omega arith, tt));
  own = two_jobs-Every;
  started = omega arith;
  in_range = omega arith;
}

abbrev installed : Staged
installed = record {
  batch =
      delete Cf.job (record_key 9)
      ∷ delete Cf.job next_id_key
      ∷ put Cf.job (record_key 1) (1 ∷ 1 ∷ 7 ∷ 1 ∷ 500 ∷ 9 ∷ 3 ∷ [])
      ∷ put Cf.job (record_key 4) (4 ∷ 3 ∷ 0 ∷ 0 ∷ 0 ∷ 0 ∷ [])
      ∷ put Cf.job next_id_key (0 ∷ 0 ∷ 0 ∷ 5 ∷ [])
      ∷ [];
  index = two_jobs;
}

install_answers :
    stage_and_apply_snapshot job_codec true
      (mem_rocks.entries stale_db Cf.job)
      (snapshot_view two_jobs).0
      (snapshot_view two_jobs).1
      (record { batch = []; index = stale_jobs })
    ≡ ok installed
unfolding stage_and_apply_snapshot snapshot_view job_codec write_job kind_tag kind_disk state_tag
    node_bytes at_least_first open_cf stage_put_record stage_put_counter stage_clear stage_records
    collect insert values apply_ops apply_op set_entry drop_entry record_key bytes_eq same_cf
install_answers = refl

snapshot-restored_example :
    (installed.index.next_id ≡ 5)
    × ((id : ℕ) → lookup id installed.index.rows ≡ lookup id two_jobs.rows)
    × ((loaded : Table Job) × (restore job_codec true
            (mem_rocks.entries (mem_rocks.write stale_db installed.batch) Cf.job)
            installed.index
          ≡ ok loaded)
        × (loaded.next_id ≡ 5)
        × ((id : ℕ) → id < 2 ^ 32 → lookup id loaded.rows ≡ lookup id two_jobs.rows))
snapshot-restored_example =
    snapshot-restored job_codec mem_rocks true stale_db two_jobs stale_jobs installed
      two_jobs-IsKept install_answers
