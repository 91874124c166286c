-- ===== src/Pd/Job/Cases.antt =====
-- The ways in which the handlers of crates/epoch-pd/src/job/mod.rs can end.
use epoch_io.Common.{
  ℕ, ◌+◌, ◌^◌, ◌<◌, ◌≡◌, refl, Bool, true, false, none, some, List, [], ◌∷◌, ◌++◌, Result, ok, err,
  ◌⊎◌, inl, inr, Option-cases,
}
use epoch_io.Common.Bytes.{to_be_bytes}
use epoch_io.Common.Map.{lookup, insert}
use epoch_io.Pd.Records.{
  SmError, missing_cf, write_failed, counter_overflow, BatchOp, put, Cf, Codec, Table, Bytes,
  open_cf, record_key, next_id_key, stage_put_counter,
}
use epoch_io.Pd.Records.View.{stage_put_record-cases, advance_counter-cases}
use epoch_io.Pd.Reject.{not_found}
use epoch_io.Pd.Job.{
  Job, JobKind, JobState, JobOutcome, created_job, applied, rejected, Staged, apply_create,
  apply_mutate,
}

-- The job that `create` records.
abbrev pub fresh_job : ℕ → JobKind → Job
fresh_job id kind = record {
  id = id;
  kind = kind;
  state = JobState.created;
  coordinator = none;
  lease_expiry_millis = 0;
  progress_watermark = 0;
}

-- A record staged behind a batch.
abbrev pub put_job : List BatchOp → ℕ → Bytes → List BatchOp
put_job batch id bytes = batch ++ (put Cf.job (record_key id) bytes ∷ [])

abbrev pub put_next_id : List BatchOp → ℕ → List BatchOp
put_next_id batch n = batch ++ (put Cf.job next_id_key (to_be_bytes 4 n) ∷ [])

abbrev pub with_job : Table Job → ℕ → Job → Table Job
with_job t id j = record { rows = insert id j t.rows; next_id = t.next_id }

abbrev pub Outcome : Type 0
Outcome = Staged × Result SmError JobOutcome

module _ (codec : Codec Job) (s : Staged) where
  -- A handler that answers has created a job, changed one, or found none.
  abbrev pub Mutated : Outcome → ℕ → (Job → Job) → Type 0
  Mutated res job_id mutate =
      ((lookup job_id s.index.rows ≡ none) × (res ≡ (s, ok (rejected not_found))))
      ⊎ ((j : Job) × (bytes : Bytes) × (lookup job_id s.index.rows ≡ some j)
          × (codec.to_vec (mutate j) ≡ some bytes)
          × (res ≡ (
            record {
              batch = put_job s.batch job_id bytes;
              index = with_job s.index job_id (mutate j);
            },
            ok applied,
          )))

  abbrev pub Created : Outcome → JobKind → Type 0
  Created res kind =
      (bytes : Bytes) × (s.index.next_id + 1 < 2 ^ 32)
      × (codec.to_vec (fresh_job s.index.next_id kind) ≡ some bytes)
      × (res ≡ (
        record {
          batch = put_next_id (put_job s.batch s.index.next_id bytes) (s.index.next_id + 1);
          index = record {
            rows = insert s.index.next_id (fresh_job s.index.next_id kind) s.index.rows;
            next_id = s.index.next_id + 1;
          };
        },
        ok (created_job s.index.next_id),
      ))

  -- Otherwise it fails with a storage error.
  abbrev pub Failed : Outcome → Type 0
  Failed res = (e : SmError) × (res.1 ≡ err e)

  pub apply_mutate-cases :
      (opened : Bool) (job_id : ℕ) (mutate : Job → Job)
      → Mutated (apply_mutate codec opened job_id mutate s) job_id mutate
        ⊎ Failed (apply_mutate codec opened job_id mutate s)
  apply_mutate-cases false job_id mutate = inr (missing_cf, unfold apply_mutate open_cf in refl)
  apply_mutate-cases true job_id mutate = elim (Option-cases (lookup job_id s.index.rows)) [
    | inl e ↦ inl (inl (e, unfold apply_mutate open_cf in rw (e, apply_mutate)))
    | inr (j, e) ↦ elim (stage_put_record-cases codec s.batch Cf.job job_id (mutate j)) [
      | inl (v, p) ↦ inr (write_failed, unfold apply_mutate open_cf in rw (e, apply_mutate) (rw p))
      | inr (bytes, v, p) ↦
          inl (inr (j, bytes, e, v, unfold apply_mutate open_cf in rw (e, apply_mutate) (rw p)))
    ]
  ]

  pub apply_create-cases :
      (opened : Bool) (kind : JobKind)
      → Created (apply_create codec opened kind s) kind ⊎ Failed (apply_create codec opened kind s)
  apply_create-cases false kind = inr (missing_cf, unfold apply_create open_cf in refl)
  apply_create-cases true kind = elim (advance_counter-cases s.index.next_id) [
    | inr (h, a) ↦ inr (counter_overflow, unfold apply_create open_cf in rw (a, apply_create))
    | inl (h, a) ↦
        elim (stage_put_record-cases codec s.batch Cf.job s.index.next_id
          (fresh_job s.index.next_id kind)) [
            | inl (v, p) ↦ inr (
              write_failed,
              unfold apply_create open_cf in rw (a, apply_create) (rw (p, apply_create)),
            )
            | inr (bytes, v, p) ↦ inl (
              bytes,
              h,
              v,
              unfold apply_create open_cf stage_put_counter in
                  rw (a, apply_create) (rw (p, apply_create)),
            )
          ]
  ]
