-- ===== src/Pd/Job/Durable.antt =====
-- crates/epoch-pd/src/job/mod.rs: what the manager stages for the store is what its index holds, so
-- a restart finds the index again.
use epoch_io.Common.{
  ℕ, ◌+◌, ◌^◌, ◌<◌, ◌≡◌, refl, sym, ap, subst, ◌∙◌, arith, Bool, true, List, [], ok, inl, inr,
}
use epoch_io.Common.Map.{lookup}
use epoch_io.Pd.Records.{
  Cf, Codec, Table, Entries, Rocks, get, load_records, collect, record_key, next_id_key,
}
use epoch_io.Pd.Records.View.{
  view, Agrees, Agrees-own, Agrees-cong, view-put, put_record-Agrees, put_counter-Agrees, after-nil,
}
use epoch_io.Pd.Records.Restore.{load_records-Agrees}
use epoch_io.Pd.Job.{
  Job, job_id_of, JobKind, JobCommand, JobOutcome, Staged, apply, apply_create, apply_mutate,
  assigned, renewed, advanced, completed,
}
use epoch_io.Pd.Job.Cases.{
  Mutated, Created, Outcome, apply_mutate-cases, apply_create-cases, fresh_job, put_job, with_job,
}

renewed-id : (lease : ℕ) (j : Job) → (renewed lease j).id ≡ j.id
unfolding renewed
renewed-id lease j = ground arith

-- A command names its job by a `u32`.
abbrev pub InRange : JobCommand → Type 0
InRange (JobCommand.create kind) = Unit {0}
InRange (JobCommand.assign id node lease) = id < 2 ^ 32
InRange (JobCommand.renew_lease id lease) = id < 2 ^ 32
InRange (JobCommand.advance_watermark id watermark lease) = id < 2 ^ 32
InRange (JobCommand.complete id) = id < 2 ^ 32

module _ (codec : Codec Job) (es : Entries) where
  -- The column family with the pending batch carried out agrees with the index.
  abbrev pub IsDurable : Staged → Type 0
  IsDurable s = Agrees codec job_id_of (view s.batch Cf.job es) s.index

  Mutated-IsDurable :
      (s : Staged) (res : Outcome) (id : ℕ) (mutate : Job → Job)
      → id < 2 ^ 32
      → ((j : Job) → (mutate j).id ≡ j.id)
      → IsDurable s
      → Mutated codec s res id mutate
      → IsDurable res.0
  Mutated-IsDurable s res id mutate h keeps d (inl (_, e)) =
      subst IsDurable (sym (ap (λ r. r.0) e)) d
  Mutated-IsDurable s res id mutate h keeps d (inr (j, bytes, found, written, e)) =
      subst IsDurable (sym (ap (λ r. r.0) e)) (
        put_record-Agrees codec job_id_of _ _ s.index id (mutate j) bytes h
          (keeps j ∙ Agrees-own codec job_id_of _ s.index id j d h found) written
          (view-put s.batch Cf.job es (record_key id) bytes) d)

  Created-IsDurable :
      (s : Staged) (res : Outcome) (kind : JobKind)
      → IsDurable s
      → Created codec s res kind
      → IsDurable res.0
  Created-IsDurable s res kind d (bytes, h, written, e) =
      let n = s.index.next_id in
      subst IsDurable (sym (ap (λ r. r.0) e)) (
        put_counter-Agrees codec job_id_of (view (put_job s.batch n bytes) Cf.job es) _
          (with_job s.index n (fresh_job n kind)) (n + 1) h
          (view-put (put_job s.batch n bytes) Cf.job es next_id_key _)
          (put_record-Agrees codec job_id_of _ _ s.index n (fresh_job n kind) bytes d.in_range refl
            written (view-put s.batch Cf.job es (record_key n) bytes) d))

  module _ (opened : Bool) where
    mutate-IsDurable :
        (s : Staged) (id : ℕ) (mutate : Job → Job) (out : JobOutcome)
        → id < 2 ^ 32
        → ((j : Job) → (mutate j).id ≡ j.id)
        → IsDurable s
        → (apply_mutate codec opened id mutate s).1 ≡ ok out
        → IsDurable (apply_mutate codec opened id mutate s).0
    mutate-IsDurable s id mutate out h keeps d e =
        elim (apply_mutate-cases codec s opened id mutate) [
          | inl m ↦ Mutated-IsDurable s _ id mutate h keeps d m
          | inr (x, f) ↦ cc (e, f)
        ]

    create-IsDurable :
        (s : Staged) (kind : JobKind) (out : JobOutcome)
        → IsDurable s
        → (apply_create codec opened kind s).1 ≡ ok out
        → IsDurable (apply_create codec opened kind s).0
    create-IsDurable s kind out d e = elim (apply_create-cases codec s opened kind) [
      | inl m ↦ Created-IsDurable s _ kind d m
      | inr (x, f) ↦ cc (e, f)
    ]

    -- A command that is answered leaves the staged store and the index in agreement.
    pub apply-IsDurable :
        (c : JobCommand) (s : Staged) (out : JobOutcome)
        → InRange c
        → IsDurable s
        → (apply codec opened c s).1 ≡ ok out
        → IsDurable (apply codec opened c s).0
    unfolding apply
    apply-IsDurable (JobCommand.create kind) s out h d e = create-IsDurable s kind out d e
    apply-IsDurable (JobCommand.assign id node lease) s out h d e =
        mutate-IsDurable s id (assigned node lease) out h (λ j. unfold assigned in refl) d e
    apply-IsDurable (JobCommand.renew_lease id lease) s out h d e =
        mutate-IsDurable s id (renewed lease) out h (λ j. renewed-id lease j) d e
    apply-IsDurable (JobCommand.advance_watermark id watermark lease) s out h d e =
        mutate-IsDurable s id (advanced watermark lease) out h (λ j. unfold advanced in refl) d e
    apply-IsDurable (JobCommand.complete id) s out h d e =
        mutate-IsDurable s id completed out h (λ j. unfold completed in refl) d e

module _ (rocks : Rocks) where
  open rocks use {Db, entries, write, distinct, read_write}

  -- After a command is answered and its batch written, a restart loads the index that the running
  -- manager has: the same next id and, under every id, the same job.
  pub restart-apply :
      (codec : Codec Job) (opened : Bool) (db : Db) (t : Table Job) (c : JobCommand) (s : Staged)
      (out : JobOutcome)
      → InRange c
      → Agrees codec job_id_of (λ k. get k (entries db Cf.job)) t
      → apply codec opened c (record { batch = []; index = t }) ≡ (s, ok out)
      → (jobs : List Job) × (load_records codec true (entries (write db s.batch) Cf.job)
          ≡ ok (jobs, s.index.next_id))
        × ((id : ℕ) → id < 2 ^ 32 → lookup id (collect job_id_of [] jobs) ≡ lookup id s.index.rows)
  restart-apply codec opened db t c s out h a e =
      let es = entries db Cf.job in
      let start : Staged = record { batch = []; index = t } in
      let d : IsDurable codec es start =
        Agrees-cong codec job_id_of _ _ t (λ k. sym (after-nil Cf.job k (get k es))) a in
      let d' : IsDurable codec es s =
        subst (IsDurable codec es) (ap (λ r. r.0) e)
          (apply-IsDurable codec es opened c start out h d (ap (λ r. r.1) e)) in
      load_records-Agrees codec job_id_of (entries (write db s.batch) Cf.job) s.index
        (distinct (write db s.batch) Cf.job)
        (Agrees-cong codec job_id_of _ _ s.index (λ k. sym (read_write db s.batch Cf.job k)) d')
