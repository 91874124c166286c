-- ===== src/Pd/Job/Snapshot.antt =====
-- crates/epoch-pd/src/job/mod.rs: the jobs of one member's snapshot on another member, before and
-- after that one restarts.
use epoch_io.Common.{
  ℕ, ◌^◌, ◌≤◌, ◌<◌, ◌≡◌, refl, ap, ◌∙◌, arith, Bool, true, false, List, [], ok, inl, inr,
  Result-cases,
}
use epoch_io.Common.Map.{lookup, values, Ascending, Every}
use epoch_io.Pd.Records.{
  BatchOp, Rocks, Codec, Cf, Entries, Table, first_id, open_cf, load_records, collect, stage_clear,
  stage_records, stage_put_counter,
}
use epoch_io.Pd.Records.Install.{install-restored, collect-values}
use epoch_io.Pd.Job.{
  Job, at_least_first, job_id_of, Staged, restore, snapshot_view, stage_and_apply_snapshot,
}

-- The jobs of a manager: in key order, each under its own id, and a counter that has started.
pub record IsKept (t : Table Job) : Type 0 where
  pub ordered : Ascending 0 t.rows
  pub own : Every (λ i j. (j.id ≡ i) × (i < 2 ^ 32)) t.rows
  pub started : first_id ≤ t.next_id
  pub in_range : t.next_id < 2 ^ 32

at_least_first_started : (n : ℕ) → first_id ≤ n → at_least_first n ≡ n
unfolding at_least_first
at_least_first_started n h = ground arith

module _ (codec : Codec Job) where
  -- What an install that goes through has staged, and its index.
  Installed : Entries → Table Job → Staged → Type 0
  Installed es t s =
      (staged : List BatchOp) × (stage_records codec job_id_of Cf.job (stage_clear [] Cf.job es)
          (values t.rows)
        ≡ ok staged)
      × (s ≡ record {
        batch = stage_put_counter staged Cf.job t.next_id;
        index = record { rows = collect job_id_of [] (values t.rows); next_id = t.next_id };
      })

  install-Installed :
      (opened : Bool) (es : Entries) (t old : Table Job) (s : Staged)
      → first_id ≤ t.next_id
      → stage_and_apply_snapshot codec opened es
          (snapshot_view t).0
          (snapshot_view t).1
          (record { batch = []; index = old })
        ≡ ok s
      → Installed es t s
  unfolding stage_and_apply_snapshot snapshot_view open_cf Installed
  install-Installed false es t old s h e = cc e
  install-Installed true es t old s h e =
      let counter = at_least_first_started t.next_id h in
      elim (Result-cases
        (stage_records codec job_id_of Cf.job (stage_clear [] Cf.job es) (values t.rows))) [
          | inl (x, f) ↦ cc (rw (f, stage_and_apply_snapshot) at e)
          | inr (staged, f) ↦ (staged, f, cc (rw (f, counter, stage_and_apply_snapshot) at e))
        ]

  restore-loaded :
      (es : Entries) (old : Table Job) (jobs : List Job) (n : ℕ)
      → load_records codec true es ≡ ok (jobs, n)
      → restore codec true es old ≡ ok (record { rows = collect job_id_of [] jobs; next_id = n })
  unfolding restore
  restore-loaded es old jobs n e = rw (e, restore) refl

  module _ (rocks : Rocks) where
    open rocks use {Db, entries, write}

    -- A snapshot of a manager's jobs, once its install on a member is answered, gives that member
    -- the next id and under every id the job of the manager, whatever it held before, and a
    -- restart from the written batch loads the same.
    pub snapshot-restored :
        (opened : Bool) (db : Db) (t old : Table Job) (s : Staged)
        → IsKept t
        → stage_and_apply_snapshot codec opened
            (entries db Cf.job)
            (snapshot_view t).0
            (snapshot_view t).1
            (record { batch = []; index = old })
          ≡ ok s
        → (s.index.next_id ≡ t.next_id)
          × ((id : ℕ) → lookup id s.index.rows ≡ lookup id t.rows)
          × ((loaded : Table Job) × (restore codec true (entries (write db s.batch) Cf.job) s.index
                ≡ ok loaded)
              × (loaded.next_id ≡ t.next_id)
              × ((id : ℕ) → id < 2 ^ 32 → lookup id loaded.rows ≡ lookup id t.rows))
    unfolding Installed
    snapshot-restored opened db t old s k e =
        let (staged, f, same) = install-Installed opened (entries db Cf.job) t old s k.started e in
        let (rs, ld, found) =
          install-restored rocks codec job_id_of Cf.job db t 0 t.next_id staged k.ordered k.own
            k.in_range f in
        (
          ap (λ x. x.index.next_id) same,
          λ id.
              ap (λ x. lookup id x.index.rows) same
              ∙ collect-values codec job_id_of 0 t.rows id k.ordered (λ i j g. (k.own i j g).0),
          (
            record { rows = collect job_id_of [] rs; next_id = t.next_id },
            ap (λ x. restore codec true (entries (write db x.batch) Cf.job) s.index) same
                ∙ restore-loaded _ s.index rs t.next_id ld,
            refl,
            found,
          ),
        )
