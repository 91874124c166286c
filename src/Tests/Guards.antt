-- ===== src/Tests/Guards.antt =====
-- The inline guard and the commit check at concrete inputs.
use epoch_io.Common.{ℕ, ◌*◌, ◌≡◌, ◌<◌, ◌≤◌, ◌↔◌, ◌⊎◌, arith, none, some, ok}
use epoch_io.Pd.Job.{Job, JobKind, JobState}
use epoch_io.Meta.Guard.{PartitionGuard, hard_inline_cap, resolve_threshold, check_inline}
use epoch_io.Meta.Guard.Admission.{check_inline_iff}

abbrev some_guard : PartitionGuard
some_guard = record { inline_bytes = 40; inline_count = 2; total_bytes = 100; delq_depth = 1 }

check_inline_iff_example :
    (resolve_threshold 64 none ≤ hard_inline_cap)
    × ((check_inline some_guard 10 (resolve_threshold 64 none) ≡ ok tt) ↔ (
        (0 < resolve_threshold 64 none)
        × (10 ≤ resolve_threshold 64 none)
        × ((◌≡◌ {A = ℕ} 100 0) ⊎ (40 * 2 ≤ 100))))
check_inline_iff_example = check_inline_iff some_guard 10 64 none (omega arith) (omega arith)

abbrev held_job : Job
held_job = record {
  id = 1;
  kind = JobKind.repair_disk 4;
  state = JobState.running;
  coordinator = some 3;
  lease_expiry_millis = 900;
  progress_watermark = 0;
}
