-- ===== src/Pd/MetaManager/Leaders.antt =====
-- The leader reports of crates/epoch-pd/src/meta_mgr.rs, which live in memory only.
use epoch_io.Common.{ℕ, Option, List}
use epoch_io.Common.Map.{Map, lookup, insert}

pub record LeaderReport : Type 0 where
  pub leader : ℕ
  pub applied_index : ℕ
  pub inline_bytes : ℕ
  pub inline_count : ℕ
  pub total_bytes : ℕ
  pub last_seen_millis : ℕ

unfoldable record_leader : ℕ → LeaderReport → Map LeaderReport → Map LeaderReport
record_leader partition_id report leaders = insert partition_id report leaders

unfoldable leader_of : ℕ → Map LeaderReport → Option LeaderReport
leader_of partition_id leaders = lookup partition_id leaders

-- In the order of the ids, in which the map already is.
unfoldable leaders_snapshot : Map LeaderReport → List (ℕ × LeaderReport)
leaders_snapshot leaders = leaders
