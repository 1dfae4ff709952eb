-- ===== src/Runs.antt =====
-- The table of runs of apps/backend/src/competitor_scout/models/intelligence.py, and
-- services/runs.py on it. Costs are millionths of a dollar, as the column keeps them.
pub mod Manual
pub mod Repeats
pub mod Output
pub mod OutputSafety
pub mod OneActive
pub mod Reading
pub mod Listing
pub mod ModelUsage
pub mod ModelTotals
mod Tests
use competitor_scout.Prelude.{ℕ, Bool, true, false, List, Option}
use competitor_scout.Prelude.Tables.{find, update}
use competitor_scout.Prelude.Texts.{Text}

pub data RunType : Type 0 where
  source_discovery daily_scout manual_scout weekly_brief : RunType

pub data ScoutRunStatus : Type 0 where
  queued planning gathering synthesizing completed partial failed : ScoutRunStatus

pub record ScoutRun : Type 0 where
  pub id : ℕ
  pub user_id : ℕ
  pub competitor_id : Option ℕ
  pub run_type : RunType
  pub status : ScoutRunStatus
  pub scheduled_for : ℕ
  pub started_at : Option ℕ
  pub completed_at : Option ℕ
  pub failure_code : Option Text
  pub failure_summary : Option Text
  pub partial_reasons : List Text
  pub input_tokens : ℕ
  pub output_tokens : ℕ
  pub tool_calls : Option ℕ
  pub settled_cost_usd : Option ℕ
  pub created_at : ℕ

abbrev pub run_id_of : ScoutRun → ℕ
run_id_of r = r.id

abbrev pub get_run : ℕ → List ScoutRun → Option ScoutRun
get_run = find run_id_of

abbrev pub put_run : ℕ → (ScoutRun → ScoutRun) → List ScoutRun → List ScoutRun
put_run = update run_id_of

-- The final states of a run.
abbrev pub is_final : ScoutRunStatus → Bool
is_final completed = true
is_final partial = true
is_final failed = true
is_final _ = false

-- `run_type IN ('daily_scout', 'manual_scout')`.
abbrev pub is_scout : RunType → Bool
is_scout daily_scout = true
is_scout manual_scout = true
is_scout _ = false

abbrev pub is_queued : ScoutRunStatus → Bool
is_queued queued = true
is_queued _ = false
