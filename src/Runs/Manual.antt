-- ===== src/Runs/Manual.antt =====
-- `enqueue_manual_run` and `_enqueue_run_job` of services/runs.py. A call is one transaction under
-- the advisory lock of its user and competitor. Runs that other transactions committed between its
-- reads and its INSERT, the ids and times that the database gives, and the texts of a job are
-- arguments.
use competitor_scout.Prelude.{
  ℕ, ◌+◌, String, Bool, true, false, not, ◌&&◌, ◌||◌, List, [], ◌∷◌, ◌++◌, Option, none, some, ◌==◌,
  ltb, leb, if◌then◌else◌, Result, ok, err, ◌>>◌, guard, any, Moment, naive, aware, seconds,
}
use competitor_scout.Prelude.Tables.{first_by}
use competitor_scout.Prelude.Orders.{descending}
use competitor_scout.Json.{Value, JsonLib}
use competitor_scout.Jobs.{Job, Jobs, JobError, enqueue_in_session}
use competitor_scout.Competitors.{
  Competitor, Tables, get_competitor, live_of, is_active, has_approved,
}
use competitor_scout.Runs.{
  RunType, ScoutRun, daily_scout, manual_scout, source_discovery, weekly_brief, queued, run_id_of,
  is_final, is_scout, is_queued,
}

-- The exceptions: the naive clock, `RunNotFound`, the two codes of `ManualRunNotAllowed`, the
-- `RuntimeError`, and those of the enqueue.
pub data ManualError : Type 0 where
  naive_clock run_not_found competitor_inactive approved_source_required unresolved : ManualError
  job_error : JobError → ManualError

-- f"{job_type}:{run.id}" and {"run_id": str(run.id)}.
pub record JobTexts : Type 0 where
  pub key : String → ℕ → String
  pub payload : ℕ → Value

abbrev pub is_manual : RunType → Bool
is_manual manual_scout = true
is_manual _ = false

abbrev pub job_type_of : RunType → String
job_type_of t = if is_manual t then "manual_scout" else "daily_scout"

abbrev pub has_competitor : Option ℕ → ℕ → Bool
has_competitor none c = false
has_competitor (some d) c = d == c

-- A scout run of the competitor in one of `ACTIVE_RUN_STATUSES`.
abbrev pub occupies : ℕ → ScoutRun → Bool
occupies competitor r =
    has_competitor r.competitor_id competitor && is_scout r.run_type && not (is_final r.status)

abbrev pub active_of : ℕ → ℕ → ScoutRun → Bool
active_of user competitor r = r.user_id == user && occupies competitor r

abbrev pub created_of : ScoutRun → ℕ
created_of r = r.created_at

abbrev pub scheduled_of : ScoutRun → ℕ
scheduled_of r = r.scheduled_for

-- ORDER BY created_at DESC, id DESC LIMIT 1.
unfoldable pub active_run : ℕ → ℕ → List ScoutRun → Option ScoutRun
unfolding first_by
active_run user competitor = first_by (descending created_of run_id_of) (active_of user competitor)

-- Within `MANUAL_IDEMPOTENCY_WINDOW` before the clock.
abbrev pub recent_of : ℕ → ℕ → ℕ → ScoutRun → Bool
recent_of user competitor current r =
    r.user_id == user
    && has_competitor r.competitor_id competitor
    && is_manual r.run_type
    && ltb current (r.scheduled_for + seconds 300)
    && leb r.scheduled_for current

unfoldable pub recent_run : ℕ → ℕ → ℕ → List ScoutRun → Option ScoutRun
unfolding first_by
recent_run user competitor current =
    first_by (descending scheduled_of run_id_of) (recent_of user competitor current)

abbrev pub same_type : RunType → RunType → Bool
same_type source_discovery source_discovery = true
same_type daily_scout daily_scout = true
same_type manual_scout manual_scout = true
same_type weekly_brief weekly_brief = true
same_type _ _ = false

-- The primary key and the two unique indexes on the runs of a competitor.
abbrev pub clashes : ℕ → ℕ → ℕ → ScoutRun → Bool
clashes id competitor current r =
    r.id == id
    || occupies competitor r
    || (has_competitor r.competitor_id competitor
        && same_type r.run_type manual_scout
        && r.scheduled_for == current)

abbrev pub new_run : ℕ → ℕ → ℕ → ℕ → ℕ → ScoutRun
new_run id created user competitor current = record {
  id = id;
  user_id = user;
  competitor_id = some competitor;
  run_type = manual_scout;
  status = queued;
  scheduled_for = current;
  started_at = none;
  completed_at = none;
  failure_code = none;
  failure_summary = none;
  partial_reasons = [];
  input_tokens = 0;
  output_tokens = 0;
  tool_calls = none;
  settled_cost_usd = none;
  created_at = created;
}

-- The run that a call returns, and the tables of runs and jobs.
abbrev pub Queued : Type 0
Queued = Result ManualError (ScoutRun × List ScoutRun × Jobs)

-- What the database gives a call: ids and times of creation, and the runs of other transactions.
pub record Given : Type 0 where
  pub run_id : ℕ
  pub run_created : ℕ
  pub job_id : ℕ
  pub job_created : ℕ
  pub others : List ScoutRun

module _ (json : JsonLib) (texts : JobTexts) where
  abbrev pub as_manual : ScoutRun → List ScoutRun → Result JobError (Job × Jobs) → Queued
  as_manual r runs (err e) = err (job_error e)
  as_manual r runs (ok (job, jobs)) = ok (r, runs, jobs)

  unfoldable pub enqueue_run_job : Given → ScoutRun → ℕ → Jobs → Result JobError (Job × Jobs)
  enqueue_run_job given r available_at jobs =
      enqueue_in_session json given.job_id given.job_created (job_type_of r.run_type)
        (texts.key (job_type_of r.run_type) r.id) (texts.payload r.id) (aware available_at) jobs

  -- The active run is returned, and its job is there if it waits for one.
  abbrev pub resume : Given → ScoutRun → List ScoutRun → Jobs → Queued
  resume given r runs jobs =
      if is_manual r.run_type && is_queued r.status
      then as_manual r runs (enqueue_run_job given r r.scheduled_for jobs)
      else ok (r, runs, jobs)

  abbrev pub after_conflict : Given → ℕ → Option ScoutRun → List ScoutRun → Jobs → Queued
  after_conflict given current none runs jobs = err unresolved
  after_conflict given current (some r) runs jobs =
      as_manual r runs (enqueue_run_job given r current jobs)

  -- INSERT ... ON CONFLICT DO NOTHING, and the second SELECT.
  unfoldable pub insert_run : Given → ℕ → ℕ → ℕ → List ScoutRun → Jobs → Queued
  insert_run given user competitor current runs jobs =
      let row = new_run given.run_id given.run_created user competitor current in
      if any (clashes given.run_id competitor current) runs
      then after_conflict given current (active_run user competitor runs) runs jobs
      else as_manual row (runs ++ row ∷ []) (enqueue_run_job given row current jobs)

  abbrev pub with_recent : Given → ℕ → ℕ → ℕ → Option ScoutRun → List ScoutRun → Jobs → Queued
  with_recent given user competitor current (some r) runs jobs = ok (r, runs, jobs)
  with_recent given user competitor current none runs jobs =
      insert_run given user competitor current (runs ++ given.others) jobs

  abbrev pub with_active : Given → ℕ → ℕ → ℕ → Option ScoutRun → List ScoutRun → Jobs → Queued
  with_active given user competitor current (some r) runs jobs = resume given r runs jobs
  with_active given user competitor current none runs jobs =
      with_recent given user competitor current (recent_run user competitor current runs) runs jobs

  abbrev pub queue_for : Given → ℕ → ℕ → List ScoutRun → Jobs → Tables → Option Competitor → Queued
  queue_for given user current runs jobs db none = err run_not_found
  queue_for given user current runs jobs db (some c) = do
    guard (live_of user c) run_not_found
    guard (is_active c.status) competitor_inactive
    guard (has_approved c.id db.sources) approved_source_required
    with_active given user c.id current (active_run user c.id runs) runs jobs

  unfoldable pub enqueue_manual_run :
      Given → ℕ → ℕ → Moment → Tables → List ScoutRun → Jobs → Queued
  enqueue_manual_run given user competitor (naive t) db runs jobs = err naive_clock
  enqueue_manual_run given user competitor (aware current) db runs jobs =
      queue_for given user current runs jobs db (get_competitor competitor db.competitors)
