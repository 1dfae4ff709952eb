-- ===== src/Orchestrator/Starting.antt =====
-- `_start_run` and `_terminalize_interrupted_run` of agents/orchestrator.py. The findings and the
-- previous run that `_start_run` reads go into the prompts alone, of which the model has the sizes.
use competitor_scout.Prelude.{
  ℕ, ◌+◌, ◌-◌, ◌%◌, Bool, true, false, not, ◌&&◌, List, [], ◌∷◌, ◌++◌, Option, none, some, ◌==◌,
  leb, ltb, if◌then◌else◌, Result, ok, err, is_some, map, take, select,
}
use competitor_scout.Prelude.Texts.{Text, str, mem_text}
use competitor_scout.Json.{Value}
use competitor_scout.Competitors.{
  Competitor, MonitoredSource, SourceCategory, Tables, get_competitor, is_active, approved_of,
}
use competitor_scout.Paging.{order_by, after, Place}
use competitor_scout.Paging.Tasks.{AgentTask, AgentTaskStatus, main_planner, of_run}
use competitor_scout.Runs.{
  is_scout, is_queued, ScoutRun, ScoutRunStatus, planning, gathering, synthesizing, partial, failed,
  get_run, put_run,
}
use competitor_scout.Orchestrator.Usage.{CostEstimator}
use competitor_scout.Orchestrator.Store.{Store, Crash, UsageEvent, run_not_found, with_error}
use competitor_scout.Orchestrator.Planning.{MainContext}

unfoldable pub interrupted_scout_run : Text
interrupted_scout_run = str "interrupted_scout_run"

unfoldable pub interrupted_summary : Text
interrupted_summary = str "Scout Run was interrupted"

unfoldable pub run_ownership_mismatch : Text
run_ownership_mismatch = str "run_ownership_mismatch"

unfoldable pub competitor_inactive : Text
competitor_inactive = str "competitor_inactive"

unfoldable pub daily_cost_limit : Text
daily_cost_limit = str "daily_cost_limit"

-- The queued and running tasks of the run are closed.
abbrev pub interrupted_task : ℕ → AgentTask → AgentTask
interrupted_task now t = elim t.status [
  | AgentTaskStatus.queued ↦
      with_error AgentTaskStatus.cancelled interrupted_scout_run interrupted_summary now t
  | AgentTaskStatus.running ↦
      with_error AgentTaskStatus.failed interrupted_scout_run interrupted_summary now t
  | _ ↦ t
]

abbrev pub interrupt_tasks : ℕ → ℕ → List AgentTask → List AgentTask
interrupt_tasks run now [] = []
interrupt_tasks run now (t ∷ ts) =
    (if of_run run t then interrupted_task now t else t) ∷ interrupt_tasks run now ts

abbrev pub with_reason : List Text → List Text
with_reason reasons =
    if mem_text interrupted_scout_run reasons
    then reasons
    else reasons ++ interrupted_scout_run ∷ []

abbrev pub interrupted_run : ℕ → ScoutRun → ScoutRun
interrupted_run now r = elim r.status [
  | synthesizing ↦ record r {
    completed_at = some now;
    status = partial;
    failure_code = none;
    failure_summary = none;
    partial_reasons = with_reason r.partial_reasons;
  }
  | _ ↦ record r {
    completed_at = some now;
    status = failed;
    failure_code = some interrupted_scout_run;
    failure_summary = some interrupted_summary;
    partial_reasons = [];
  }
]

unfoldable pub terminalize_interrupted_run : ℕ → ℕ → Store → Store
terminalize_interrupted_run run now w = record w {
  tasks = interrupt_tasks run now w.tasks;
  runs = put_run run (interrupted_run now) w.runs;
}

abbrev pub is_interrupted : ScoutRunStatus → Bool
is_interrupted planning = true
is_interrupted gathering = true
is_interrupted synthesizing = true
is_interrupted _ = false

abbrev pub refused_run : Text → Text → ℕ → ScoutRun → ScoutRun
refused_run code summary now r = record r {
  status = failed;
  failure_code = some code;
  failure_summary = some summary;
  completed_at = some now;
}

abbrev pub cost_or_zero : Option ℕ → ℕ
cost_or_zero none = 0
cost_or_zero (some cost) = cost

abbrev pub is_on_day : ℕ → ℕ → UsageEvent → Bool
is_on_day user day e =
    e.user_id == user && leb day e.occurred_at && ltb e.occurred_at (day + 86400000000)

-- The settled cost of the user's usage events of a day.
unfoldable pub daily_cost : ℕ → ℕ → List UsageEvent → ℕ
daily_cost user day [] = 0
daily_cost user day (e ∷ es) =
    (if is_on_day user day e then cost_or_zero e.settled_cost_usd else 0) + daily_cost user day es

abbrev pub place_of_source : MonitoredSource → Place
place_of_source s = (s.created_at, s.id)

abbrev pub url_and_category : MonitoredSource → Text × SourceCategory
url_and_category s = (s.normalized_url, s.source_category)

abbrev pub url_of : Text × SourceCategory → Text
url_of (url, _) = url

-- The settings that a run reads, with the prompts' model names.
pub record RunSettings : Type 0 where
  pub otari_main_model : Text
  pub max_run_cost_usd : ℕ
  pub max_user_daily_cost_usd : ℕ
  pub cost_estimator : Option CostEstimator
  pub max_child_tasks_per_run : ℕ
  pub max_child_search_calls : ℕ
  pub main_token_limit : ℕ
  pub max_planning_repairs : ℕ
  pub max_synthesis_repairs : ℕ

abbrev pub belongs : ScoutRun → Competitor → Bool
belongs r c = r.user_id == c.user_id

-- The start of the day of an instant, in UTC.
abbrev pub day_of : ℕ → ℕ
day_of now = now - now % 86400000000

module _ (now : ℕ) (uuid4 : List AgentTask → ℕ) (settings : RunSettings)
    (text_values : List Text → List Value) (db : Tables) (has_snapshot : ℕ → Bool) where
  unfoldable pub sources_of : Competitor → List (Text × SourceCategory)
  unfolding order_by
  sources_of c =
      map url_and_category
        (take 160 (order_by after place_of_source (select (approved_of c.id) db.sources)))

  abbrev pub planner_row : ℕ → ℕ → List Text → AgentTask
  planner_row id run urls = record {
    id = id;
    scout_run_id = run;
    parent_task_id = none;
    role = main_planner;
    task_kind = str "daily_planning";
    status = AgentTaskStatus.running;
    model = settings.otari_main_model;
    objective = str "Create a bounded daily Scout plan";
    source_scope = text_values urls;
    attempt_count = 0;
    started_at = some now;
    completed_at = none;
    otari_request_id = none;
    input_tokens = 0;
    output_tokens = 0;
    tool_calls = none;
    settled_cost_usd = none;
    pricing_source = none;
    validated_output = none;
    error_code = none;
    error_summary = none;
    created_at = now;
  }

  abbrev pub started_run : ScoutRun → ScoutRun
  started_run r = record r { status = planning; started_at = some now }

  abbrev pub begin_planning : ScoutRun → Competitor → ℕ → Store → MainContext × Store
  begin_planning r c initial w =
      let sources = sources_of c in
      let urls = map url_of sources in
      let id = uuid4 w.tasks in
      (
        record {
          run_id = r.id;
          user_id = r.user_id;
          planner_task_id = id;
          approved_urls = urls;
          approved_source_categories = sources;
          initial_snapshot_required =
              is_some c.starting_snapshot_requested_at && not (has_snapshot c.id);
          limits = record {
            max_run_cost_usd = settings.max_run_cost_usd;
            max_user_daily_cost_usd = settings.max_user_daily_cost_usd;
            initial_daily_cost = initial;
          };
          cost_estimator = settings.cost_estimator;
          max_child_tasks_per_run = settings.max_child_tasks_per_run;
          max_child_search_calls = settings.max_child_search_calls;
          main_token_limit = settings.main_token_limit;
          max_planning_repairs = settings.max_planning_repairs;
          max_synthesis_repairs = settings.max_synthesis_repairs;
        },
        record w {
          runs = put_run r.id started_run w.runs;
          tasks = w.tasks ++ planner_row id r.id urls ∷ [];
        },
      )

  abbrev pub refuse : ScoutRun → Text → Text → Store → Option (MainContext × Competitor) × Store
  refuse r code summary w =
      (none, record w { runs = put_run r.id (refused_run code summary now) w.runs })

  -- With the competitor's row.
  unfoldable pub start_with :
      ScoutRun → Option Competitor → Store → Option (MainContext × Competitor) × Store
  unfolding daily_cost
  start_with r none w = refuse r competitor_inactive (str "competitor is not active") w
  start_with r (some c) w =
      let initial = daily_cost r.user_id (day_of now) w.usage_events in
      if not (belongs r c)
      then refuse r run_ownership_mismatch (str "Scout Run ownership is invalid") w
      else if not (is_active c.status)
      then refuse r competitor_inactive (str "competitor is not active") w
      else if leb settings.max_user_daily_cost_usd initial
      then refuse r daily_cost_limit (str "daily settled-cost limit reached") w
      else (let begun = begin_planning r c initial w in (some (begun.0, c), begun.1))

  abbrev pub competitor_of : Option ℕ → Option Competitor
  competitor_of none = none
  competitor_of (some c) = get_competitor c db.competitors

  -- With the row of the run.
  unfoldable pub start_found :
      Option ScoutRun → Store → Result Crash (Option (MainContext × Competitor) × Store)
  unfolding terminalize_interrupted_run
  start_found none w = err run_not_found
  start_found (some r) w =
      if not (is_scout r.run_type)
      then err run_not_found
      else if is_interrupted r.status
      then ok (none, terminalize_interrupted_run r.id now w)
      else if not (is_queued r.status)
      then ok (none, w)
      else ok (start_with r (competitor_of r.competitor_id) w)

  -- The context of the run, or none where it does not go on; and the store.
  unfoldable pub start_run : ℕ → Store → Result Crash (Option (MainContext × Competitor) × Store)
  unfolding start_with start_found
  start_run run w = start_found (get_run run w.runs) w
