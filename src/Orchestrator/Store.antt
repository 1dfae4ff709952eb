-- ===== src/Orchestrator/Store.antt =====
-- What an execution of agents/orchestrator.py reads and writes: the rows of the run, its tasks and
-- their usage, the evidence, and the accumulated usage; and the methods that write runs and tasks.
-- A method is one transaction. The clock and uuid4 are arguments.
use competitor_scout.Prelude.{
  ℕ, Bool, true, false, ◌||◌, List, [], ◌∷◌, ◌++◌, Option, none, some, ◌==◌, if◌then◌else◌, Result,
  ok, err, ◌>>◌, guard, is_some,
}
use competitor_scout.Prelude.Tables.{find, update}
use competitor_scout.Prelude.Texts.{Text, str}
use competitor_scout.Json.{Value}
use competitor_scout.Paging.Tasks.{
  AgentTask, AgentTaskStatus, running, succeeded, failed, cancelled, task_id_of,
}
use competitor_scout.Runs.{ScoutRun, ScoutRunStatus, get_run, put_run}
use competitor_scout.Orchestrator.Usage.{
  OtariMetadata, UsageAccumulator, recorded_tool_calls, recorded_cost,
}

pub record UsageEvent : Type 0 where
  pub user_id : ℕ
  pub scout_run_id : ℕ
  pub agent_task_id : ℕ
  pub provider_request_id : Option Text
  pub model : Text
  pub input_tokens : ℕ
  pub output_tokens : ℕ
  pub tool_calls : Option ℕ
  pub settled_cost_usd : Option ℕ
  pub pricing_source : Option Text
  pub occurred_at : ℕ

pub record Store : Type 0 where
  pub runs : List ScoutRun
  pub tasks : List AgentTask
  pub usage_events : List UsageEvent

-- What leaves an execution: `RuntimeError` and `ValueError` for a row that is not there.
pub data Crash : Type 0 where
  run_disappeared task_disappeared run_not_found evidence_unresolved : Crash
  source_url_refused : Text → Crash

abbrev pub get_task : ℕ → List AgentTask → Option AgentTask
get_task = find task_id_of

abbrev pub mem_id : ℕ → List ℕ → Bool
mem_id i [] = false
mem_id i (j ∷ ids) = j == i || mem_id i ids

abbrev pub or_now : Option ℕ → ℕ → Option ℕ
or_now none now = some now
or_now (some t) now = some t

unfoldable pub task_cancelled_summary : Text
task_cancelled_summary = str "agent task cancelled by run budget"

unfoldable pub run_failed_summary : Text
run_failed_summary = str "Scout Run failed"

abbrev pub attempted : ℕ → ℕ → AgentTask → AgentTask
attempted attempt now t = record t {
  status = running;
  attempt_count = attempt;
  started_at = or_now t.started_at now;
}

-- The columns of the usage: what an unsettled attempt cost is not known.
abbrev pub unless_unsettled {ℓ} : {A : Type ℓ} → Bool → Option A → Option A
unless_unsettled true value = none
unless_unsettled false value = value

abbrev pub with_usage : OtariMetadata → Bool → AgentTask → AgentTask
with_usage metadata unsettled t =
    let usage = metadata.usage in
    record t {
      otari_request_id = metadata.request_id;
      input_tokens = usage.input_tokens;
      output_tokens = usage.output_tokens;
      tool_calls = unless_unsettled unsettled usage.tool_calls;
      settled_cost_usd = unless_unsettled unsettled usage.cost_usd;
      pricing_source = unless_unsettled unsettled usage.pricing_source;
    }

abbrev pub finished : OtariMetadata → Bool → Value → ℕ → AgentTask → AgentTask
finished metadata unsettled output now t = record (with_usage metadata unsettled t) {
  status = succeeded;
  completed_at = some now;
  validated_output = some output;
}

abbrev pub with_error : AgentTaskStatus → Text → Text → ℕ → AgentTask → AgentTask
with_error status code summary now t = record t {
  status = status;
  completed_at = some now;
  error_code = some code;
  error_summary = some summary;
}

abbrev pub with_metadata : Option OtariMetadata → Bool → AgentTask → AgentTask
with_metadata none unsettled t = t
with_metadata (some metadata) unsettled t = with_usage metadata unsettled t

abbrev pub event_of : ℕ → ℕ → OtariMetadata → ℕ → AgentTask → UsageEvent
event_of user run metadata now t =
    let usage = metadata.usage in
    record {
      user_id = user;
      scout_run_id = run;
      agent_task_id = t.id;
      provider_request_id = metadata.request_id;
      model = t.model;
      input_tokens = usage.input_tokens;
      output_tokens = usage.output_tokens;
      tool_calls = usage.tool_calls;
      settled_cost_usd = usage.cost_usd;
      pricing_source = usage.pricing_source;
      occurred_at = now;
    }

abbrev pub put_task : ℕ → (AgentTask → AgentTask) → Store → Store
put_task id f w = record w { tasks = update task_id_of id f w.tasks }

abbrev pub log_usage : UsageEvent → Store → Store
log_usage event w = record w { usage_events = w.usage_events ++ event ∷ [] }

abbrev pub with_run_usage : UsageAccumulator → ScoutRun → ScoutRun
with_run_usage u r = record r {
  input_tokens = u.input_tokens;
  output_tokens = u.output_tokens;
  tool_calls = recorded_tool_calls u;
  settled_cost_usd = recorded_cost u;
}

abbrev pub failed_run : Text → ℕ → UsageAccumulator → ScoutRun → ScoutRun
failed_run code now u r = record (with_run_usage u r) {
  status = ScoutRunStatus.failed;
  failure_code = some code;
  failure_summary = some run_failed_summary;
  completed_at = some now;
}

abbrev pub finished_run : ScoutRunStatus → List Text → ℕ → UsageAccumulator → ScoutRun → ScoutRun
finished_run status reasons now u r = record (with_run_usage u r) {
  status = status;
  partial_reasons = reasons;
  completed_at = some now;
}

unfoldable pub apply_usage : ℕ → UsageAccumulator → Store → Store
apply_usage run u w = record w { runs = put_run run (with_run_usage u) w.runs }

unfoldable pub run_status : ℕ → Store → Result Crash ScoutRunStatus
run_status run w = elim (get_run run w.runs) [ none ↦ err run_not_found | some r ↦ ok r.status ]

module _ (clock : Store → ℕ) where
  unfoldable pub set_task_attempt : ℕ → ℕ → Store → Result Crash Store
  set_task_attempt id attempt w = do
    guard (is_some (get_task id w.tasks)) task_disappeared
    ok (put_task id (attempted attempt (clock w)) w)

  abbrev pub succeed_found :
      ℕ → ℕ → ℕ → OtariMetadata → Value → Bool → Store → Option AgentTask → Result Crash Store
  succeed_found user run id metadata output unsettled w none = err task_disappeared
  succeed_found user run id metadata output unsettled w (some t) = ok (
      log_usage (event_of user run metadata (clock w) t)
        (put_task id (finished metadata unsettled output (clock w)) w))

  unfoldable pub succeed_task :
      ℕ → ℕ → ℕ → OtariMetadata → Value → Bool → Store → Result Crash Store
  succeed_task user run id metadata output unsettled w =
      succeed_found user run id metadata output unsettled w (get_task id w.tasks)

  abbrev pub log_failed : ℕ → ℕ → Option OtariMetadata → AgentTask → Store → Store
  log_failed user run none t w = w
  log_failed user run (some metadata) t w = log_usage (event_of user run metadata (clock w) t) w

  abbrev pub failed_task : Text → Option OtariMetadata → Bool → Text → ℕ → AgentTask → AgentTask
  failed_task code metadata unsettled summary now t =
      with_metadata metadata unsettled (with_error failed code summary now t)

  abbrev pub fail_found :
      ℕ → ℕ → ℕ → Text → Option OtariMetadata → Bool → Text → Store → Option AgentTask → Store
  fail_found user run id code metadata unsettled summary w none = w
  fail_found user run id code metadata unsettled summary w (some t) =
      put_task id (failed_task code metadata unsettled summary (clock w))
        (log_failed user run metadata t w)

  -- `_fail_task` with a context and what is known of the failed attempt.
  unfoldable pub fail_task : ℕ → ℕ → ℕ → Text → Option OtariMetadata → Bool → Text → Store → Store
  fail_task user run id code metadata unsettled summary w =
      fail_found user run id code metadata unsettled summary w (get_task id w.tasks)

  -- An UPDATE of the rows whose keys are listed.
  abbrev pub cancel_each : ℕ → List ℕ → Text → List AgentTask → List AgentTask
  cancel_each now ids code [] = []
  cancel_each now ids code (t ∷ ts) =
      (if mem_id t.id ids then with_error cancelled code task_cancelled_summary now t else t)
      ∷ cancel_each now ids code ts

  unfoldable pub cancel_tasks : List ℕ → Text → Store → Store
  cancel_tasks ids code w = record w { tasks = cancel_each (clock w) ids code w.tasks }

  unfoldable pub fail_run : ℕ → Text → UsageAccumulator → Store → Store
  fail_run run code u w = record w { runs = put_run run (failed_run code (clock w) u) w.runs }

  unfoldable pub finish_run :
      ℕ → ScoutRunStatus → List Text → UsageAccumulator → Store → Result Crash Store
  finish_run run status reasons u w = do
    guard (is_some (get_run run w.runs)) run_disappeared
    ok (record w { runs = put_run run (finished_run status reasons (clock w) u) w.runs })
