-- ===== src/Runs/Tests.antt =====
-- Manual runs and outputs of tasks: tests, and instances of the theorems.
use competitor_scout.Prelude.{
  ℕ, ◌≤◌, ◌≡◌, refl, String, true, List, [], ◌∷◌, none, some, ok, err, aware,
}
use competitor_scout.Prelude.Texts.{Text, str, text_eq}
use competitor_scout.Json.{
  Value, text_key, text, array, object, nil, cons, Fields, end, field, JsonLib,
}
use competitor_scout.Jobs.{Jobs, json_safe_payload, enqueue_in_session}
use competitor_scout.Competitors.{Competitor, MonitoredSource, Tables, active, approved, pricing}
use competitor_scout.Paging.Tasks.{AgentTask, child_researcher, succeeded}
use competitor_scout.Runs.{ScoutRun}
use competitor_scout.Runs.Manual.{
  JobTexts, Given, Queued, new_run, enqueue_manual_run, active_run, recent_run, insert_run,
  enqueue_run_job,
}
use competitor_scout.Runs.Repeats.{enqueue_manual_run_repeated}
use competitor_scout.Runs.Output.{
  output_keys, safe_task_output, is_forbidden, forbidden_output_key_parts, is_safe_code,
}
use competitor_scout.Runs.OutputSafety.{keys_in, clean, nesting, safe_task_output-Shown}
use competitor_scout.Prelude.{select, Option}
use competitor_scout.Orchestrator.Store.{UsageEvent}
use competitor_scout.Runs.ModelUsage.{
  RunUsageRead, ModelUsageRead, run_usage, event_of_run, read_names, sorted_names, insert_name,
  lookup_group, group_events, add_to,
}
use competitor_scout.Runs.ModelTotals.{used, find_model, run_usage-used}
use competitor_scout.Paging.{order_by, list_page}
use competitor_scout.Runs.OneActive.{OneActive, is_for, enqueue_manual_run-OneActive}
use competitor_scout.Prelude.{arith}
use competitor_scout.Paging.{Place, CursorLib, read_pages}
use competitor_scout.Runs.Reading.{
  Filters, Joined, joined_read, list_runs, run_summary, run_read, run_summaries,
}

abbrev acme : Competitor
acme = record {
  id = 5;
  user_id = 1;
  name = str "Acme";
  primary_domain = str "a.test";
  description = [];
  status = active;
  daily_run_time_local = 0;
  created_at = 1;
  deleted_at = none;
  starting_snapshot_requested_at = none;
}

abbrev prices : MonitoredSource
prices = record {
  id = 3;
  competitor_id = 5;
  url = str "https://a.test";
  normalized_url = str "https://a.test";
  source_category = pricing;
  title = str "P";
  discovery_reason = [];
  approval_status = approved;
  created_at = 2;
}

abbrev tables : Tables
tables = record { competitors = acme ∷ []; sources = prices ∷ [] }

abbrev json : JsonLib
json = record { dumps = λ v. some "{}"; loads = λ s. some (object end) }

-- One run is queued here, and its job has the key of its type.
abbrev texts : JobTexts
texts = record { key = λ job_type id. job_type; payload = λ id. object end }

abbrev given : ℕ → Given
given id = record { run_id = id; run_created = 100; job_id = id; job_created = 100; others = [] }

abbrev asked : Queued
asked = enqueue_manual_run json texts (given 7) 1 5 (aware 90) tables [] []

abbrev queued_run : ScoutRun
queued_run = new_run 7 100 1 5 90

abbrev jobs_of : Queued → Jobs
jobs_of (ok (r, runs, jobs)) = jobs
jobs_of (err e) = []

run_is_queued : asked ≡ ok (queued_run, queued_run ∷ [], jobs_of asked)
unfolding enqueue_manual_run active_run recent_run insert_run enqueue_run_job enqueue_in_session
run_is_queued = refl

enqueue_manual_run_repeated_example :
    enqueue_manual_run json texts (given 8) 1 5 (aware 95) tables (queued_run ∷ []) (jobs_of asked)
    ≡ ok (queued_run, queued_run ∷ [], jobs_of asked)
unfolding json_safe_payload
enqueue_manual_run_repeated_example =
    enqueue_manual_run_repeated json texts (λ i. (object end, refl)) (given 7) (given 8) 1 5 90 95
      tables [] (queued_run ∷ []) [] (jobs_of asked) queued_run tt run_is_queued refl

abbrev output : Value
output = object (
    field (text_key "evidence")
      (array (
        cons
          (object
            (field (text_key "quote") (text "q") (field (text_key "raw_text") (text "x") end)))
          nil))
      (field (text_key "prompt") (text "secret") (
        field (text_key "rejected_reasons")
          (array (cons (text "too long!") (cons (text "bad_url") nil))) end)))

abbrev researched : AgentTask
researched = record {
  id = 1;
  scout_run_id = 7;
  parent_task_id = none;
  role = child_researcher;
  task_kind = str "news_discovery";
  status = succeeded;
  model = str "child";
  objective = str "news";
  source_scope = [];
  attempt_count = 1;
  started_at = none;
  completed_at = none;
  otari_request_id = none;
  input_tokens = 0;
  output_tokens = 0;
  tool_calls = none;
  settled_cost_usd = none;
  pricing_source = none;
  validated_output = some output;
  error_code = none;
  error_summary = none;
  created_at = 0;
}

abbrev shown : Value
shown = object (
    field (text_key "evidence")
      (array (cons (object (field (text_key "quote") (text "q") end)) nil))
      (field (text_key "rejected_reasons") (array (cons (text "bad_url") nil)) end))

output_shown : safe_task_output str researched ≡ some shown
unfolding safe_task_output is_forbidden forbidden_output_key_parts
output_shown = refl

safe_task_output-Shown_example :
    (allowed : List String) × (output_keys researched.task_kind ≡ some allowed)
    × ((fields : Fields) × (shown ≡ object fields) × (keys_in str allowed fields ≡ true))
    × (clean str shown ≡ true)
    × (nesting str shown ≤ 9)
safe_task_output-Shown_example = safe_task_output-Shown str researched shown output_shown

abbrev event : String → ℕ → Option ℕ → ℕ → UsageEvent
event model tokens cost at = record {
  user_id = 1;
  scout_run_id = 7;
  agent_task_id = 1;
  provider_request_id = none;
  model = str model;
  input_tokens = tokens;
  output_tokens = 1;
  tool_calls = some 2;
  settled_cost_usd = cost;
  pricing_source = none;
  occurred_at = at;
}

abbrev events : List UsageEvent
events = event "main" 10 (some 5) 3 ∷ event "child" 20 (some 4) 1 ∷ event "child" 30 none 2 ∷ []

abbrev usage_read : String → ℕ → ℕ → ℕ → Option ℕ → ModelUsageRead
usage_read model input output calls cost = record {
  model = str model;
  input_tokens = input;
  output_tokens = output;
  tool_calls = some calls;
  settled_cost_usd = cost;
}

models_are_read :
    run_usage (λ e. 0) queued_run events
    ≡ ok (record {
      run_id = 7;
      input_tokens = 0;
      output_tokens = 0;
      tool_calls = none;
      settled_cost_usd = none;
      models = usage_read "child" 50 2 4 none ∷ usage_read "main" 10 1 2 (some 5) ∷ [];
    })
unfolding run_usage read_names sorted_names group_events order_by add_to text_eq insert_name
    lookup_group
models_are_read = refl

run_usage-used_example :
    (usage : RunUsageRead) × (run_usage (λ e. 0) queued_run events ≡ ok usage)
    × ((k : Text) → find_model k usage.models ≡ used k (select (event_of_run queued_run) events))
run_usage-used_example = run_usage-used (λ e. 0) queued_run events

enqueue_manual_run-OneActive_example : OneActive (queued_run ∷ []) × (is_for 1 5 queued_run ≡ true)
enqueue_manual_run-OneActive_example =
    enqueue_manual_run-OneActive json texts (given 7) 1 5 (aware 90) tables [] (queued_run ∷ []) []
      (jobs_of asked) queued_run (λ c. omega arith) run_is_queued

abbrev decode : Text → Option Place
decode (t ∷ i ∷ []) = some (t, i)
decode _ = none

abbrev pair_lib : CursorLib
pair_lib = record { encode_cursor = λ p. p.0 ∷ p.1 ∷ []; decode_cursor = decode }

abbrev later_run : ScoutRun
later_run = record queued_run {
  id = 9;
  scheduled_for = 190;
  created_at = 200;
  failure_code = some (str "run_cost_limit");
}

abbrev all_runs : Filters
all_runs = record { competitor_id = none; status = none; run_type = none }

abbrev joined : Joined
joined = record {
  runs = queued_run ∷ later_run ∷ [];
  competitors = acme ∷ [];
  findings = record { user_id = 1; originating_scout_run_id = 9 } ∷ [];
}

later_first :
    read_pages (λ cursor. list_runs pair_lib 1 1 cursor all_runs joined) 3 none
    ≡ joined_read 1 joined later_run ∷ joined_read 1 joined queued_run ∷ []
unfolding list_runs read_pages list_page
later_first = refl

later_run_shown :
    run_summary 1 9 joined
    ≡ some (record (joined_read 1 joined queued_run) {
      id = 9;
      finding_count = 1;
      scheduled_for = 190;
      failure_code = some (str "run_cost_limit");
      failure_summary = some (str "The scan usage limit was reached.");
      created_at = 200;
    })
unfolding run_summary run_read is_safe_code run_summaries text_eq
later_run_shown = refl
