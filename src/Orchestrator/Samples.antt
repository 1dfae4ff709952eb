-- ===== src/Orchestrator/Samples.antt =====
-- The world, the settings and the tables of a small run.
use competitor_scout.Orchestrator.Interleavings.{}
use competitor_scout.Orchestrator.PlanLimits.{}
use competitor_scout.Paging.{}
use competitor_scout.Prelude.{
  ◌==◌, ◌&&◌, ℕ, zero, suc, Bool, true, false, List, [], ◌∷◌, none, some, ltb, leb, max,
  if◌then◌else◌,
}
use competitor_scout.Prelude.Texts.{Text, str}
use competitor_scout.Urls.{UrlLib, no_port}
use competitor_scout.Json.{null}
use competitor_scout.Evidence.{
  first_party_source_review, news_discovery, first_party, EvidenceCandidate, canonical,
}
use competitor_scout.Competitors.{Competitor, MonitoredSource, Tables, active, approved, pricing}
use competitor_scout.Paging.Tasks.{AgentTask}
use competitor_scout.Runs.{ScoutRun, daily_scout, queued}
use competitor_scout.Orchestrator.Usage.{OtariMetadata, configured_cost_estimator}
use competitor_scout.Orchestrator.Plans.{FindingCategory, PlannedChildTask, ScoutPlan}
use competitor_scout.Orchestrator.Store.{Store}
use competitor_scout.Orchestrator.Planning.{AgentError, Reply, completion, failure, MainContext}
use competitor_scout.Orchestrator.Children.{ChildPayload}
use competitor_scout.Orchestrator.Waves.{child_row}
use competitor_scout.Orchestrator.Synthesis.{published}
use competitor_scout.Orchestrator.Persisting.{EvidenceTables}
use competitor_scout.Orchestrator.Execution.{World, Settings}

abbrev pub page : Text
page = str "https://a.test"

abbrev pub metadata : ℕ → OtariMetadata
metadata cost = record {
  request_id = none;
  usage = record {
    input_tokens = 10;
    output_tokens = 5;
    tool_calls = some 1;
    cost_usd = some cost;
    pricing_source = none;
  };
  finish_reason = none;
}

abbrev pub schema_error : AgentError
schema_error = record {
  code = some (str "otari_schema_error");
  is_otari = true;
  retryable = false;
  error_metadata = some (metadata 7);
  validation_issues = str "$.tasks" ∷ str "$.x" ∷ [];
  retry_after = none;
}

abbrev pub refusal : AgentError
refusal = record {
  code = some (str "otari_refusal");
  is_otari = true;
  retryable = false;
  error_metadata = none;
  validation_issues = [];
  retry_after = none;
}

abbrev pub review : PlannedChildTask
review = record {
  kind = first_party_source_review;
  objective = str "prices";
  source_urls = page ∷ [];
  search_query = none;
  expected_category = FindingCategory.other;
  max_search_calls = 2;
  completion_criteria = str "read";
}

abbrev pub news : PlannedChildTask
news = record review { kind = news_discovery; source_urls = []; search_query = some (str "acme") }

abbrev pub small_plan : ScoutPlan
small_plan = record { tasks = review ∷ news ∷ [] }

abbrev pub quote : EvidenceCandidate
quote = record {
  source_url = page;
  source_title = str "P";
  source_type = first_party;
  quoted_text = str "The plan costs 9 dollars";
  normalized_claim = str "9 dollars";
  published_at = none;
  confidence = str "1";
  limitations = [];
}

-- The plan needs a repair; the review succeeds after a retry, the search for news is refused.
abbrev pub plan_replies : ℕ → Reply ScoutPlan
plan_replies attempt =
    if leb attempt 1 then failure schema_error else completion small_plan (metadata 11)

abbrev pub child_replies : ℕ → ℕ → Reply ChildPayload
child_replies zero attempt =
    if leb attempt 1
    then failure schema_error
    else completion
        (record {
          result = record { sources_inspected = page ∷ []; evidence = quote ∷ [] };
          rejections = [];
        })
        (metadata 13)
child_replies (suc place) attempt = failure refusal

abbrev pub next_id : List AgentTask → ℕ
next_id [] = 1
next_id (t ∷ ts) = suc (max t.id (next_id ts))

abbrev pub no_text : Text → Text
no_text t = t

abbrev skip : ℕ → Text → Text
skip zero t = t
skip (suc n) [] = []
skip (suc n) (c ∷ t) = skip n t

-- URLs of a scheme of 8 characters and a host.
abbrev url_lib : UrlLib
url_lib = record {
  urlsplit = λ t. some (record {
    scheme = str "https";
    username = none;
    password = none;
    hostname = some (skip 8 t);
    url_port = no_port;
    path = [];
  });
  urlunsplit = λ scheme host path. host;
  casefold = no_text;
  idna = some;
  ip_address = λ t. none;
  top_domain = no_text;
}

abbrev pub world : World Unit
world = record {
  clock = λ w. 100;
  uuid4 = next_id;
  evidence_uuid4 = λ items. 1;
  text_values = λ texts. [];
  dump_plan = λ p. null;
  dump_child = λ c. null;
  dump_synthesis = λ s. null;
  validator = canonical;
  sha256 = no_text;
  is_control = λ c. ltb c 32;
  urls = url_lib;
  planning_size = 40;
  plan_reply = plan_replies;
  children = record {
    encoded_size = λ place attempt. 40;
    reply = child_replies;
    time_left = λ place attempt. 9000000;
    is_cut_off = λ place attempt. place == 1 && attempt == 2;
  };
  schedule = λ wave. 0 ∷ 1 ∷ 0 ∷ 1 ∷ [];
  synthesis_size = λ items. 40;
  synthesis_reply =
      λ attempt. completion (record { findings = tt ∷ []; referenced_ids = none }) (metadata 17);
  snapshot_publisher = none;
  publisher = λ f. published;
}

abbrev pub settings : Settings
settings = record {
  run = record {
    otari_main_model = str "main";
    max_run_cost_usd = 1000;
    max_user_daily_cost_usd = 2000;
    cost_estimator = some (configured_cost_estimator 100 200);
    max_child_tasks_per_run = 8;
    max_child_search_calls = 4;
    main_token_limit = 32000;
    max_planning_repairs = 1;
    max_synthesis_repairs = 1;
  };
  child = record { max_child_retries = 1; child_token_limit = 16000; has_firecrawl = false };
  otari_child_model = str "child";
  max_concurrent_child_tasks = 4;
}

abbrev pub queued_run : ScoutRun
queued_run = record {
  id = 7;
  user_id = 1;
  competitor_id = some 5;
  run_type = daily_scout;
  status = queued;
  scheduled_for = 90;
  started_at = none;
  completed_at = none;
  failure_code = none;
  failure_summary = none;
  partial_reasons = [];
  input_tokens = 0;
  output_tokens = 0;
  tool_calls = none;
  settled_cost_usd = none;
  created_at = 90;
}

abbrev pub acme : Competitor
acme = record {
  id = 5;
  user_id = 1;
  name = str "Acme";
  primary_domain = str "a.test";
  description = [];
  status = active;
  daily_run_time_local = 0;
  created_at = 1;
  deleted_at = none;
  starting_snapshot_requested_at = none;
}

abbrev pub prices : MonitoredSource
prices = record {
  id = 3;
  competitor_id = 5;
  url = page;
  normalized_url = page;
  source_category = pricing;
  title = str "P";
  discovery_reason = [];
  approval_status = approved;
  created_at = 2;
}

abbrev pub tables : Tables
tables = record { competitors = acme ∷ []; sources = prices ∷ [] }

abbrev pub no_snapshot : ℕ → Bool
no_snapshot c = false

abbrev pub no_evidence : EvidenceTables
no_evidence = record { items = []; observations = [] }

abbrev pub store : Store
store = record { runs = queued_run ∷ []; tasks = []; usage_events = [] }

abbrev pub context : MainContext
context = record {
  run_id = 7;
  user_id = 1;
  planner_task_id = 1;
  approved_urls = page ∷ [];
  approved_source_categories = (page, pricing) ∷ [];
  initial_snapshot_required = false;
  limits = record {
    max_run_cost_usd = 1000;
    max_user_daily_cost_usd = 2000;
    initial_daily_cost = 0;
  };
  cost_estimator = some (configured_cost_estimator 100 200);
  max_child_tasks_per_run = 8;
  max_child_search_calls = 4;
  main_token_limit = 32000;
  max_planning_repairs = 1;
  max_synthesis_repairs = 1;
}

abbrev pub open_task : ℕ → AgentTask
open_task id =
    child_row world.clock world.uuid4 (str "child") world.text_values context id review 90

abbrev pub planning_store : Store
planning_store = record store { tasks = open_task 1 ∷ [] }
