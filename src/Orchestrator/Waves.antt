-- ===== src/Orchestrator/Waves.antt =====
-- The child tasks of a run in agents/orchestrator.py: `_create_child_tasks`, the waves of
-- `execute_daily_run` and `_deduplicate_evidence`.
use competitor_scout.Prelude.{
  ℕ, suc, Bool, List, [], ◌∷◌, ◌++◌, Option, none, some, if◌then◌else◌, Result, ok, ◌>>◌, guard,
  is_some, any,
}
use competitor_scout.Prelude.Texts.{Text, str}
use competitor_scout.Json.{Value}
use competitor_scout.Evidence.{ChildTaskKind, first_party_source_review, news_discovery}
use competitor_scout.Paging.Tasks.{AgentTask, child_researcher, queued}
use competitor_scout.Runs.{ScoutRun, ScoutRunStatus, get_run, put_run}
use competitor_scout.Orchestrator.Usage.{OtariMetadata, UsageAccumulator, add, mark_unsettled}
use competitor_scout.Orchestrator.Plans.{PlannedChildTask, ScoutPlan}
use competitor_scout.Orchestrator.Store.{Store, Crash, run_disappeared}
use competitor_scout.Orchestrator.Planning.{MainContext, Reply}
use competitor_scout.Orchestrator.Children.{ChildPayload, ChildOutcome, AcceptedEvidence, same_item}
use competitor_scout.Orchestrator.ChildLoop.{Progress, ChildTask}

-- A child of a wave and where its loop stands.
abbrev pub Child : Type 0
Child = ChildTask × Progress

unfoldable pub child_timeout : Text
child_timeout = str "child_timeout"

unfoldable pub run_cost_limit : Text
run_cost_limit = str "run_cost_limit"

unfoldable pub kind_text : ChildTaskKind → Text
kind_text first_party_source_review = str "first_party_source_review"
kind_text news_discovery = str "news_discovery"

-- The `source_scope` of a child task, as JSON texts.
abbrev pub query_of : Option Text → Text
query_of none = str "None"
query_of (some query) = query

unfoldable pub scope_of : PlannedChildTask → List Text
scope_of planned = elim planned.source_urls [
  | [] ↦ (str "search:" ++ query_of planned.search_query) ∷ []
  | url ∷ urls ↦ url ∷ urls
]

unfoldable pub deduplicate_evidence :
    List AcceptedEvidence → List AcceptedEvidence → List AcceptedEvidence
deduplicate_evidence seen [] = []
deduplicate_evidence seen (item ∷ items) =
    let skipped = deduplicate_evidence seen items in
    let kept = deduplicate_evidence (item ∷ seen) items in
    if any (λ other. same_item other.evidence item.evidence) seen then skipped else item ∷ kept

-- The accepted evidence of all outcomes, in their order.
abbrev pub all_accepted : List ChildOutcome → List AcceptedEvidence
all_accepted [] = []
all_accepted (o ∷ os) = o.accepted ++ all_accepted os

abbrev pub stop_codes : List ChildOutcome → List Text
stop_codes [] = []
stop_codes (o ∷ os) = elim o.budget_stop_code [
  | none ↦ stop_codes os
  | some code ↦ code ∷ stop_codes os
]

abbrev pub add_each : List OtariMetadata → UsageAccumulator → UsageAccumulator
add_each [] u = u
add_each (m ∷ ms) u = add_each ms (add m u)

-- The usage of the outcomes of a wave.
abbrev pub add_outcomes : List ChildOutcome → UsageAccumulator → UsageAccumulator
add_outcomes [] u = u
add_outcomes (o ∷ os) u =
    let u' = add_each o.metadata u in
    add_outcomes os (if o.unsettled_attempt then mark_unsettled u' else u')

abbrev pub ids_of : List ChildTask → List ℕ
ids_of [] = []
ids_of (t ∷ ts) = t.id ∷ ids_of ts

-- What the world does to a planned task, by its place in the plan.
pub record ChildWorld : Type 0 where
  pub encoded_size : ℕ → ℕ → ℕ
  pub reply : ℕ → ℕ → Reply ChildPayload
  pub time_left : ℕ → ℕ → ℕ
  pub is_cut_off : ℕ → ℕ → Bool

module _ (clock : Store → ℕ) (uuid4 : List AgentTask → ℕ) (child_model : Text)
    (text_values : List Text → List Value) (ctx : MainContext) where
  abbrev pub child_row : ℕ → PlannedChildTask → ℕ → AgentTask
  child_row id planned now = record {
    id = id;
    scout_run_id = ctx.run_id;
    parent_task_id = some ctx.planner_task_id;
    role = child_researcher;
    task_kind = kind_text planned.kind;
    status = queued;
    model = child_model;
    objective = planned.objective;
    source_scope = text_values (scope_of planned);
    attempt_count = 0;
    started_at = none;
    completed_at = none;
    otari_request_id = none;
    input_tokens = 0;
    output_tokens = 0;
    tool_calls = none;
    settled_cost_usd = none;
    pricing_source = none;
    validated_output = none;
    error_code = none;
    error_summary = none;
    created_at = now;
  }

  abbrev pub insert_children :
      ChildWorld → ℕ → List PlannedChildTask → Store → List ChildTask × Store
  insert_children world place [] w = ([], w)
  insert_children world place (planned ∷ plans) w =
      let id = uuid4 w.tasks in
      let rest =
        insert_children world (suc place) plans
          (record w { tasks = w.tasks ++ child_row id planned (clock w) ∷ [] }) in
      let task : ChildTask = record {
        id = id;
        planned = planned;
        encoded_size = world.encoded_size place;
        reply = world.reply place;
        time_left = world.time_left place;
        is_cut_off = world.is_cut_off place;
      } in
      (task ∷ rest.0, rest.1)

  abbrev pub gathering : ScoutRun → ScoutRun
  gathering r = record r { status = ScoutRunStatus.gathering }

  unfoldable pub create_child_tasks :
      ChildWorld → ScoutPlan → Store → Result Crash (List ChildTask × Store)
  create_child_tasks world plan w = do
    guard (is_some (get_run ctx.run_id w.runs)) run_disappeared
    let created = insert_children world 0 plan.tasks w
    ok (created.0, record created.1 { runs = put_run ctx.run_id gathering created.1.runs })
