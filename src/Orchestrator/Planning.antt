-- ===== src/Orchestrator/Planning.antt =====
-- The replies of the client as agents/orchestrator.py sees them, and `_plan_within_deadline`.
-- What the prompts and the client make of a request is an argument: the size of the messages, and
-- the reply to each attempt.
use competitor_scout.Prelude.{
  ℕ, zero, suc, ◌+◌, ◌/◌, Bool, false, not, ◌&&◌, ◌||◌, List, [], ◌∷◌, ◌++◌, Option, none, some,
  leb, ltb, if◌then◌else◌, Result, ok, err, ◌>>=◌, length, is_some,
}
use competitor_scout.Prelude.Texts.{Text, str, text_eq, mem_text}
use competitor_scout.Json.{Value}
use competitor_scout.Competitors.{SourceCategory}
use competitor_scout.Runs.{ScoutRunStatus}
use competitor_scout.Orchestrator.Usage.{
  OtariMetadata, UsageAccumulator, Ceilings, CostEstimator, main, add, mark_unsettled,
  request_would_exceed_cost_ceiling,
}
use competitor_scout.Orchestrator.Plans.{PlanError, ScoutPlan, validate_scout_plan, code_of}
use competitor_scout.Orchestrator.Store.{
  Store, Crash, set_task_attempt, succeed_task, fail_task, cancel_tasks, fail_run, finish_run,
}

-- What the handlers of the orchestrator read of an exception: its `code`, if that is a text,
-- whether it is an `OtariError`, and then the metadata, the issues, and `retry_after` in
-- microseconds, where `float` reads it.
pub record AgentError : Type 0 where
  pub code : Option Text
  pub is_otari : Bool
  pub retryable : Bool
  pub error_metadata : Option OtariMetadata
  pub validation_issues : List Text
  pub retry_after : Option ℕ

pub data Reply {ℓ} (A : Type ℓ) : Type ℓ where
  completion : A → OtariMetadata → Reply A
  failure : AgentError → Reply A

unfoldable pub safe_error_code : AgentError → Text → Text
safe_error_code e fallback = elim e.code [
  | none ↦ fallback
  | some code ↦ if leb (length code) 100 then code else fallback
]

abbrev pub metadata_of : AgentError → Option OtariMetadata
metadata_of e = if e.is_otari then e.error_metadata else none

unfoldable pub known_finish_reasons : List Text
known_finish_reasons = str "stop" ∷ str "length" ∷ str "tool_calls" ∷ str "content_filter" ∷ []

-- `", ".join(issues[:n])`.
unfoldable pub join_first : ℕ → List Text → Text
join_first zero issues = []
join_first (suc n) [] = []
join_first (suc n) (i ∷ []) = i
join_first (suc zero) (i ∷ j ∷ issues) = i
join_first (suc (suc n)) (i ∷ j ∷ issues) = i ++ str ", " ++ join_first (suc n) (j ∷ issues)

abbrev pub finish_note : Option Text → Text
finish_note none = []
finish_note (some reason) =
    if mem_text reason known_finish_reasons then str " after finish_reason=" ++ reason else []

abbrev pub finish_reason_of : Option OtariMetadata → Option Text
finish_reason_of none = none
finish_reason_of (some metadata) = metadata.finish_reason

unfoldable pub agent_task_failed : Text
agent_task_failed = str "agent task failed"

unfoldable pub error_summary : AgentError → Text
unfolding known_finish_reasons join_first agent_task_failed
error_summary e = if not e.is_otari then agent_task_failed else elim e.validation_issues [
  | [] ↦ agent_task_failed
  | issue ∷ issues ↦
      str "agent task output failed validation"
      ++ finish_note (finish_reason_of e.error_metadata)
      ++ str " at "
      ++ join_first 5 (issue ∷ issues)
]

-- The estimate for messages of so many bytes.
unfoldable pub estimated_tokens : ℕ → ℕ
estimated_tokens encoded_size = (encoded_size + 3) / 4

unfoldable pub repairable : Text → Bool
repairable code =
    text_eq code (str "otari_schema_error") || text_eq code (str "otari_invalid_response")

unfoldable pub cost_ceiling_reached : Text
cost_ceiling_reached = str "cost_ceiling_reached"

unfoldable pub main_input_token_limit : Text
main_input_token_limit = str "main_input_token_limit"

unfoldable pub planning_failed : Text
planning_failed = str "planning_failed"

-- The accumulator after an attempt, by what is known of its usage.
abbrev pub settle : Option OtariMetadata → UsageAccumulator → UsageAccumulator
settle none u = mark_unsettled u
settle (some metadata) u = add metadata u

-- The context of a run and the settings, as far as the requests to the main model read them.
pub record MainContext : Type 0 where
  pub run_id : ℕ
  pub user_id : ℕ
  pub planner_task_id : ℕ
  pub approved_urls : List Text
  pub approved_source_categories : List (Text × SourceCategory)
  pub initial_snapshot_required : Bool
  pub limits : Ceilings
  pub cost_estimator : Option CostEstimator
  pub max_child_tasks_per_run : ℕ
  pub max_child_search_calls : ℕ
  pub main_token_limit : ℕ
  pub max_planning_repairs : ℕ
  pub max_synthesis_repairs : ℕ

-- What a phase gives: a value, or the end of the run.
abbrev pub Phase : Type 0 → Type 0
Phase A = Result Crash (Option A × UsageAccumulator × Store)

module _ (clock : Store → ℕ) (ctx : MainContext) where
  -- The request for task `id` would cost too much: the task is cancelled and the run ends.
  unfoldable pub stop_at_ceiling : (A : Type 0) → ℕ → UsageAccumulator → Store → Phase A
  stop_at_ceiling A id u w = do
    w' ←
        finish_run clock ctx.run_id ScoutRunStatus.partial (cost_ceiling_reached ∷ []) u
          (cancel_tasks clock (id ∷ []) cost_ceiling_reached w)
    ok (none, u, w')

  -- The task fails and the run with it.
  unfoldable pub stop_failed :
      (A : Type 0)
      → ℕ
      → Text
      → Option OtariMetadata
      → Bool
      → Text
      → UsageAccumulator
      → Store
      → Phase A
  stop_failed A id code metadata unsettled summary u w = ok (
    none,
    u,
    fail_run clock ctx.run_id code u
        (fail_task clock ctx.user_id ctx.run_id id code metadata unsettled summary w),
  )

  -- The loop of requests to the main model for task `id`, which planning and synthesis share in
  -- form: `check` stands for the tests on the result after the usage is added, and gives the code of
  -- the error.
  module _ {A : Type 0} (id max_repairs : ℕ) (fallback : Text) (dump : A → Value)
      (check : A → OtariMetadata → Result Text (Unit {0})) where
    abbrev pub conclude :
        Result Text (Unit {0}) → A → OtariMetadata → Bool → UsageAccumulator → Store → Phase A
    conclude (err code) result metadata unsettled u w =
        stop_failed A id code (some metadata) unsettled agent_task_failed u w
    conclude (ok _) result metadata unsettled u w = do
      w' ← succeed_task clock ctx.user_id ctx.run_id id metadata (dump result) unsettled w
      ok (some result, u, w')

    -- What is done with a reply; `again` is the next round.
    abbrev pub after_reply :
        (Bool → UsageAccumulator → Store → Phase A)
        → ℕ
        → Bool
        → UsageAccumulator
        → Reply A
        → Store
        → Phase A
    after_reply again attempt unsettled u (completion result metadata) w =
        conclude (check result metadata) result metadata unsettled (add metadata u) w
    after_reply again attempt unsettled u (failure e) w =
        let code = safe_error_code e fallback in
        let unsettled' = unsettled || not (is_some (metadata_of e)) in
        let u' = settle (metadata_of e) u in
        if repairable code && leb attempt max_repairs
        then again unsettled' u' w
        else stop_failed A id code (metadata_of e) unsettled' (error_summary e) u' w

    -- The rounds from `attempt` on, of which there are `left`.
    unfoldable pub rounds : (ℕ → Reply A) → ℕ → ℕ → Bool → UsageAccumulator → Store → Phase A
    rounds reply zero attempt unsettled u w = ok (none, u, w)
    rounds reply (suc left) attempt unsettled u w =
        let again = rounds reply left (suc attempt) in
        let reserved = request_would_exceed_cost_ceiling ctx.limits ctx.cost_estimator main u in
        if reserved.0 then stop_at_ceiling A id reserved.1 w else (do
          w₁ ← set_task_attempt clock id attempt w
          after_reply again attempt unsettled reserved.1 (reply attempt) w₁)

  -- The last test on a result: the input tokens that the client reports.
  abbrev pub within_token_limit : OtariMetadata → Result Text (Unit {0})
  within_token_limit metadata =
      if ltb ctx.main_token_limit metadata.usage.input_tokens
      then err main_input_token_limit
      else ok tt

  abbrev pub after_validation : OtariMetadata → Result PlanError (Unit {0}) → Result Text (Unit {0})
  after_validation metadata (err e) = err (code_of e)
  after_validation metadata (ok _) = within_token_limit metadata

  abbrev pub check_plan : ScoutPlan → OtariMetadata → Result Text (Unit {0})
  check_plan plan metadata = after_validation metadata (
      validate_scout_plan plan ctx.approved_urls ctx.max_child_tasks_per_run
        ctx.max_child_search_calls)

  unfoldable pub plan :
      (ScoutPlan → Value) → ℕ → (ℕ → Reply ScoutPlan) → UsageAccumulator → Store → Phase ScoutPlan
  plan dump planning_size reply u w =
      if ltb ctx.main_token_limit (estimated_tokens planning_size)
      then stop_failed ScoutPlan ctx.planner_task_id main_input_token_limit none false
          agent_task_failed u w
      else rounds ctx.planner_task_id ctx.max_planning_repairs planning_failed dump check_plan reply
          (suc ctx.max_planning_repairs) 1 false u w
