-- ===== src/Orchestrator/Plans.antt =====
-- The plan of a run in agents/contracts.py, and what agents/orchestrator.py asks of it: the loop
-- budget of a task and `validate_scout_plan`.
use competitor_scout.Prelude.{
  ℕ, ◌+◌, Bool, true, false, not, ◌&&◌, List, [], ◌∷◌, Option, ltb, Result, ok, ◌>>◌, guard, length,
  min, any,
}
use competitor_scout.Prelude.Texts.{Text, str, mem_text}
use competitor_scout.Evidence.{ChildTaskKind, first_party_source_review, news_discovery}

pub data FindingCategory : Type 0 where
  pricing product positioning integration customer_win partnership : FindingCategory
  leadership hiring market_expansion other : FindingCategory

pub record PlannedChildTask : Type 0 where
  pub kind : ChildTaskKind
  pub objective : Text
  pub source_urls : List Text
  pub search_query : Option Text
  pub expected_category : FindingCategory
  pub max_search_calls : ℕ
  pub completion_criteria : Text

pub record ScoutPlan : Type 0 where
  pub tasks : List PlannedChildTask

abbrev pub max_otari_tool_iterations : ℕ
max_otari_tool_iterations = 25

abbrev pub tool_iteration_headroom : ℕ
tool_iteration_headroom = 3

unfoldable pub tool_iteration_budget : ℕ → ℕ
tool_iteration_budget max_search_calls =
    min (max_search_calls + tool_iteration_headroom) max_otari_tool_iterations

pub data PlanError : Type 0 where
  invalid_plan_limits invalid_plan_scope : PlanError

abbrev pub outside : List Text → Text → Bool
outside approved url = not (mem_text url approved)

abbrev pub is_review : ChildTaskKind → Bool
is_review first_party_source_review = true
is_review news_discovery = false

abbrev pub check_tasks : List Text → ℕ → List PlannedChildTask → Result PlanError (Unit {0})
check_tasks approved max_search_calls [] = ok tt
check_tasks approved max_search_calls (t ∷ ts) = do
  guard (not (ltb max_search_calls t.max_search_calls)) invalid_plan_limits
  guard (not (is_review t.kind && any (outside approved) t.source_urls)) invalid_plan_scope
  check_tasks approved max_search_calls ts

unfoldable pub validate_scout_plan : ScoutPlan → List Text → ℕ → ℕ → Result PlanError (Unit {0})
validate_scout_plan plan approved max_tasks max_search_calls = do
  guard (not (ltb max_tasks (length plan.tasks))) invalid_plan_limits
  check_tasks approved max_search_calls plan.tasks

unfoldable pub code_of : PlanError → Text
code_of invalid_plan_limits = str "invalid_plan_limits"
code_of invalid_plan_scope = str "invalid_plan_scope"
