-- ===== src/Orchestrator/Usage.antt =====
-- `_UsageAccumulator`, `_run_budget_reached` and `_request_would_exceed_cost_ceiling` of
-- agents/orchestrator.py, with the usage that agents/client.py reports and agents/costs.py.
-- Costs are millionths of a dollar.
use competitor_scout.Prelude.{
  ℕ, ◌+◌, Bool, true, false, ◌&&◌, ◌||◌, Option, none, some, ltb, leb, if◌then◌else◌, max,
}
use competitor_scout.Prelude.Texts.{Text}

pub record OtariUsage : Type 0 where
  pub input_tokens : ℕ
  pub output_tokens : ℕ
  pub tool_calls : Option ℕ
  pub cost_usd : Option ℕ
  pub pricing_source : Option Text

pub record OtariMetadata : Type 0 where
  pub request_id : Option Text
  pub usage : OtariUsage
  pub finish_reason : Option Text

pub record UsageAccumulator : Type 0 where
  pub input_tokens : ℕ
  pub output_tokens : ℕ
  pub tool_calls : ℕ
  pub settled_cost_usd : ℕ
  pub has_usage : Bool
  pub tool_calls_known : Bool
  pub cost_known : Bool
  pub estimated_cost_usd : ℕ

-- `_UsageAccumulator()`.
abbrev pub no_usage : UsageAccumulator
no_usage = record {
  input_tokens = 0;
  output_tokens = 0;
  tool_calls = 0;
  settled_cost_usd = 0;
  has_usage = false;
  tool_calls_known = true;
  cost_known = true;
  estimated_cost_usd = 0;
}

-- A total that is known as long as every addend is.
abbrev pub is_known : Bool → Option ℕ → Bool
is_known known none = false
is_known known (some n) = known

abbrev pub plus_known : Bool → Option ℕ → ℕ → ℕ
plus_known known none total = total
plus_known true (some n) total = total + n
plus_known false (some n) total = total

unfoldable pub add : OtariMetadata → UsageAccumulator → UsageAccumulator
add metadata u =
    let usage = metadata.usage in
    record u {
      has_usage = true;
      input_tokens = u.input_tokens + usage.input_tokens;
      output_tokens = u.output_tokens + usage.output_tokens;
      tool_calls_known = is_known u.tool_calls_known usage.tool_calls;
      tool_calls = plus_known u.tool_calls_known usage.tool_calls u.tool_calls;
      cost_known = is_known u.cost_known usage.cost_usd;
      settled_cost_usd = plus_known u.cost_known usage.cost_usd u.settled_cost_usd;
    }

unfoldable pub mark_unsettled : UsageAccumulator → UsageAccumulator
mark_unsettled u = record u { has_usage = true; tool_calls_known = false; cost_known = false }

abbrev pub recorded_tool_calls : UsageAccumulator → Option ℕ
recorded_tool_calls u = if u.has_usage && u.tool_calls_known then some u.tool_calls else none

abbrev pub recorded_cost : UsageAccumulator → Option ℕ
recorded_cost u = if u.has_usage && u.cost_known then some u.settled_cost_usd else none

-- The two ceilings of the settings, and what the user had spent on the day before the run.
pub record Ceilings : Type 0 where
  pub max_run_cost_usd : ℕ
  pub max_user_daily_cost_usd : ℕ
  pub initial_daily_cost : ℕ

pub data CostEstimateRole : Type 0 where
  main child : CostEstimateRole

-- What an estimator gives, `none` for no estimate: it raised, or gave None or a number that is not
-- finite or negative.
abbrev pub CostEstimator : Type 0
CostEstimator = CostEstimateRole → Option ℕ

-- `ConfiguredCostEstimator.__call__`.
abbrev pub configured_cost_estimator : ℕ → ℕ → CostEstimator
configured_cost_estimator for_child for_main child = some for_child
configured_cost_estimator for_child for_main main = some for_main

abbrev pub current_cost : UsageAccumulator → ℕ
current_cost u = elim (recorded_cost u) [
  | none ↦ u.estimated_cost_usd
  | some cost ↦ max cost u.estimated_cost_usd
]

unfoldable pub run_budget_reached : Ceilings → UsageAccumulator → Bool
run_budget_reached limits u =
    leb limits.max_run_cost_usd (current_cost u)
    || leb limits.max_user_daily_cost_usd (limits.initial_daily_cost + current_cost u)

abbrev pub exceeds : Ceilings → ℕ → ℕ → Bool
exceeds limits current estimate =
    ltb limits.max_run_cost_usd (current + estimate)
    || ltb limits.max_user_daily_cost_usd (limits.initial_daily_cost + current + estimate)

abbrev pub reserve : Ceilings → Option ℕ → UsageAccumulator → Bool × UsageAccumulator
reserve limits none u = (false, u)
reserve limits (some estimate) u =
    if exceeds limits u.estimated_cost_usd estimate
    then (true, u)
    else (false, record u { estimated_cost_usd = u.estimated_cost_usd + estimate })

-- `none` stands for an orchestrator without an estimator.
unfoldable pub request_would_exceed_cost_ceiling :
    Ceilings → Option CostEstimator → CostEstimateRole → UsageAccumulator → Bool × UsageAccumulator
request_would_exceed_cost_ceiling limits none role u = (false, u)
request_would_exceed_cost_ceiling limits (some estimator) role u = reserve limits (estimator role) u
