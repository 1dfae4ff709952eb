-- ===== src/Orchestrator/Tests.antt =====
-- A small run: tests, and instances of the theorems.
use competitor_scout.Orchestrator.Invariant.{open_in}
use competitor_scout.Orchestrator.Interleavings.{attempt_at}
use competitor_scout.Orchestrator.WaveEnds.{children_end, one_of}
use competitor_scout.Orchestrator.PlanLimits.{plan_limits}
use competitor_scout.Orchestrator.Totals.{account, usage_totals}
use competitor_scout.Paging.{order_by}
use competitor_scout.Orchestrator.Gathering.{turn, turns, expire, gather, start}
use competitor_scout.Prelude.{
  ℕ, ◌≤◌, ◌≡◌, refl, true, false, List, [], ◌∷◌, Option, none, some, ok, err, arith, Ends, EndsOr,
  take, map, Memᴰ,
}
use competitor_scout.Prelude.Texts.{
  Text, text_eq, strip, collapse, mem_text, contains, starts_with, drop_end, drop_while, ends_with,
  is_space,
}
use competitor_scout.Evidence.{first_party_source_review, validate_evidence_scope}
use competitor_scout.Paging.Tasks.{AgentTask}
use competitor_scout.Runs.{ScoutRunStatus, partial, get_run}
use competitor_scout.Orchestrator.Usage.{
  no_usage, UsageAccumulator, add, mark_unsettled, run_budget_reached,
  request_would_exceed_cost_ceiling, recorded_cost, recorded_tool_calls,
}
use competitor_scout.Orchestrator.Plans.{PlannedChildTask, ScoutPlan, validate_scout_plan, code_of}
use competitor_scout.Orchestrator.Store.{
  Store, get_task, apply_usage, run_status, set_task_attempt, succeed_task, fail_task, cancel_tasks,
  fail_run, finish_run,
}
use competitor_scout.Orchestrator.Planning.{
  plan, safe_error_code, agent_task_failed, estimated_tokens, repairable, cost_ceiling_reached,
  main_input_token_limit, planning_failed, stop_at_ceiling, stop_failed, rounds, Phase,
}
use competitor_scout.Orchestrator.Children.{
  ChildOutcome, lost_outcome, child_source_scope_violated, child_input_token_limit,
  child_tool_budget_exceeded, firecrawl_fallback_error_codes, retry_delay,
  validate_child_inspection_scope, inspect_reply,
}
use competitor_scout.Orchestrator.ChildLoop.{ChildTask, child_task_failed, otari_budget_exceeded}
use competitor_scout.Orchestrator.Attempts.{
  firecrawl_for, handle_error, handle_result, attempt_child,
}
use competitor_scout.Orchestrator.Waves.{
  child_timeout, run_cost_limit, deduplicate_evidence, create_child_tasks, add_outcomes,
}
use competitor_scout.Orchestrator.Synthesis.{
  synthesis_failed, fitting, create_synthesis_task, synthesize_within_deadline, synthesize, publish,
}
use competitor_scout.Orchestrator.Persisting.{persist_evidence}
use competitor_scout.Orchestrator.Starting.{
  interrupted_scout_run, terminalize_interrupted_run, daily_cost, sources_of, start_with,
  start_found, start_run,
}
use competitor_scout.Orchestrator.Execution.{
  child_env, Ended, execute_daily_run, conclude, execute_begun, after_start,
}
use competitor_scout.Orchestrator.Outcome.{Over}
use competitor_scout.Orchestrator.Synthesis.{accepts_coverage, snapshot_coverage}
use competitor_scout.Orchestrator.Coverage.{snapshot_coverage-accepted}
use competitor_scout.Orchestrator.SourceDomains.{public_source_domain}
use competitor_scout.Orchestrator.SynthesisEnds.{Refused}
use competitor_scout.Orchestrator.RunEnds.{execute_daily_run-Over}
use competitor_scout.Orchestrator.Samples.{
  page, metadata, review, news, small_plan, plan_replies, child_replies, next_id, world, settings,
  queued_run, tables, no_snapshot, no_evidence, store, context, open_task, planning_store,
}

abbrev executed : Ended
executed = execute_daily_run world settings 100 7 tables no_snapshot no_evidence store

abbrev status_of : Ended → Option ScoutRunStatus
status_of (ok (status, u, db, w)) = some status
status_of (err e) = none

abbrev estimate_of : Ended → ℕ
estimate_of (ok (status, u, db, w)) = u.estimated_cost_usd
estimate_of (err e) = 0

abbrev costs_of : Ended → Option ℕ
costs_of (ok (status, u, db, w)) = elim (get_run 7 w.runs) [
  | none ↦ none
  | some r ↦ some r.input_tokens
]
costs_of (err e) = none

-- The refused child makes the run partial.
run_partial : status_of executed ≡ some partial
unfolding add mark_unsettled run_budget_reached request_would_exceed_cost_ceiling
    validate_scout_plan code_of apply_usage run_status set_task_attempt succeed_task fail_task
    cancel_tasks fail_run finish_run safe_error_code agent_task_failed estimated_tokens repairable
    cost_ceiling_reached main_input_token_limit planning_failed stop_at_ceiling stop_failed rounds
    plan child_source_scope_violated child_input_token_limit child_tool_budget_exceeded
    firecrawl_fallback_error_codes retry_delay validate_child_inspection_scope inspect_reply
    child_task_failed otari_budget_exceeded firecrawl_for handle_error handle_result attempt_child
    child_timeout run_cost_limit deduplicate_evidence create_child_tasks turn turns expire gather
    synthesis_failed fitting create_synthesis_task synthesize_within_deadline synthesize publish
    persist_evidence public_source_domain contains starts_with drop_end drop_while ends_with
    is_space interrupted_scout_run terminalize_interrupted_run daily_cost sources_of start_with
    start_found start_run conclude execute_begun after_start execute_daily_run text_eq strip
    collapse validate_evidence_scope order_by snapshot_coverage
run_partial = refl

-- Two requests of the planner, three of the children, one of the synthesis.
six_estimates : estimate_of executed ≡ 900
unfolding add mark_unsettled run_budget_reached request_would_exceed_cost_ceiling
    validate_scout_plan code_of apply_usage run_status set_task_attempt succeed_task fail_task
    cancel_tasks fail_run finish_run safe_error_code agent_task_failed estimated_tokens repairable
    cost_ceiling_reached main_input_token_limit planning_failed stop_at_ceiling stop_failed rounds
    plan child_source_scope_violated child_input_token_limit child_tool_budget_exceeded
    firecrawl_fallback_error_codes retry_delay validate_child_inspection_scope inspect_reply
    child_task_failed otari_budget_exceeded firecrawl_for handle_error handle_result attempt_child
    child_timeout run_cost_limit deduplicate_evidence create_child_tasks turn turns expire gather
    synthesis_failed fitting create_synthesis_task synthesize_within_deadline synthesize publish
    persist_evidence public_source_domain contains starts_with drop_end drop_while ends_with
    is_space interrupted_scout_run terminalize_interrupted_run daily_cost sources_of start_with
    start_found start_run conclude execute_begun after_start execute_daily_run text_eq strip
    collapse validate_evidence_scope order_by snapshot_coverage
six_estimates = refl

next_id_greater : (k : ℕ) (ts : List AgentTask) → next_id ts ≤ k → get_task k ts ≡ none
next_id_greater k [] h = refl
next_id_greater k (t ∷ ts) h = ground (arith, next_id_greater k ts)

execute_daily_run-Over_example :
    EndsOr (Refused world.urls) (λ (status, u, db, w). Over 7 status w) executed
execute_daily_run-Over_example =
    execute_daily_run-Over world settings 100 7 tables no_snapshot no_evidence
      (λ ts. next_id_greater (next_id ts) ts (omega arith)) (omega arith) queued_run store refl refl
      (λ k t r m o e. cc) (λ k c m. refl)

-- A planner's attempt that failed and one that did not, and the outcome of a child.
abbrev child_outcome : ChildOutcome
child_outcome = record lost_outcome {
  metadata = metadata 7 ∷ [];
  failed = false;
  unsettled_attempt = false;
}

usage_totals_example :
    let u = add_outcomes (child_outcome ∷ []) (account (some (metadata 11) ∷ []) no_usage) in
    (u.input_tokens ≡ 20)
    × (u.output_tokens ≡ 10)
    × (recorded_cost u ≡ some 18)
    × (recorded_tool_calls u ≡ some 2)
usage_totals_example = usage_totals (some (metadata 11) ∷ []) (child_outcome ∷ [])

abbrev planned : Phase ScoutPlan
planned = plan world.clock context world.dump_plan 40 plan_replies no_usage planning_store

abbrev usage_after : Phase ScoutPlan → UsageAccumulator
usage_after (ok (made, u, w)) = u
usage_after (err e) = no_usage

abbrev store_after : Phase ScoutPlan → Store
store_after (ok (made, u, w)) = w
store_after (err e) = store

planned_small : planned ≡ ok (some small_plan, usage_after planned, store_after planned)
unfolding add mark_unsettled run_budget_reached request_would_exceed_cost_ceiling
    validate_scout_plan code_of apply_usage run_status set_task_attempt succeed_task fail_task
    cancel_tasks fail_run finish_run safe_error_code agent_task_failed estimated_tokens repairable
    cost_ceiling_reached main_input_token_limit planning_failed stop_at_ceiling stop_failed rounds
    plan child_source_scope_violated child_input_token_limit child_tool_budget_exceeded
    firecrawl_fallback_error_codes retry_delay validate_child_inspection_scope inspect_reply
    child_task_failed otari_budget_exceeded firecrawl_for handle_error handle_result attempt_child
    child_timeout run_cost_limit deduplicate_evidence create_child_tasks turn turns expire gather
    synthesis_failed fitting create_synthesis_task synthesize_within_deadline synthesize publish
    persist_evidence public_source_domain contains starts_with drop_end drop_while ends_with
    is_space interrupted_scout_run terminalize_interrupted_run daily_cost sources_of start_with
    start_found start_run conclude execute_begun after_start execute_daily_run text_eq strip
    collapse validate_evidence_scope order_by
planned_small = refl

plan_limits_example :
    (2 ≤ 8)
    × ((t : PlannedChildTask)
        → Memᴰ t (review ∷ news ∷ [])
        → (t.max_search_calls ≤ 4)
          × (t.kind ≡ first_party_source_review
              → (url : Text) → Memᴰ url t.source_urls
              → mem_text url (page ∷ []) ≡ true))
plan_limits_example =
    plan_limits world.clock context world.dump_plan 40 plan_replies no_usage (usage_after planned)
      planning_store (store_after planned) small_plan planned_small

-- Two children of a wave, both with rows in the table.
abbrev child_task : ℕ → PlannedChildTask → ChildTask
child_task id planned = record {
  id = id;
  planned = planned;
  encoded_size = λ attempt. 40;
  reply = child_replies id;
  time_left = λ attempt. 9000000;
  is_cut_off = λ attempt. false;
}

abbrev wave : List ChildTask
wave = child_task 0 review ∷ child_task 2 news ∷ []

abbrev wave_store : Store
wave_store = record store { tasks = open_task 0 ∷ open_task 2 ∷ [] }

only_wave :
    (k : ℕ) (t : AgentTask)
    → get_task k wave_store.tasks ≡ some t
    → open_in 7 t ≡ true
    → one_of wave k ≡ true
only_wave k t m o = ground arith

children_end_example :
    Ends
      (λ (cs, v, x). attempt_at 0 cs ≡ none)
      (turns
        (child_env world settings context)
        (0 ∷ 1 ∷ 0 ∷ 0 ∷ [])
        (map start (take 4 wave))
        no_usage
        wave_store)
children_end_example =
    children_end (child_env world settings context) (λ k. one_of wave k) 4 wave (0 ∷ 1 ∷ 0 ∷ 0 ∷ [])
      no_usage wave_store 0 (refl, (refl, tt))
      (record { in_run = omega arith; in_day = omega arith })
      (record { has_run = refl; present = λ k a. ground arith; closed = only_wave }) (omega arith)

snapshot_coverage-accepted_example :
    (accepts_coverage (snapshot_coverage context (child_outcome ∷ [])) ≡ true)
    × ((snapshot_coverage context (child_outcome ∷ [])).coverage_complete ≡ false)
snapshot_coverage-accepted_example = snapshot_coverage-accepted context (child_outcome ∷ [])
