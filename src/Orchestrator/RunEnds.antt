-- ===== src/Orchestrator/RunEnds.antt =====
-- How `execute_daily_run` of agents/orchestrator.py ends the runs that it starts.
use competitor_scout.Prelude.{
  ℕ, ◌≤◌, ◌≡◌, refl, sym, Bool, true, List, Option, none, some, ◌==◌, inl, EndsOr, Ends-or,
  EndsOr-bind, EndsOr-mono,
}
use mathlib.Core.Path.{subst}
use competitor_scout.Competitors.{Competitor, Tables}
use competitor_scout.Paging.Tasks.{AgentTask}
use competitor_scout.Runs.{is_scout, ScoutRun, get_run}
use competitor_scout.Orchestrator.Usage.{Ceilings, no_usage}
use competitor_scout.Orchestrator.Store.{Store, get_task}
use competitor_scout.Orchestrator.Planning.{MainContext}
use competitor_scout.Orchestrator.Persisting.{EvidenceTables}
use competitor_scout.Orchestrator.Starting.{start_run}
use competitor_scout.Orchestrator.Execution.{
  World, Settings, execute_begun, after_start, execute_daily_run,
}
use competitor_scout.Orchestrator.Invariant.{Good}
use competitor_scout.Orchestrator.StartEnds.{
  Settled, Started, OwnedEvidence, limits_of, start_run-Ends,
}
use competitor_scout.Orchestrator.SynthesisEnds.{Refused}
use competitor_scout.Orchestrator.Outcome.{Over, Outcome, end_as_stored-Ends, execute_begun-Ends}

module _ {Finding : Type 0} (world : World Finding) (settings : Settings) where
  module _ (now run : ℕ) (db : Tables) (has_snapshot : ℕ → Bool) (evidence : EvidenceTables)
      (uuid4_fresh : (ts : List AgentTask) → get_task (world.uuid4 ts) ts ≡ none)
      (positive : 1 ≤ settings.max_concurrent_child_tasks) where
    after_start-Ends :
        (limits : Ceilings) (o : Option (MainContext × Competitor) × Store)
        → Started run limits evidence.items o
        → EndsOr
            (Refused world.urls)
            (Outcome run limits)
            (after_start world settings run evidence o)
    unfolding after_start
    after_start-Ends limits (none, w) (g, final) =
        Ends-or (Refused world.urls) (Outcome run limits) _
          (end_as_stored-Ends world settings run limits no_usage evidence w g final (inl refl))
    after_start-Ends limits (some (ctx, c), w) (same, within_limits, within, g, own) =
        subst
          (λ n.
            EndsOr (Refused world.urls) (Outcome n limits)
              (execute_begun world settings ctx c evidence w))
          same
          (subst
            (λ l.
              EndsOr (Refused world.urls) (Outcome ctx.run_id l)
                (execute_begun world settings ctx c evidence w))
            within_limits
            (execute_begun-Ends world settings ctx uuid4_fresh c evidence own positive w within (
              subst (λ n. Good n (λ k. ctx.planner_task_id == k) (λ k. ctx.planner_task_id == k) w)
                (sym same) g)))

    execute-Ends :
        (r : ScoutRun) (w : Store)
        → get_run run w.runs ≡ some r
        → is_scout r.run_type ≡ true
        → Settled run w
        → OwnedEvidence db evidence.items
        → EndsOr
            (Refused world.urls)
            (Outcome run (
              limits_of now world.uuid4 uuid4_fresh settings.run world.text_values db has_snapshot
                evidence.items r w))
            (execute_daily_run world settings now run db has_snapshot evidence w)
    unfolding execute_daily_run
    execute-Ends r w m scout settled own =
        let limits =
          limits_of now world.uuid4 uuid4_fresh settings.run world.text_values db has_snapshot
            evidence.items r w in
        EndsOr-bind (Refused world.urls) (Started run limits evidence.items) (Outcome run limits)
          (start_run now world.uuid4 settings.run world.text_values db has_snapshot run w)
          (after_start world settings run evidence)
          (Ends-or (Refused world.urls) (Started run limits evidence.items) _ (
            start_run-Ends now world.uuid4 uuid4_fresh settings.run world.text_values db
              has_snapshot evidence.items run r w m scout settled own))
          (after_start-Ends limits)

-- The execution of a daily or manual run that is in the table returns, or raises the error
-- of `public_source_domain` on a URL that this refuses, whatever the model, its
-- tools, the publishers and the order of the concurrent rounds do: when it returns, the run is in a
-- final state, the one that was returned, and none of its tasks is queued or running, if new task ids
-- are fresh, a wave has room for a child, the evidence of a competitor belongs to its user, and the
-- run had open tasks at the start only where an earlier execution was interrupted.
pub execute_daily_run-Over :
    {Finding : Type 0} (world : World Finding) (settings : Settings) (now run : ℕ) (db : Tables)
    (has_snapshot : ℕ → Bool) (evidence : EvidenceTables)
    → ((ts : List AgentTask) → get_task (world.uuid4 ts) ts ≡ none)
    → 1 ≤ settings.max_concurrent_child_tasks
    → (r : ScoutRun) (w : Store) → get_run run w.runs ≡ some r
    → is_scout r.run_type ≡ true
    → Settled run w
    → OwnedEvidence db evidence.items
    → EndsOr
        (Refused world.urls)
        (λ (status, u, tables, w'). Over run status w')
        (execute_daily_run world settings now run db has_snapshot evidence w)
execute_daily_run-Over world settings now run db has_snapshot evidence fresh positive r w m scout
      settled own =
    EndsOr-mono (Refused world.urls) _ (λ (status, u, tables, w'). Over run status w') _
      (execute-Ends world settings now run db has_snapshot evidence fresh positive r w m scout
        settled own)
      (λ a h. h.0)
