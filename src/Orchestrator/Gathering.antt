-- ===== src/Orchestrator/Gathering.antt =====
-- The waves of `execute_daily_run` in agents/orchestrator.py, with `_execute_child`. The children of
-- a wave run concurrently: the order of their rounds is a schedule, a list of places in the wave. A
-- round is one turn because it touches what the children share only where it reserves its estimate.
-- A child that the schedule leaves in its loop meets its deadline there, as does one that is cut off
-- in a round.
use competitor_scout.Prelude.{
  ℕ, zero, suc, Bool, List, [], ◌∷◌, ◌++◌, Option, none, some, if◌then◌else◌, Result, ok, ◌>>=◌,
  take, drop, map,
}
use competitor_scout.Prelude.Texts.{Text}
use competitor_scout.Evidence.{}
use competitor_scout.Orchestrator.Usage.{UsageAccumulator, run_budget_reached}
use competitor_scout.Orchestrator.Store.{Store, Crash, cancel_tasks, fail_task}
use competitor_scout.Orchestrator.Planning.{agent_task_failed}
use competitor_scout.Orchestrator.Children.{ChildOutcome, lost_outcome}
use competitor_scout.Orchestrator.ChildLoop.{
  in_loop, timed_out, done, ChildTask, ChildEnv, first_round,
}
use competitor_scout.Orchestrator.Attempts.{attempt_child}
use competitor_scout.Orchestrator.Waves.{
  Child, child_timeout, run_cost_limit, stop_codes, add_outcomes, ids_of,
}

-- The outcomes of waves, and why they stopped before the plan was done.
abbrev pub Gathered : Type 0
Gathered = Result Crash (List ChildOutcome × Option Text × UsageAccumulator × Store)

abbrev pub start : ChildTask → Child
start t = (t, in_loop first_round)

module _ (env : ChildEnv) where
  -- One round of the child at a place of the wave.
  unfoldable pub turn :
      ℕ
      → List Child
      → UsageAccumulator
      → Store
      → Result Crash (List Child × UsageAccumulator × Store)
  turn i [] u w = ok ([], u, w)
  turn zero ((t, done o) ∷ cs) u w = ok ((t, done o) ∷ cs, u, w)
  turn zero ((t, timed_out) ∷ cs) u w = ok ((t, timed_out) ∷ cs, u, w)
  turn zero ((t, in_loop s) ∷ cs) u w = do
    r ← attempt_child env t s u w
    ok ((t, r.0) ∷ cs, r.1, r.2)
  turn (suc i) (c ∷ cs) u w = do r ← turn i cs u w; ok (c ∷ r.0, r.1, r.2)

  unfoldable pub turns :
      List ℕ
      → List Child
      → UsageAccumulator
      → Store
      → Result Crash (List Child × UsageAccumulator × Store)
  turns [] cs u w = ok (cs, u, w)
  turns (i ∷ is) cs u w = do r ← turn i cs u w; turns is r.0 r.1 r.2

  -- The outcomes of the children; the timeout of those that have not returned.
  unfoldable pub expire : List Child → Store → List ChildOutcome × Store
  expire [] w = ([], w)
  expire ((t, done o) ∷ cs) w = let rest = expire cs w in (o ∷ rest.0, rest.1)
  expire ((t, _) ∷ cs) w =
      let rest = expire cs (
        fail_task env.clock env.ctx.user_id env.ctx.run_id t.id child_timeout none Bool.false
          agent_task_failed w) in
      (lost_outcome ∷ rest.0, rest.1)

  -- After a wave whose outcomes have these stop codes; `again` is the rest of the waves.
  abbrev pub after_wave :
      List Text
      → List ChildOutcome
      → List ChildTask
      → (UsageAccumulator → Store → Gathered)
      → UsageAccumulator
      → Store
      → Gathered
  after_wave (code ∷ codes) outcomes rest again u w =
      ok (outcomes, some code, u, cancel_tasks env.clock (ids_of rest) code w)
  after_wave [] outcomes rest again u w =
      if run_budget_reached env.ctx.limits u
      then ok
          (outcomes, some run_cost_limit, u, cancel_tasks env.clock (ids_of rest) run_cost_limit w)
      else (do r ← again u w; ok (outcomes ++ r.0, r.1, r.2, r.3))

  -- The waves of at most `wave_size` children each, of which there are at most `fuel`.
  unfoldable pub gather :
      (ℕ → List ℕ) → ℕ → ℕ → ℕ → List ChildTask → UsageAccumulator → Store → Gathered
  unfolding turns expire
  gather schedule wave_size zero place ts u w = ok ([], none, u, w)
  gather schedule wave_size (suc fuel) place [] u w = ok ([], none, u, w)
  gather schedule wave_size (suc fuel) place (t ∷ ts) u w =
      let again = gather schedule wave_size fuel (suc place) (drop wave_size (t ∷ ts)) in
      (do
        r ← turns (schedule place) (map start (take wave_size (t ∷ ts))) u w
        let expired = expire r.0 r.2
        after_wave (stop_codes expired.0) expired.0 (drop wave_size (t ∷ ts)) again
            (add_outcomes expired.0 r.1) expired.1)
