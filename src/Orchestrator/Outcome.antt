-- ===== src/Orchestrator/Outcome.antt =====
-- A run of agents/orchestrator.py from its start to its end.
use competitor_scout.Prelude.{
  ℕ, ◌≤◌, ◌≡◌, refl, true, false, List, [], ◌∷◌, Option, none, some, ◌==◌, ==_refl, ◌⊎◌, inl, inr,
  arith, Result, ok, err, Ends, Ends-bind, EndsOr, Ends-or, EndsOr-bind, EndsOr-if, ◌>>=◌,
  Bool-cases, any, all, length,
}
use competitor_scout.Prelude.Tables.{find-update}
use competitor_scout.Prelude.Texts.{Text}
use competitor_scout.Competitors.{Competitor}
use competitor_scout.Paging.Tasks.{AgentTask}
use competitor_scout.Runs.{ScoutRun, ScoutRunStatus, partial, failed, get_run, is_final, run_id_of}
use competitor_scout.Orchestrator.Usage.{UsageAccumulator, Ceilings, no_usage, run_budget_reached}
use competitor_scout.Orchestrator.Plans.{ScoutPlan}
use competitor_scout.Orchestrator.Store.{
  Store, get_task, apply_usage, finish_run, run_status, with_run_usage,
}
use competitor_scout.Orchestrator.Planning.{MainContext, plan}
use competitor_scout.Orchestrator.Children.{AcceptedEvidence, ChildOutcome}
use competitor_scout.Orchestrator.ChildLoop.{ChildTask}
use competitor_scout.Orchestrator.Waves.{
  run_cost_limit, create_child_tasks, all_accepted, deduplicate_evidence,
}
use competitor_scout.Orchestrator.Gathering.{gather}
use competitor_scout.Orchestrator.Synthesis.{
  SynthesisResult, PublicationFailure, synthesize, publish_covered,
}
use competitor_scout.Orchestrator.Persisting.{EvidenceTables, persist_evidence}
use competitor_scout.Orchestrator.Execution.{
  child_env, World, Settings, end_as_stored, end_failed, end_with, status_of, partial_reasons,
  after_publication, after_synthesis, with_evidence, conclude, after_plan, execute_begun,
  no_valid_evidence, publication_failed,
}
use competitor_scout.Orchestrator.Invariant.{Good, Good-run, Good-less, open_in}
use competitor_scout.Orchestrator.Budget.{Within}
use competitor_scout.Orchestrator.Rounds.{Final, Stored, fail_run-Ends, finish_run-Ends}
use competitor_scout.Orchestrator.WaveEnds.{nothing, one_of, There, Gone, gather-Ends}
use competitor_scout.Orchestrator.PhaseEnds.{Clear, plan-Ends, create_child_tasks-Ends}
use competitor_scout.Orchestrator.SynthesisEnds.{
  synthesize-Ends, persist_evidence-Ends, owned_evidence, Refused,
}

-- The run is in the final state that was returned, and none of its tasks is open.
pub record Over (run : ℕ) (status : ScoutRunStatus) (w : Store) : Type 0 where
  pub final : is_final status ≡ true
  pub stored : Stored run status w
  pub closed : (k : ℕ) (t : AgentTask) → get_task k w.tasks ≡ some t → open_in run t ≡ false

-- Nothing is reserved, or the ceilings hold.
abbrev pub InBudget : Ceilings → UsageAccumulator → Type 0
InBudget limits u = (u.estimated_cost_usd ≡ 0) ⊎ Within limits u

abbrev pub Outcome :
    ℕ → Ceilings → ScoutRunStatus × UsageAccumulator × EvidenceTables × Store → Type 0
Outcome run limits (status, u, db, w) = Over run status w × InBudget limits u

Over-stored :
    (run : ℕ) (status : ScoutRunStatus) (w : Store)
    → is_final status ≡ true
    → Good run nothing nothing w
    → Stored run status w
    → Over run status w
Over-stored run status w final g stored = record {
  final = final;
  stored = stored;
  closed = λ k t m. elim (Bool-cases (open_in run t)) [
    | inl o ↦ ground (arith, g.closed k t m o)
    | inr o ↦ o
  ];
}

run_status-found :
    (run : ℕ) (w : Store) (r : ScoutRun)
    → get_run run w.runs ≡ some r
    → run_status run w ≡ ok r.status
unfolding run_status
run_status-found run w r m = ground (arith, m)

-- `_apply_usage` leaves the tasks and the state of the run.
apply_usage-Good :
    (run : ℕ) (u : UsageAccumulator) (w : Store)
    → Good run nothing nothing w
    → Good run nothing nothing (apply_usage run u w)
unfolding apply_usage
apply_usage-Good run u w g = Good-run run nothing nothing (with_run_usage u) (λ r. refl) w g

apply_usage-Final :
    (run : ℕ) (u : UsageAccumulator) (w : Store) → Final run w → Final run (apply_usage run u w)
unfolding apply_usage
apply_usage-Final run u w (r, m, final) = (
  with_run_usage u r,
  ground (arith, find-update run_id_of run run (with_run_usage u) (λ r. refl) w.runs),
  final,
)

module _ {Finding : Type 0} (world : World Finding) (settings : Settings) where
  module _ (run : ℕ) (limits : Ceilings) (u : UsageAccumulator) (db : EvidenceTables) (w : Store)
      (g : Good run nothing nothing w) where
    pub end_as_stored-Ends :
        Final run w
        → InBudget limits u
        → Ends (Outcome run limits) (end_as_stored world settings run u db w)
    end_as_stored-Ends (r, m, final) budget =
        rw (run_status-found run w r m) (Over-stored run r.status w final g (r, m, refl), budget)

    end_failed-Ends :
        (code : Text)
        → Within limits u
        → Ends (Outcome run limits) (end_failed world settings run code u db w)
    end_failed-Ends code within =
        let ends = fail_run-Ends world.clock run nothing nothing code u w g in
        (Over-stored run failed _ refl ends.0 ends.1, inr within)

    end_with-Ends :
        (status : ScoutRunStatus) (reasons : List Text)
        → is_final status ≡ true
        → Within limits u
        → Ends (Outcome run limits) (end_with world settings run status reasons u db w)
    end_with-Ends status reasons final within =
        Ends-bind (λ w'. Good run nothing nothing w' × Stored run status w') (Outcome run limits)
          (finish_run world.clock run status reasons u w) (λ w'. ok (status, u, db, w'))
          (finish_run-Ends world.clock run nothing nothing status reasons u w g)
          (λ w' (g', stored). (Over-stored run status w' final g' stored, inr within))

  module _ (ctx : MainContext) where
    abbrev Done : ScoutRunStatus × UsageAccumulator × EvidenceTables × Store → Type 0
    Done = Outcome ctx.run_id ctx.limits

    abbrev Ready : UsageAccumulator → Store → Type 0
    Ready u w = Within ctx.limits u × Good ctx.run_id nothing nothing w

    status_of-final : (reasons : List Text) → is_final (status_of world settings reasons) ≡ true
    status_of-final [] = refl
    status_of-final (reason ∷ reasons) = refl

    after_publication-Ends :
        (outcomes : List ChildOutcome) (m : Result PublicationFailure (Unit {0}))
        (u : UsageAccumulator) (db : EvidenceTables) (w : Store)
        → Ready u w
        → Ends Done (after_publication world settings ctx outcomes m u db w)
    after_publication-Ends outcomes (err e) u db w (within, g) =
        end_failed-Ends ctx.run_id ctx.limits u db w g publication_failed within
    after_publication-Ends outcomes (ok _) u db w (within, g) =
        let reasons =
          partial_reasons world settings (any (λ o. o.failed) outcomes)
            (run_budget_reached ctx.limits u) in
        end_with-Ends ctx.run_id ctx.limits u db w g (status_of world settings reasons) reasons
          (status_of-final reasons) within

    after_synthesis-Ends :
        (outcomes : List ChildOutcome) (ids : List ℕ) (db : EvidenceTables)
        (r : Option (SynthesisResult Finding) × UsageAccumulator × Store)
        → Clear ctx r
        → Ends Done (after_synthesis world settings ctx outcomes ids db r)
    after_synthesis-Ends outcomes ids db (none, u, w) (within, g, final) =
        end_as_stored-Ends ctx.run_id ctx.limits u db (apply_usage ctx.run_id u w)
          (apply_usage-Good ctx.run_id u w g) (apply_usage-Final ctx.run_id u w final) (inr within)
    after_synthesis-Ends outcomes ids db (some result, u, w) h =
        after_publication-Ends outcomes
          (publish_covered ctx outcomes world.snapshot_publisher world.publisher ids result) u db w
          h

    module _ (uuid4_fresh : (ts : List AgentTask) → get_task (world.uuid4 ts) ts ≡ none) where
      with_evidence-Ends :
          (outcomes : List ChildOutcome) (stopped : Option Text) (accepted : List AcceptedEvidence)
          (ids : List ℕ) (u : UsageAccumulator) (db : EvidenceTables) (w : Store)
          → Ready u w
          → Ends Done (with_evidence world settings ctx outcomes stopped accepted ids u db w)
      with_evidence-Ends outcomes (some reason) accepted ids u db w (within, g) =
          end_with-Ends ctx.run_id ctx.limits u db w g partial (reason ∷ []) refl within
      with_evidence-Ends outcomes none [] ids u db w (within, g) =
          end_failed-Ends ctx.run_id ctx.limits u db w g no_valid_evidence within
      with_evidence-Ends outcomes none (item ∷ items) ids u db w (within, g) =
          Ends-bind (Clear ctx) Done
            (synthesize world.clock world.uuid4 settings.run.otari_main_model ctx
              world.dump_synthesis world.synthesis_size world.synthesis_reply
              (length (item ∷ items)) u w)
            (after_synthesis world settings ctx outcomes ids db)
            (synthesize-Ends world.clock ctx world.uuid4 uuid4_fresh settings.run.otari_main_model
              world.dump_synthesis world.synthesis_size world.synthesis_reply
              (length (item ∷ items)) u w within g)
            (after_synthesis-Ends outcomes ids db)

      module _ (c : Competitor) (db : EvidenceTables)
          (own : all (owned_evidence ctx.user_id c.id) db.items ≡ true) where
        conclude-Ends :
            (outcomes : List ChildOutcome) (stopped : Option Text) (u : UsageAccumulator)
            (w : Store)
            → Ready u w
            → EndsOr
                (Refused world.urls)
                Done
                (conclude world settings ctx c outcomes stopped u db w)
        unfolding conclude
        conclude-Ends outcomes stopped u w (within, g) =
            let accepted = deduplicate_evidence [] (all_accepted outcomes) in
            EndsOr-bind (Refused world.urls)
              (λ r. all (owned_evidence ctx.user_id c.id) r.1.items ≡ true) Done
              (persist_evidence world.evidence_uuid4 world.urls ctx c.id (world.clock w) accepted
                db)
              (λ r.
                with_evidence world settings ctx outcomes stopped accepted r.0 u r.1
                  (apply_usage ctx.run_id u w))
              (persist_evidence-Ends world.evidence_uuid4 world.urls ctx c.id (world.clock w)
                accepted db own)
              (λ r h. Ends-or (Refused world.urls) Done _ (
                with_evidence-Ends outcomes stopped accepted r.0 u r.1 (apply_usage ctx.run_id u w)
                  (within, apply_usage-Good ctx.run_id u w g)))

        after_plan-Ends :
            1 ≤ settings.max_concurrent_child_tasks
            → (r : Option ScoutPlan × UsageAccumulator × Store) → Clear ctx r
            → EndsOr (Refused world.urls) Done (after_plan world settings ctx c db r)
        after_plan-Ends positive (none, u, w) (within, g, final) =
            Ends-or (Refused world.urls) Done _ (
              end_as_stored-Ends ctx.run_id ctx.limits u db (apply_usage ctx.run_id u w)
                (apply_usage-Good ctx.run_id u w g) (apply_usage-Final ctx.run_id u w final)
                (inr within))
        after_plan-Ends positive (some made, u, w) (within, g) =
            let gathers = λ (created : List ChildTask × Store).
              gather (child_env world settings ctx) world.schedule
                settings.max_concurrent_child_tasks (length created.0) 0 created.0 u created.1 in
            let created_there = λ (created : List ChildTask × Store).
              There (one_of created.0) created.0
              × Good ctx.run_id (one_of created.0) (one_of created.0) created.1 in
            let creates =
              create_child_tasks world.clock world.uuid4 settings.otari_child_model
                world.text_values ctx world.children made w in
            EndsOr-if (Refused world.urls) Done (run_budget_reached ctx.limits u)
              (end_failed world settings ctx.run_id run_cost_limit u db w)
              (creates >>= λ created.
                gathers created >>= λ r. conclude world settings ctx c r.0 r.1 r.2 db r.3)
              (λ _.
                Ends-or (Refused world.urls) Done
                  (end_failed world settings ctx.run_id run_cost_limit u db w)
                  (end_failed-Ends ctx.run_id ctx.limits u db w g run_cost_limit within))
              (λ _.
                EndsOr-bind (Refused world.urls) created_there Done creates
                  (λ created.
                    gathers created >>= λ r. conclude world settings ctx c r.0 r.1 r.2 db r.3)
                  (Ends-or (Refused world.urls) created_there creates (
                    create_child_tasks-Ends world.clock ctx world.uuid4 uuid4_fresh
                      settings.otari_child_model world.text_values world.children made w g))
                  (λ created (there, g').
                    EndsOr-bind (Refused world.urls)
                      (Gone (child_env world settings ctx) (one_of created.0)) Done
                      (gathers created) (λ r. conclude world settings ctx c r.0 r.1 r.2 db r.3)
                      (Ends-or (Refused world.urls)
                        (Gone (child_env world settings ctx) (one_of created.0)) (gathers created)
                        (gather-Ends (child_env world settings ctx) (one_of created.0)
                          world.schedule settings.max_concurrent_child_tasks positive
                          (length created.0) 0 created.0 u created.1 (omega arith) there within g'))
                      (λ r (within', g''). conclude-Ends r.0 r.1 r.2 r.3 (
                        within',
                        Good-less ctx.run_id (one_of created.0) nothing nothing r.3 (λ k h. cc) g'',
                      ))))

        pub execute_begun-Ends :
            1 ≤ settings.max_concurrent_child_tasks
            → (w : Store) → Within ctx.limits no_usage
            → Good ctx.run_id (λ k. ctx.planner_task_id == k) (λ k. ctx.planner_task_id == k) w
            → EndsOr (Refused world.urls) Done (execute_begun world settings ctx c db w)
        unfolding execute_begun
        execute_begun-Ends positive w within g =
            EndsOr-bind (Refused world.urls) (Clear ctx) Done
              (plan world.clock ctx world.dump_plan world.planning_size world.plan_reply no_usage w)
              (after_plan world settings ctx c db)
              (Ends-or (Refused world.urls) (Clear ctx) _ (
                plan-Ends world.clock ctx world.dump_plan world.planning_size world.plan_reply
                  (λ k. ctx.planner_task_id == k) no_usage w (==_refl ctx.planner_task_id) within
                  g))
              (after_plan-Ends positive)
