-- ===== src/Orchestrator/Execution.antt =====
-- `execute_daily_run` of agents/orchestrator.py: the whole of a run. What the world does in it is
-- the argument `World`.
use competitor_scout.Prelude.{
  ℕ, Bool, List, [], ◌∷◌, ◌++◌, Option, none, some, if◌then◌else◌, Result, ok, err, ◌>>=◌, any,
  length,
}
use competitor_scout.Prelude.Texts.{Text, str}
use competitor_scout.Json.{Value}
use competitor_scout.Urls.{UrlLib}
use competitor_scout.Evidence.{Validated}
use competitor_scout.Competitors.{Competitor, Tables}
use competitor_scout.Paging.Tasks.{AgentTask}
use competitor_scout.Runs.{ScoutRunStatus, partial, failed, completed}
use competitor_scout.Orchestrator.Usage.{UsageAccumulator, no_usage, run_budget_reached}
use competitor_scout.Orchestrator.Plans.{ScoutPlan}
use competitor_scout.Orchestrator.Store.{
  Store, Crash, apply_usage, fail_run, finish_run, run_status,
}
use competitor_scout.Orchestrator.Planning.{MainContext, Reply, plan}
use competitor_scout.Orchestrator.Children.{AcceptedEvidence, ChildOutcome}
use competitor_scout.Orchestrator.ChildLoop.{ChildOutput, ChildSettings, ChildEnv}
use competitor_scout.Orchestrator.Waves.{
  ChildWorld, run_cost_limit, create_child_tasks, all_accepted, deduplicate_evidence,
}
use competitor_scout.Orchestrator.Gathering.{gather}
use competitor_scout.Orchestrator.Synthesis.{
  SynthesisResult, Answer, PublicationFailure, synthesize, publish_covered,
}
use competitor_scout.Orchestrator.Persisting.{EvidenceItem, EvidenceTables, persist_evidence}
use competitor_scout.Orchestrator.Starting.{RunSettings, start_run}

-- Code that is not the orchestrator's, and what it does in one run. The replies are functions of
-- the number of the attempt; a wave has its schedule.
pub record World (Finding : Type 0) : Type 0 where
  pub clock : Store → ℕ
  pub uuid4 : List AgentTask → ℕ
  pub evidence_uuid4 : List EvidenceItem → ℕ
  pub text_values : List Text → List Value
  pub dump_plan : ScoutPlan → Value
  pub dump_child : ChildOutput → Value
  pub dump_synthesis : SynthesisResult Finding → Value
  pub validator : Text → Validated
  pub sha256 : Text → Text
  pub is_control : ℕ → Bool
  pub urls : UrlLib
  pub planning_size : ℕ
  pub plan_reply : ℕ → Reply ScoutPlan
  pub children : ChildWorld
  pub schedule : ℕ → List ℕ
  pub synthesis_size : ℕ → ℕ
  pub synthesis_reply : ℕ → Reply (SynthesisResult Finding)
  pub snapshot_publisher : Option Answer
  pub publisher : Finding → Answer

pub record Settings : Type 0 where
  pub run : RunSettings
  pub child : ChildSettings
  pub otari_child_model : Text
  pub max_concurrent_child_tasks : ℕ

unfoldable pub no_valid_evidence : Text
no_valid_evidence = str "no_valid_evidence"

unfoldable pub publication_failed : Text
publication_failed = str "publication_failed"

unfoldable pub child_task_failed_reason : Text
child_task_failed_reason = str "child_task_failed"

-- What an execution gives: the status it returns, and the usage and the tables as they are then.
abbrev pub Ended : Type 0
Ended = Result Crash (ScoutRunStatus × UsageAccumulator × EvidenceTables × Store)

module _ {Finding : Type 0} (world : World Finding) (settings : Settings) where
  abbrev pub end_as_stored : ℕ → UsageAccumulator → EvidenceTables → Store → Ended
  end_as_stored run u db w = do status ← run_status run w; ok (status, u, db, w)

  abbrev pub end_failed : ℕ → Text → UsageAccumulator → EvidenceTables → Store → Ended
  end_failed run code u db w = ok (failed, u, db, fail_run world.clock run code u w)

  abbrev pub end_with :
      ℕ → ScoutRunStatus → List Text → UsageAccumulator → EvidenceTables → Store → Ended
  end_with run status reasons u db w = do
    w' ← finish_run world.clock run status reasons u w
    ok (status, u, db, w')

  abbrev pub status_of : List Text → ScoutRunStatus
  status_of [] = completed
  status_of (reason ∷ reasons) = partial

  abbrev pub partial_reasons : Bool → Bool → List Text
  partial_reasons child_failed over =
      (if child_failed then child_task_failed_reason ∷ [] else [])
      ++ (if over then run_cost_limit ∷ [] else [])

  abbrev pub after_publication :
      MainContext
      → List ChildOutcome
      → Result PublicationFailure (Unit {0})
      → UsageAccumulator
      → EvidenceTables
      → Store
      → Ended
  after_publication ctx outcomes (err e) u db w = end_failed ctx.run_id publication_failed u db w
  after_publication ctx outcomes (ok _) u db w =
      let reasons =
        partial_reasons (any (λ o. o.failed) outcomes) (run_budget_reached ctx.limits u) in
      end_with ctx.run_id (status_of reasons) reasons u db w

  abbrev pub after_synthesis :
      MainContext
      → List ChildOutcome
      → List ℕ
      → EvidenceTables
      → Option (SynthesisResult Finding) × UsageAccumulator × Store
      → Ended
  after_synthesis ctx outcomes ids db (none, u, w) =
      end_as_stored ctx.run_id u db (apply_usage ctx.run_id u w)
  after_synthesis ctx outcomes ids db (some result, u, w) =
      after_publication ctx outcomes
        (publish_covered ctx outcomes world.snapshot_publisher world.publisher ids result) u db w

  -- With the evidence persisted and the usage applied.
  abbrev pub with_evidence :
      MainContext
      → List ChildOutcome
      → Option Text
      → List AcceptedEvidence
      → List ℕ
      → UsageAccumulator
      → EvidenceTables
      → Store
      → Ended
  with_evidence ctx outcomes (some reason) accepted ids u db w =
      end_with ctx.run_id partial (reason ∷ []) u db w
  with_evidence ctx outcomes none [] ids u db w = end_failed ctx.run_id no_valid_evidence u db w
  with_evidence ctx outcomes none (item ∷ items) ids u db w = do
    r ←
        synthesize world.clock world.uuid4 settings.run.otari_main_model ctx world.dump_synthesis
          world.synthesis_size world.synthesis_reply (length (item ∷ items)) u w
    after_synthesis ctx outcomes ids db r

  -- From the outcomes of the children on.
  unfoldable pub conclude :
      MainContext
      → Competitor
      → List ChildOutcome
      → Option Text
      → UsageAccumulator
      → EvidenceTables
      → Store
      → Ended
  conclude ctx competitor outcomes stopped u db w = do
    let accepted = deduplicate_evidence [] (all_accepted outcomes)
    persisted ←
        persist_evidence world.evidence_uuid4 world.urls ctx competitor.id (world.clock w) accepted
          db
    with_evidence ctx outcomes stopped accepted persisted.0 u persisted.1
        (apply_usage ctx.run_id u w)

  abbrev pub child_env : MainContext → ChildEnv
  child_env ctx = record {
    clock = world.clock;
    ctx = ctx;
    settings = settings.child;
    dump = world.dump_child;
    validator = world.validator;
    sha256 = world.sha256;
    is_control = world.is_control;
  }

  abbrev pub after_plan :
      MainContext
      → Competitor
      → EvidenceTables
      → Option ScoutPlan × UsageAccumulator × Store
      → Ended
  after_plan ctx competitor db (none, u, w) =
      end_as_stored ctx.run_id u db (apply_usage ctx.run_id u w)
  after_plan ctx competitor db (some made, u, w) =
      if run_budget_reached ctx.limits u then end_failed ctx.run_id run_cost_limit u db w else (do
        created ←
            create_child_tasks world.clock world.uuid4 settings.otari_child_model world.text_values
              ctx world.children made w
        r ←
            gather (child_env ctx) world.schedule settings.max_concurrent_child_tasks
              (length created.0) 0 created.0 u created.1
        conclude ctx competitor r.0 r.1 r.2 db r.3)

  -- A run that was begun.
  unfoldable pub execute_begun : MainContext → Competitor → EvidenceTables → Store → Ended
  unfolding conclude
  execute_begun ctx competitor db w = do
    r ← plan world.clock ctx world.dump_plan world.planning_size world.plan_reply no_usage w
    after_plan ctx competitor db r

  unfoldable pub after_start :
      ℕ → EvidenceTables → Option (MainContext × Competitor) × Store → Ended
  unfolding execute_begun
  after_start run db (none, w) = end_as_stored run no_usage db w
  after_start run db (some (ctx, competitor), w) = execute_begun ctx competitor db w

  unfoldable pub execute_daily_run : ℕ → ℕ → Tables → (ℕ → Bool) → EvidenceTables → Store → Ended
  unfolding after_start
  execute_daily_run now run tables has_snapshot db w = do
    started ← start_run now world.uuid4 settings.run world.text_values tables has_snapshot run w
    after_start run db started
