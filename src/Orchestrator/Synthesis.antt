-- ===== src/Orchestrator/Synthesis.antt =====
-- `_create_synthesis_task`, `_synthesize_within_deadline`, `_snapshot_coverage` and `_publish` of
-- agents/orchestrator.py. How the publishers answer is an argument.
use competitor_scout.Prelude.{
  ℕ, zero, suc, ◌+◌, leb, Bool, true, false, not, ◌&&◌, ◌||◌, List, [], ◌∷◌, ◌++◌, Option, none,
  some, ◌==◌, ltb, if◌then◌else◌, Result, ok, err, ◌>>=◌, ◌>>◌, guard, is_some, any, all, length,
  select,
}
use competitor_scout.Prelude.Texts.{Text, str, text_eq, mem_text}
use competitor_scout.Json.{Value}
use competitor_scout.Paging.Tasks.{AgentTask, main_synthesizer, running}
use competitor_scout.Competitors.{
  SourceCategory, homepage, pricing, product, features, changelog, documentation, blog, careers,
  other,
}
use competitor_scout.Runs.{ScoutRun, ScoutRunStatus, get_run, put_run}
use competitor_scout.Orchestrator.Usage.{OtariMetadata, UsageAccumulator}
use competitor_scout.Orchestrator.Store.{Store, Crash, run_disappeared, mem_id}
use competitor_scout.Orchestrator.Planning.{
  MainContext, Phase, Reply, estimated_tokens, stop_failed, rounds, within_token_limit,
  agent_task_failed, main_input_token_limit,
}
use competitor_scout.Orchestrator.Children.{ChildOutcome, put_keys}

-- The result of a synthesis, as far as the orchestrator reads it: its findings, and the evidence
-- that the Starting Snapshot of an initial synthesis refers to.
pub record SynthesisResult (Finding : Type 0) : Type 0 where
  pub findings : List Finding
  pub referenced_ids : Option (List ℕ)

unfoldable pub synthesis_failed : Text
synthesis_failed = str "synthesis_failed"

-- The `while` that drops evidence until the messages fit.
unfoldable pub fitting : (ℕ → ℕ) → ℕ → ℕ → ℕ
fitting encoded_size limit zero = zero
fitting encoded_size limit (suc n) =
    let fewer = fitting encoded_size limit n in
    if ltb limit (estimated_tokens (encoded_size (suc n))) then fewer else suc n

unfoldable pub synthesis_kind : Bool → Text
synthesis_kind true = str "initial_synthesis"
synthesis_kind false = str "daily_synthesis"

unfoldable pub synthesis_objective : Bool → Text
synthesis_objective true = str "Create a grounded Starting Snapshot and publishable findings"
synthesis_objective false = str "Synthesize validated evidence into publishable findings"

module _ (clock : Store → ℕ) (uuid4 : List AgentTask → ℕ) (main_model : Text)
    (ctx : MainContext) where
  abbrev pub synthesis_row : ℕ → ℕ → AgentTask
  synthesis_row id now = record {
    id = id;
    scout_run_id = ctx.run_id;
    parent_task_id = some ctx.planner_task_id;
    role = main_synthesizer;
    task_kind = synthesis_kind ctx.initial_snapshot_required;
    status = running;
    model = main_model;
    objective = synthesis_objective ctx.initial_snapshot_required;
    source_scope = [];
    attempt_count = 0;
    started_at = some now;
    completed_at = none;
    otari_request_id = none;
    input_tokens = 0;
    output_tokens = 0;
    tool_calls = none;
    settled_cost_usd = none;
    pricing_source = none;
    validated_output = none;
    error_code = none;
    error_summary = none;
    created_at = now;
  }

  abbrev pub synthesizing : ScoutRun → ScoutRun
  synthesizing r = record r { status = ScoutRunStatus.synthesizing }

  unfoldable pub create_synthesis_task : Store → Result Crash (ℕ × Store)
  create_synthesis_task w = do
    guard (is_some (get_run ctx.run_id w.runs)) run_disappeared
    ok (
      uuid4 w.tasks,
      record w {
        runs = put_run ctx.run_id synthesizing w.runs;
        tasks = w.tasks ++ synthesis_row (uuid4 w.tasks) (clock w) ∷ [];
      },
    )

  module _ {Finding : Type 0} (dump : SynthesisResult Finding → Value) where
    abbrev pub check_synthesis : SynthesisResult Finding → OtariMetadata → Result Text (Unit {0})
    check_synthesis result metadata = within_token_limit clock ctx metadata

    -- With so many pieces of evidence in the messages.
    abbrev pub synthesize_items :
        (ℕ → Reply (SynthesisResult Finding))
        → ℕ
        → ℕ
        → UsageAccumulator
        → Store
        → Phase (SynthesisResult Finding)
    synthesize_items reply zero id u w =
        stop_failed clock ctx (SynthesisResult Finding) id main_input_token_limit none false
          agent_task_failed u w
    synthesize_items reply (suc n) id u w =
        rounds clock ctx id ctx.max_synthesis_repairs synthesis_failed dump check_synthesis reply
          (suc ctx.max_synthesis_repairs) 1 false u w

    unfoldable pub synthesize_within_deadline :
        (ℕ → ℕ)
        → (ℕ → Reply (SynthesisResult Finding))
        → ℕ
        → ℕ
        → UsageAccumulator
        → Store
        → Phase (SynthesisResult Finding)
    unfolding fitting
    synthesize_within_deadline encoded_size reply items id u w =
        synthesize_items reply (fitting encoded_size ctx.main_token_limit items) id u w

    unfoldable pub synthesize :
        (ℕ → ℕ)
        → (ℕ → Reply (SynthesisResult Finding))
        → ℕ
        → UsageAccumulator
        → Store
        → Phase (SynthesisResult Finding)
    unfolding create_synthesis_task synthesize_within_deadline
    synthesize encoded_size reply items u w = do
      created ← create_synthesis_task w
      synthesize_within_deadline encoded_size reply items created.0 u created.1

pub record SnapshotCoverage : Type 0 where
  pub approved_source_count : ℕ
  pub inspected_source_count : ℕ
  pub uninspected_source_count : ℕ
  pub inspected_source_categories : List SourceCategory
  pub coverage_complete : Bool

-- The `max_length` of the categories, and the validator `validate_counts`.
abbrev pub accepts_coverage : SnapshotCoverage → Bool
accepts_coverage c =
    leb (length c.inspected_source_categories) 9
    && c.inspected_source_count + c.uninspected_source_count == c.approved_source_count
    && not (c.coverage_complete && not (c.uninspected_source_count == 0))

abbrev pub same_category : SourceCategory → SourceCategory → Bool
same_category homepage homepage = true
same_category pricing pricing = true
same_category product product = true
same_category features features = true
same_category changelog changelog = true
same_category documentation documentation = true
same_category blog blog = true
same_category careers careers = true
same_category other other = true
same_category _ _ = false

-- In the order of their values.
abbrev pub sorted_categories : List SourceCategory
sorted_categories =
    blog ∷ careers ∷ changelog ∷ documentation ∷ features ∷ homepage ∷ other ∷ pricing ∷ product
    ∷ []

-- `dict(pairs).get(url)`: the last pair counts.
abbrev pub category_by_url : List (Text × SourceCategory) → Text → Option SourceCategory
category_by_url [] url = none
category_by_url ((u, c) ∷ pairs) url = elim (category_by_url pairs url) [
  | some d ↦ some d
  | none ↦ if text_eq u url then some c else none
]

abbrev pub has_category : Option SourceCategory → SourceCategory → Bool
has_category none c = false
has_category (some d) c = same_category d c

abbrev pub inspected_by : List ChildOutcome → Text → Bool
inspected_by [] url = false
inspected_by (o ∷ os) url = (not o.failed && mem_text url o.inspected_urls) || inspected_by os url

abbrev pub missed_by : List ChildOutcome → Text → Bool
missed_by outcomes url = not (inspected_by outcomes url)

unfoldable pub snapshot_coverage : MainContext → List ChildOutcome → SnapshotCoverage
snapshot_coverage ctx outcomes =
    let approved = put_keys [] ctx.approved_urls in
    let inspected = select (inspected_by outcomes) approved in
    let uninspected_count = length (select (missed_by outcomes) approved) in
    record {
      approved_source_count = length approved;
      inspected_source_count = length inspected;
      uninspected_source_count = uninspected_count;
      inspected_source_categories =
          select
            (λ c.
              any (λ url. has_category (category_by_url ctx.approved_source_categories url) c)
                inspected)
            sorted_categories;
      coverage_complete = uninspected_count == 0 && not (any (λ o. o.failed) outcomes);
    }

-- How a publisher answers: it returns, or raises `PublicationValidationError` or something else.
pub data Answer : Type 0 where
  published invalid_publication broke : Answer

pub data PublicationFailure : Type 0 where
  invalid_coverage no_snapshot unknown_evidence no_publisher publisher_failed : PublicationFailure

abbrev pub answered : Answer → Result PublicationFailure (Unit {0})
answered published = ok tt
answered invalid_publication = err publisher_failed
answered broke = err publisher_failed

abbrev pub publish_snapshot :
    Option Answer → List ℕ → Option (List ℕ) → Result PublicationFailure (Unit {0})
publish_snapshot publisher evidence_ids none = err no_snapshot
publish_snapshot publisher evidence_ids (some referenced) = do
  guard (all (λ id. mem_id id evidence_ids) referenced) unknown_evidence
  elim publisher [ none ↦ err no_publisher | some answer ↦ answered answer ]

-- The loop over the findings: one that is refused is passed over.
abbrev pub publish_findings :
    {A : Type 0} → (A → Answer) → List A → Result PublicationFailure (Unit {0})
publish_findings publisher [] = ok tt
publish_findings publisher (f ∷ fs) =
    let rest = publish_findings publisher fs in
    elim (publisher f) [
      | published ↦ rest
      | invalid_publication ↦ rest
      | broke ↦ err publisher_failed
    ]

unfoldable pub publish :
    {Finding : Type 0}
    → MainContext
    → Option Answer
    → (Finding → Answer)
    → List ℕ
    → SynthesisResult Finding
    → Result PublicationFailure (Unit {0})
publish ctx snapshot_publisher publisher evidence_ids result = do
  if ctx.initial_snapshot_required
      then publish_snapshot snapshot_publisher evidence_ids result.referenced_ids
      else ok tt
  publish_findings publisher result.findings

-- The `try` of the publication: the coverage is made first.
abbrev pub publish_covered :
    {Finding : Type 0}
    → MainContext
    → List ChildOutcome
    → Option Answer
    → (Finding → Answer)
    → List ℕ
    → SynthesisResult Finding
    → Result PublicationFailure (Unit {0})
publish_covered ctx outcomes snapshot_publisher publisher evidence_ids result = do
  guard (accepts_coverage (snapshot_coverage ctx outcomes)) invalid_coverage
  publish ctx snapshot_publisher publisher evidence_ids result
