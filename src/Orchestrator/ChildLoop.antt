-- ===== src/Orchestrator/ChildLoop.antt =====
-- What `_execute_child_within_deadline` of agents/orchestrator.py works on: the variables of its loop,
-- the task with what the world does to it, and what a run gives to every child.
use competitor_scout.Prelude.{
  ℕ, Bool, false, List, [], ◌∷◌, ◌++◌, Option, none, some, if◌then◌else◌, Result,
}
use competitor_scout.Prelude.Texts.{Text, str, text_eq}
use competitor_scout.Json.{Value}
use competitor_scout.Evidence.{NormalizedEvidence, Validated}
use competitor_scout.Orchestrator.Usage.{OtariMetadata, UsageAccumulator}
use competitor_scout.Orchestrator.Plans.{PlannedChildTask}
use competitor_scout.Orchestrator.Store.{Store, Crash}
use competitor_scout.Orchestrator.Planning.{
  AgentError, Reply, MainContext, metadata_of, cost_ceiling_reached,
}
use competitor_scout.Orchestrator.Children.{
  ChildTaskResult, ChildPayload, ChildOutcome, AcceptedEvidence, Rejection, lost_outcome,
}

-- The result that is kept while Firecrawl tries to complete it.
pub record Retained : Type 0 where
  pub result : ChildTaskResult
  pub accepted : List NormalizedEvidence
  pub rejected_reasons : List Rejection
  pub metadata : OtariMetadata

-- The variables of the loop at the start of the round `attempt`. The tool of a round, its web
-- search and its MCP server follow from `fallback_used`.
pub record ChildState : Type 0 where
  pub attempt : ℕ
  pub fallback_used : Bool
  pub retained : Option Retained
  pub metadata_records : List OtariMetadata
  pub unsettled : Bool

-- A child is in its loop, was cancelled in a round by its deadline, or has returned.
pub data Progress : Type 0 where
  in_loop : ChildState → Progress
  timed_out : Progress
  done : ChildOutcome → Progress

-- The `validated_output` of a task, before it is turned into JSON.
pub record ChildOutput : Type 0 where
  pub sources_inspected : List Text
  pub evidence : List NormalizedEvidence
  pub rejected_reasons : List Rejection

-- A child task with what the world does to it: per round the size of the messages, the reply, the
-- microseconds left until the deadline when the reply has been dealt with, and whether the deadline
-- comes before that, while the round waits for the client, a URL or a transaction.
pub record ChildTask : Type 0 where
  pub id : ℕ
  pub planned : PlannedChildTask
  pub encoded_size : ℕ → ℕ
  pub reply : ℕ → Reply ChildPayload
  pub time_left : ℕ → ℕ
  pub is_cut_off : ℕ → Bool

pub record ChildSettings : Type 0 where
  pub max_child_retries : ℕ
  pub child_token_limit : ℕ
  pub has_firecrawl : Bool

-- The start of the loop.
abbrev pub first_round : ChildState
first_round = record {
  attempt = 1;
  fallback_used = false;
  retained = none;
  metadata_records = [];
  unsettled = false;
}

unfoldable pub child_task_failed : Text
child_task_failed = str "child_task_failed"

unfoldable pub otari_budget_exceeded : Text
otari_budget_exceeded = str "otari_budget_exceeded"

abbrev pub or_metadata : Option OtariMetadata → AgentError → Option OtariMetadata
or_metadata none e = metadata_of e
or_metadata (some metadata) e = some metadata

abbrev pub append_metadata : List OtariMetadata → Option OtariMetadata → List OtariMetadata
append_metadata records none = records
append_metadata records (some metadata) = records ++ metadata ∷ []

abbrev pub budget_stop : Text → Option Text
budget_stop code = if text_eq code otari_budget_exceeded then some code else none

abbrev pub accepted_by : ℕ → PlannedChildTask → NormalizedEvidence → AcceptedEvidence
accepted_by id planned e = record {
  task_id = id;
  evidence = e;
  expected_category = planned.expected_category;
}

-- `_ChildOutcome(budget_stop_code="cost_ceiling_reached")`.
abbrev pub ceiling_outcome : ChildOutcome
ceiling_outcome = record lost_outcome {
  failed = false;
  unsettled_attempt = false;
  budget_stop_code = some cost_ceiling_reached;
}

-- What a round leaves.
abbrev pub Round : Type 0
Round = Result Crash (Progress × UsageAccumulator × Store)

-- What every child of a run reads: the clock, the context and the settings, and the code that is not
-- the orchestrator's.
pub record ChildEnv : Type 0 where
  pub clock : Store → ℕ
  pub ctx : MainContext
  pub settings : ChildSettings
  pub dump : ChildOutput → Value
  pub validator : Text → Validated
  pub sha256 : Text → Text
  pub is_control : ℕ → Bool
