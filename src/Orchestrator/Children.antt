-- ===== src/Orchestrator/Children.antt =====
-- A child task of agents/orchestrator.py: what an attempt of `_execute_child_within_deadline` sees,
-- and what becomes of the task. The replies are those of the client after
-- `normalize_child_payload`, whose validation is the work of pydantic.
use competitor_scout.Prelude.{
  ℕ, zero, suc, ◌-◌, ◌*◌, Bool, true, false, ◌&&◌, List, [], ◌∷◌, ◌++◌, Option, none, some, ltb,
  if◌then◌else◌, Result, ok, err, ◌>>=◌, ◌>>◌, guard, min, all, map, seconds,
}
use competitor_scout.Prelude.Texts.{Text, str, text_eq, mem_text}
use competitor_scout.Evidence.{
  EvidenceCandidate, NormalizedEvidence, RejectedEvidence, Reason, Validated, canonical, unsafe,
  invalid, validate_evidence_scope,
}
use competitor_scout.Orchestrator.Usage.{OtariMetadata}
use competitor_scout.Orchestrator.Plans.{PlannedChildTask, FindingCategory, is_review}
use competitor_scout.Orchestrator.Planning.{
  AgentError, Reply, completion, failure, estimated_tokens,
}

pub record ChildTaskResult : Type 0 where
  pub sources_inspected : List Text
  pub evidence : List EvidenceCandidate

-- Why a part of a reply was left out: by the payload's validation, or by the scope's.
pub data Rejection : Type 0 where
  of_payload : Text → Rejection
  of_scope : Reason → Rejection

pub record ChildPayload : Type 0 where
  pub result : ChildTaskResult
  pub rejections : List Text

pub record AcceptedEvidence : Type 0 where
  pub task_id : ℕ
  pub evidence : NormalizedEvidence
  pub expected_category : FindingCategory

pub record ChildOutcome : Type 0 where
  pub accepted : List AcceptedEvidence
  pub inspected_urls : List Text
  pub metadata : List OtariMetadata
  pub failed : Bool
  pub unsettled_attempt : Bool
  pub budget_stop_code : Option Text

-- `_ChildOutcome(failed=True, unsettled_attempt=True)`.
abbrev pub lost_outcome : ChildOutcome
lost_outcome = record {
  accepted = [];
  inspected_urls = [];
  metadata = [];
  failed = true;
  unsettled_attempt = true;
  budget_stop_code = none;
}

unfoldable pub child_source_scope_violated : Text
child_source_scope_violated = str "child_source_scope_violated"

unfoldable pub child_input_token_limit : Text
child_input_token_limit = str "child_input_token_limit"

unfoldable pub child_tool_budget_exceeded : Text
child_tool_budget_exceeded = str "child_tool_budget_exceeded"

unfoldable pub firecrawl_fallback_error_codes : List Text
firecrawl_fallback_error_codes =
    str "otari_invalid_response"
    ∷ str "otari_network_error"
    ∷ str "otari_rate_limited"
    ∷ str "otari_refusal"
    ∷ str "otari_schema_error"
    ∷ str "otari_timeout"
    ∷ str "otari_tool_iteration_limit"
    ∷ str "otari_upstream_error"
    ∷ []

-- `PlanValidationError(code)`.
abbrev pub plan_validation_error : Text → AgentError
plan_validation_error code = record {
  code = some code;
  is_otari = false;
  retryable = false;
  error_metadata = none;
  validation_issues = [];
  retry_after = none;
}

abbrev pub power_of_two : ℕ → ℕ
power_of_two zero = 1
power_of_two (suc n) = 2 * power_of_two n

-- In microseconds.
unfoldable pub retry_delay : AgentError → ℕ → ℕ
retry_delay e attempt = elim e.retry_after [
  | none ↦ seconds (min (power_of_two (attempt - 1)) 5)
  | some delay ↦ delay
]

-- `{item.key: item for item in items}.values()`, from the dict of the items so far.
abbrev pub same_item : NormalizedEvidence → NormalizedEvidence → Bool
same_item x y = text_eq x.source_url y.source_url && text_eq x.fingerprint y.fingerprint

abbrev pub put_item : NormalizedEvidence → List NormalizedEvidence → List NormalizedEvidence
put_item e [] = e ∷ []
put_item e (x ∷ xs) = if same_item x e then e ∷ xs else x ∷ put_item e xs

abbrev pub put_items : List NormalizedEvidence → List NormalizedEvidence → List NormalizedEvidence
put_items items [] = items
put_items items (e ∷ es) = put_items (put_item e items) es

-- `dict.fromkeys(urls)`, from the keys so far.
abbrev pub put_keys : List Text → List Text → List Text
put_keys keys [] = keys
put_keys keys (url ∷ urls) = put_keys (if mem_text url keys then keys else keys ++ url ∷ []) urls

abbrev pub is_subset : List Text → List Text → Bool
is_subset urls others = all (λ url. mem_text url others) urls

abbrev pub over_budget : Option ℕ → ℕ → Bool
over_budget none limit = false
over_budget (some calls) limit = ltb limit calls

-- What the `try` of an attempt gives: an exception with the metadata bound by then, or a result
-- with its accepted evidence, the rejections, and whether every assigned URL was inspected.
pub data Attempt : Type 0 where
  raised : AgentError → Option OtariMetadata → Attempt
  passed :
      ChildTaskResult → List NormalizedEvidence → List Rejection → Bool → OtariMetadata → Attempt

module _ (validator : Text → Validated) (sha256 : Text → Text) (is_control : ℕ → Bool) where
  abbrev pub validate_all : List Text → Result Text (List Text)
  validate_all [] = ok []
  validate_all (url ∷ urls) =
      let rest = validate_all urls in
      elim (validator url) [
        | canonical u ↦ (rest >>= λ us. ok (u ∷ us))
        | unsafe ↦ err child_source_scope_violated
        | invalid ↦ err child_source_scope_violated
      ]

  -- Whether the inspection was complete; the sorted URLs that the code returns too are not used.
  unfoldable pub validate_child_inspection_scope :
      PlannedChildTask → ChildTaskResult → Result Text Bool
  validate_child_inspection_scope planned result = do
    inspected ← validate_all result.sources_inspected
    if is_review planned.kind
        then (do
          approved ← validate_all planned.source_urls
          guard (is_subset inspected approved) child_source_scope_violated
          ok (is_subset approved inspected))
        else ok true

  abbrev reason_of : RejectedEvidence → Rejection
  reason_of r = of_scope r.reason

  abbrev accept : ℕ → PlannedChildTask → ChildPayload → OtariMetadata → Bool → Attempt
  accept token_limit planned payload metadata complete =
      let scope =
        validate_evidence_scope validator sha256 is_control planned.kind planned.source_urls
          payload.result.sources_inspected payload.result.evidence in
      if ltb token_limit metadata.usage.input_tokens
      then raised (plan_validation_error child_input_token_limit) (some metadata)
      else passed payload.result scope.0
          (map of_payload payload.rejections ++ map reason_of scope.1) complete metadata

  unfoldable pub inspect_reply : ℕ → PlannedChildTask → ℕ → Reply ChildPayload → Attempt
  unfolding validate_child_inspection_scope
  inspect_reply token_limit planned encoded_size reply =
      if ltb token_limit (estimated_tokens encoded_size)
      then raised (plan_validation_error child_input_token_limit) none
      else elim reply [
        | failure e ↦ raised e none
        | completion payload metadata ↦
            if over_budget metadata.usage.tool_calls planned.max_search_calls
            then raised (plan_validation_error child_tool_budget_exceeded) (some metadata)
            else elim (validate_child_inspection_scope planned payload.result) [
              | err code ↦ raised (plan_validation_error code) (some metadata)
              | ok complete ↦ accept token_limit planned payload metadata complete
            ]
      ]
