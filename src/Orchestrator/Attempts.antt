-- ===== src/Orchestrator/Attempts.antt =====
-- `_execute_child_within_deadline` of agents/orchestrator.py as a machine: one step is one round of
-- its loop. The time left until the deadline after a round is an argument.
use competitor_scout.Prelude.{
  ℕ, suc, ◌+◌, Bool, true, false, not, ◌&&◌, ◌||◌, List, [], ◌∷◌, ◌++◌, Option, none, some, ltb,
  if◌then◌else◌, ok, ◌>>=◌, is_some, map,
}
use competitor_scout.Prelude.Texts.{Text, mem_text}
use competitor_scout.Evidence.{NormalizedEvidence}
use competitor_scout.Orchestrator.Usage.{
  OtariMetadata, UsageAccumulator, child, request_would_exceed_cost_ceiling,
}
use competitor_scout.Orchestrator.Plans.{is_review}
use competitor_scout.Orchestrator.Store.{
  Store, set_task_attempt, succeed_task, fail_task, cancel_tasks,
}
use competitor_scout.Orchestrator.Planning.{
  AgentError, safe_error_code, error_summary, repairable, cost_ceiling_reached,
}
use competitor_scout.Orchestrator.ChildLoop.{
  Retained, ChildState, in_loop, done, timed_out, ChildOutput, ChildTask, ChildEnv,
  child_task_failed, or_metadata, append_metadata, budget_stop, accepted_by, ceiling_outcome, Round,
}
use competitor_scout.Orchestrator.Children.{
  ChildTaskResult, Rejection, Attempt, raised, passed, lost_outcome, firecrawl_fallback_error_codes,
  retry_delay, put_items, put_keys, inspect_reply,
}

module _ (env : ChildEnv) where
  abbrev pub primary_attempts : ℕ
  primary_attempts = env.settings.max_child_retries + 1

  -- `_firecrawl_fallback_server_ids` gives a server.
  unfoldable pub firecrawl_for : ChildTask → Bool
  firecrawl_for t = is_review t.planned.kind && env.settings.has_firecrawl

  abbrev pub total_attempts : ChildTask → ℕ
  total_attempts t = primary_attempts + (if firecrawl_for t then 1 else 0)

  abbrev pub next_round : ChildState → ChildState
  next_round s = record s { attempt = suc s.attempt }

  abbrev pub fall_back : ChildState → ChildState
  fall_back s = record s { attempt = suc s.attempt; fallback_used = true }

  abbrev pub succeed :
      ChildTask
      → ChildState
      → List Text
      → List NormalizedEvidence
      → List Rejection
      → OtariMetadata
      → UsageAccumulator
      → Store
      → Round
  succeed t s urls evidence reasons metadata u w = do
    let output : ChildOutput = record {
      sources_inspected = urls;
      evidence = evidence;
      rejected_reasons = reasons;
    }
    w' ←
        succeed_task env.clock env.ctx.user_id env.ctx.run_id t.id metadata (env.dump output)
          s.unsettled w
    ok (
      done (record {
        accepted = map (accepted_by t.id t.planned) evidence;
        inspected_urls = urls;
        metadata = s.metadata_records;
        failed = false;
        unsettled_attempt = s.unsettled;
        budget_stop_code = none;
      }),
      u,
      w',
    )

  abbrev pub give_up :
      ChildTask → ChildState → AgentError → Option OtariMetadata → UsageAccumulator → Store → Round
  give_up t s e metadata u w = elim s.retained [
    | some r ↦ succeed t s r.result.sources_inspected r.accepted r.rejected_reasons r.metadata u w
    | none ↦
        let code = safe_error_code e child_task_failed in
        ok (
          done (record {
            accepted = [];
            inspected_urls = [];
            metadata = s.metadata_records;
            failed = true;
            unsettled_attempt = s.unsettled;
            budget_stop_code = budget_stop code;
          }),
          u,
          fail_task env.clock env.ctx.user_id env.ctx.run_id t.id code metadata s.unsettled
              (error_summary e) w,
        )
  ]

  abbrev pub retries : ChildTask → ChildState → AgentError → Bool
  retries t s e =
      (e.retryable || repairable (safe_error_code e child_task_failed))
      && not s.fallback_used
      && ltb s.attempt primary_attempts
      && ltb (retry_delay e s.attempt) (t.time_left s.attempt)

  abbrev pub falls_back : ChildTask → ChildState → AgentError → Bool
  falls_back t s e =
      firecrawl_for t
      && not s.fallback_used
      && e.is_otari
      && mem_text (safe_error_code e child_task_failed) firecrawl_fallback_error_codes
      && ltb 0 (t.time_left s.attempt)

  -- The `except` branch.
  unfoldable pub handle_error :
      ChildTask → ChildState → AgentError → Option OtariMetadata → UsageAccumulator → Store → Round
  handle_error t s e bound u w =
      let metadata = or_metadata bound e in
      let s' = record s {
        metadata_records = append_metadata s.metadata_records metadata;
        unsettled = s.unsettled || not (is_some metadata);
      } in
      if retries t s e
      then ok (in_loop (next_round s'), u, w)
      else if falls_back t s e
      then ok (in_loop (fall_back s'), u, w)
      else give_up t s' e metadata u w

  -- With what was retained, if anything was.
  abbrev pub merge :
      ChildTask
      → ChildState
      → Option Retained
      → ChildTaskResult
      → List NormalizedEvidence
      → List Rejection
      → OtariMetadata
      → UsageAccumulator
      → Store
      → Round
  merge t s none result accepted reasons metadata u w =
      succeed t s result.sources_inspected accepted reasons metadata u w
  merge t s (some r) result accepted reasons metadata u w =
      succeed t s (put_keys [] (r.result.sources_inspected ++ result.sources_inspected))
        (put_items [] (r.accepted ++ accepted)) (r.rejected_reasons ++ reasons) metadata u w

  abbrev pub incomplete : ChildTask → ChildState → Bool → Bool
  incomplete t s complete =
      firecrawl_for t && not s.fallback_used && not complete && ltb 0 (t.time_left s.attempt)

  -- The `else` branch.
  unfoldable pub handle_result :
      ChildTask
      → ChildState
      → ChildTaskResult
      → List NormalizedEvidence
      → List Rejection
      → Bool
      → OtariMetadata
      → UsageAccumulator
      → Store
      → Round
  handle_result t s result accepted reasons complete metadata u w =
      let s' = record s { metadata_records = s.metadata_records ++ metadata ∷ [] } in
      if incomplete t s complete
      then ok (
        in_loop (record (fall_back s') {
          retained = some (record {
            result = result;
            accepted = accepted;
            rejected_reasons = reasons;
            metadata = metadata;
          });
        }),
        u,
        w,
      )
      else merge t s' s.retained result accepted reasons metadata u w

  abbrev pub handle : ChildTask → ChildState → Attempt → UsageAccumulator → Store → Round
  handle t s (raised e bound) u w = handle_error t s e bound u w
  handle t s (passed result accepted reasons complete metadata) u w =
      handle_result t s result accepted reasons complete metadata u w

  abbrev pub request : ChildTask → ChildState → UsageAccumulator → Store → Round
  request t s u w =
      let reserved =
        request_would_exceed_cost_ceiling env.ctx.limits env.ctx.cost_estimator child u in
      if t.is_cut_off s.attempt
      then ok (timed_out, reserved.1, w)
      else if reserved.0
      then ok (
        done ceiling_outcome,
        reserved.1,
        cancel_tasks env.clock (t.id ∷ []) cost_ceiling_reached w,
      )
      else handle t s
          (inspect_reply env.validator env.sha256 env.is_control env.settings.child_token_limit
            t.planned (t.encoded_size s.attempt) (t.reply s.attempt))
          reserved.1 w

  -- One round, or the end of the loop.
  unfoldable pub attempt_child : ChildTask → ChildState → UsageAccumulator → Store → Round
  unfolding handle_error handle_result
  attempt_child t s u w =
      if ltb (total_attempts t) s.attempt
      then ok (done lost_outcome, u, w)
      else (do w' ← set_task_attempt env.clock t.id s.attempt w; request t s u w')
