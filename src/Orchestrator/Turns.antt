-- ===== src/Orchestrator/Turns.antt =====
-- A round of a child task in agents/orchestrator.py leaves its loop with the task closed, or goes on
-- within its attempts.
use competitor_scout.Prelude.{
  ℕ, suc, ◌≤◌, ◌≡◌, refl, Bool, true, false, not, ◌||◌, List, [], ◌∷◌, ◌++◌, Option, none, some,
  if◌then◌else◌, ltb, arith, is_some, ok, Ends, Ends-bind, Ends-if, ◌>>=◌, map,
}
use competitor_scout.Prelude.Texts.{Text}
use competitor_scout.Evidence.{NormalizedEvidence}
use competitor_scout.Orchestrator.Usage.{
  UsageAccumulator, OtariMetadata, child, request_would_exceed_cost_ceiling,
}
use competitor_scout.Orchestrator.Store.{Store, cancel_tasks, succeed_task, set_task_attempt}
use competitor_scout.Orchestrator.Planning.{
  AgentError, safe_error_code, error_summary, cost_ceiling_reached,
}
use competitor_scout.Orchestrator.Children.{
  ChildTaskResult, Rejection, Attempt, raised, passed, inspect_reply, put_keys, put_items,
  lost_outcome,
}
use competitor_scout.Orchestrator.ChildLoop.{
  ChildState, Progress, in_loop, timed_out, done, Round, ChildTask, ChildEnv, Retained,
  ceiling_outcome, or_metadata, append_metadata, child_task_failed, accepted_by,
}
use competitor_scout.Orchestrator.Attempts.{
  primary_attempts, total_attempts, succeed, give_up, merge, incomplete, retries, falls_back,
  handle_error, handle_result, handle, request, attempt_child,
}
use competitor_scout.Orchestrator.Invariant.{
  Good, Good-fail, Good-cancel, Good-succeed, Good-set, without,
}
use competitor_scout.Orchestrator.Budget.{Within, request-Within}

module _ (env : ChildEnv) where
  abbrev pub total : ChildTask → ℕ
  total = total_attempts env

  abbrev pub primary : ℕ
  primary = primary_attempts env

  -- The round that comes next is one that the task has.
  pub record Bounded (t : ChildTask) (s : ChildState) : Type 0 where
    pub in_total : s.attempt ≤ total t
    pub in_primary : s.fallback_used ≡ false → s.attempt ≤ primary

  module _ (B P : ℕ → Bool) (t : ChildTask) where
    -- After the round `n`.
    abbrev pub AfterRound : ℕ → Progress × UsageAccumulator × Store → Type 0
    AfterRound n (in_loop s, u, w) =
        Within env.ctx.limits u × Good env.ctx.run_id B P w × Bounded t s × (s.attempt ≡ suc n)
    AfterRound n (timed_out, u, w) = Within env.ctx.limits u × Good env.ctx.run_id B P w
    AfterRound n (done o, u, w) = Within env.ctx.limits u × Good env.ctx.run_id B (without t.id P) w

  module _ (B P : ℕ → Bool) (t : ChildTask) (there : B t.id ≡ true) where
    abbrev Post : ℕ → Progress × UsageAccumulator × Store → Type 0
    Post = AfterRound B P t

    abbrev Ready : UsageAccumulator → Store → Type 0
    Ready u w = Within env.ctx.limits u × Good env.ctx.run_id B P w

    succeed-Ends :
        (s : ChildState) (urls : List Text) (evidence : List NormalizedEvidence)
        (reasons : List Rejection) (metadata : OtariMetadata) (u : UsageAccumulator) (w : Store)
        (n : ℕ)
        → Ready u w
        → Ends (Post n) (succeed env t s urls evidence reasons metadata u w)
    succeed-Ends s urls evidence reasons metadata u w n (within, g) =
        Ends-bind (Good env.ctx.run_id B (without t.id P)) (Post n)
          (succeed_task env.clock env.ctx.user_id env.ctx.run_id t.id metadata
            (env.dump (record {
              sources_inspected = urls;
              evidence = evidence;
              rejected_reasons = reasons;
            }))
            s.unsettled w)
          (λ w'. ok (
            done (record {
              accepted = map (accepted_by t.id t.planned) evidence;
              inspected_urls = urls;
              metadata = s.metadata_records;
              failed = false;
              unsettled_attempt = s.unsettled;
              budget_stop_code = none;
            }),
            u,
            w',
          ))
          (Good-succeed env.ctx.run_id env.clock B P env.ctx.user_id env.ctx.run_id t.id s.unsettled
            w metadata
            (env.dump (record {
              sources_inspected = urls;
              evidence = evidence;
              rejected_reasons = reasons;
            }))
            there g)
          (λ w' g'. (within, g'))

    give_up-Ends :
        (s : ChildState) (o : Option Retained) (e : AgentError) (metadata : Option OtariMetadata)
        (u : UsageAccumulator) (w : Store) (n : ℕ)
        → Ready u w
        → Ends (Post n) (give_up env t (record s { retained = o }) e metadata u w)
    give_up-Ends s (some r) e metadata u w n h =
        succeed-Ends (record s { retained = some r }) r.result.sources_inspected r.accepted
          r.rejected_reasons r.metadata u w n h
    give_up-Ends s none e metadata u w n (within, g) = (
      within,
      Good-fail env.ctx.run_id env.clock B P env.ctx.user_id env.ctx.run_id t.id s.unsettled w
          (safe_error_code e child_task_failed) (error_summary e) metadata g,
    )

    merge-Ends :
        (s : ChildState) (o : Option Retained) (result : ChildTaskResult)
        (accepted : List NormalizedEvidence) (reasons : List Rejection) (metadata : OtariMetadata)
        (u : UsageAccumulator) (w : Store) (n : ℕ)
        → Ready u w
        → Ends (Post n) (merge env t s o result accepted reasons metadata u w)
    merge-Ends s none result accepted reasons metadata u w n h =
        succeed-Ends s result.sources_inspected accepted reasons metadata u w n h
    merge-Ends s (some r) result accepted reasons metadata u w n h =
        succeed-Ends s (put_keys [] (r.result.sources_inspected ++ result.sources_inspected))
          (put_items [] (r.accepted ++ accepted)) (r.rejected_reasons ++ reasons) metadata u w n h

    handle_error-Ends :
        (s : ChildState) (e : AgentError) (bound : Option OtariMetadata) (u : UsageAccumulator)
        (w : Store)
        → Bounded t s
        → Ready u w
        → Ends (Post s.attempt) (handle_error env t s e bound u w)
    unfolding handle_error
    handle_error-Ends s e bound u w b (within, g) =
        let metadata = or_metadata bound e in
        let s' : ChildState = record s {
          metadata_records = append_metadata s.metadata_records metadata;
          unsettled = s.unsettled || not (is_some metadata);
        } in
        let gives_up = give_up env t s' e metadata u w in
        Ends-if (Post s.attempt) (retries env t s e)
          (ok (in_loop (record s' { attempt = suc s.attempt }), u, w))
          (if falls_back env t s e
            then ok (in_loop (record s' { attempt = suc s.attempt; fallback_used = true }), u, w)
            else gives_up)
          (λ r.
            (within, g, record { in_total = ground arith; in_primary = λ _. ground arith }, refl))
          (λ _.
            Ends-if (Post s.attempt) (falls_back env t s e)
              (ok (in_loop (record s' { attempt = suc s.attempt; fallback_used = true }), u, w))
              gives_up
              (λ r. (
                within,
                g,
                record { in_total = ground (arith, b.in_primary); in_primary = λ h. cc },
                refl,
              ))
              (λ _. give_up-Ends s' s.retained e metadata u w s.attempt (within, g)))

    handle_result-Ends :
        (s : ChildState) (result : ChildTaskResult) (accepted : List NormalizedEvidence)
        (reasons : List Rejection) (complete : Bool) (metadata : OtariMetadata)
        (u : UsageAccumulator) (w : Store)
        → Bounded t s
        → Ready u w
        → Ends
            (Post s.attempt)
            (handle_result env t s result accepted reasons complete metadata u w)
    unfolding handle_result
    handle_result-Ends s result accepted reasons complete metadata u w b (within, g) =
        let s' : ChildState = record s { metadata_records = s.metadata_records ++ metadata ∷ [] } in
        let kept : Retained = record {
          result = result;
          accepted = accepted;
          rejected_reasons = reasons;
          metadata = metadata;
        } in
        let merged = merge env t s' s.retained result accepted reasons metadata u w in
        Ends-if (Post s.attempt) (incomplete env t s complete)
          (ok (
            in_loop
                (record s' { attempt = suc s.attempt; fallback_used = true; retained = some kept }),
            u,
            w,
          ))
          merged
          (λ r. (
            within,
            g,
            record { in_total = ground (arith, b.in_primary); in_primary = λ h. cc },
            refl,
          ))
          (λ _. merge-Ends s' s.retained result accepted reasons metadata u w s.attempt (within, g))

    handle-Ends :
        (s : ChildState) (seen : Attempt) (u : UsageAccumulator) (w : Store)
        → Bounded t s
        → Ready u w
        → Ends (Post s.attempt) (handle env t s seen u w)
    handle-Ends s (raised e bound) u w b h = handle_error-Ends s e bound u w b h
    handle-Ends s (passed result accepted reasons complete metadata) u w b h =
        handle_result-Ends s result accepted reasons complete metadata u w b h

    module _ (may : P t.id ≡ true) where
      request-Ends :
          (s : ChildState) (u : UsageAccumulator) (w : Store)
          → Bounded t s
          → Ready u w
          → Ends (Post s.attempt) (request env t s u w)
      request-Ends s u w b (within, g) =
          let reserved =
            request_would_exceed_cost_ceiling env.ctx.limits env.ctx.cost_estimator child u in
          let within' = request-Within env.ctx.limits env.ctx.cost_estimator child u within in
          let seen =
            inspect_reply env.validator env.sha256 env.is_control env.settings.child_token_limit
              t.planned (t.encoded_size s.attempt) (t.reply s.attempt) in
          let stopped : Round = ok (
            done ceiling_outcome,
            reserved.1,
            cancel_tasks env.clock (t.id ∷ []) cost_ceiling_reached w,
          ) in
          let handled = handle env t s seen reserved.1 w in
          Ends-if (Post s.attempt) (t.is_cut_off s.attempt) (ok (timed_out, reserved.1, w))
            (if reserved.0 then stopped else handled) (λ _. (within', g))
            (λ _.
              Ends-if (Post s.attempt) reserved.0 stopped handled
                (λ _. (
                  within',
                  Good-cancel env.ctx.run_id env.clock B P (without t.id P) (t.id ∷ [])
                      cost_ceiling_reached w (λ k p m. ground arith) g,
                ))
                (λ _. handle-Ends s seen reserved.1 w b (within', g)))

      pub attempt_child-Ends :
          (s : ChildState) (u : UsageAccumulator) (w : Store)
          → Bounded t s
          → Ready u w
          → Ends (Post s.attempt) (attempt_child env t s u w)
      unfolding attempt_child
      attempt_child-Ends s u w b (within, g) =
          let next = request env t s u in
          Ends-if (Post s.attempt) (ltb (total t) s.attempt) (ok (done lost_outcome, u, w))
            (set_task_attempt env.clock t.id s.attempt w >>= next)
            (λ over. ground (arith, b.in_total))
            (λ _.
              Ends-bind (Good env.ctx.run_id B P) (Post s.attempt)
                (set_task_attempt env.clock t.id s.attempt w) next
                (Good-set env.ctx.run_id env.clock B P t.id s.attempt w there may g)
                (λ w' g'. request-Ends s u w' b (within, g')))
