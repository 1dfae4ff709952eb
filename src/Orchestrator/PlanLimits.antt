-- ===== src/Orchestrator/PlanLimits.antt =====
-- The plans that planning in agents/orchestrator.py lets through, repairs included.
use competitor_scout.Prelude.{
  ℕ, zero, suc, ◌≤◌, ◌≡◌, refl, Bool, true, false, not, ◌&&◌, ◌||◌, List, [], ◌∷◌, Option, none,
  some, ltb, leb, arith, is_some, Result, ok, err, ◌>>=◌, Memᴰ, any, length, ap, guard_inversion,
  Safe, Safe-bind, Safe-if, Safe-ok,
}
use mathlib.Core.Path.{subst, sym}
use competitor_scout.Prelude.Texts.{Text, mem_text}
use competitor_scout.Json.{Value}
use competitor_scout.Evidence.{first_party_source_review}
use competitor_scout.Orchestrator.Usage.{
  UsageAccumulator, OtariMetadata, main, add, request_would_exceed_cost_ceiling,
}
use competitor_scout.Orchestrator.Plans.{
  ScoutPlan, PlannedChildTask, PlanError, validate_scout_plan, check_tasks, is_review, outside,
  invalid_plan_limits, invalid_plan_scope,
}
use competitor_scout.Orchestrator.Store.{Store, set_task_attempt}
use competitor_scout.Orchestrator.Planning.{
  MainContext, Phase, Reply, completion, failure, stop_failed, stop_at_ceiling, rounds, conclude,
  after_reply, plan, check_plan, after_validation, estimated_tokens, settle, metadata_of,
  safe_error_code, repairable, error_summary, main_input_token_limit, agent_task_failed,
  planning_failed,
}

-- A task of a plan that keeps to the settings and to the approved URLs.
pub record Allowed (approved : List Text) (max_search_calls : ℕ) (t : PlannedChildTask)
    : Type 0 where
  pub in_budget : t.max_search_calls ≤ max_search_calls
  pub in_scope :
      t.kind ≡ first_party_source_review
      → (url : Text) → Memᴰ url t.source_urls
      → mem_text url approved ≡ true

not_any :
    (approved urls : List Text)
    → any (outside approved) urls ≡ false
    → (url : Text) → Memᴰ url urls
    → mem_text url approved ≡ true
not_any approved [] h url m = elim m [ ]
not_any approved (u ∷ urls) h url (Memᴰ.head e) =
    subst (λ v. mem_text v approved ≡ true) (sym e) (ground arith)
not_any approved (u ∷ urls) h url (Memᴰ.tail m) = not_any approved urls (ground arith) url m

in_head_or_tail :
    (P : PlannedChildTask → Type 0) (t t' : PlannedChildTask) (ts : List PlannedChildTask)
    → P t
    → ((x : PlannedChildTask) → Memᴰ x ts → P x)
    → Memᴰ t' (t ∷ ts)
    → P t'
in_head_or_tail P t t' ts h k (Memᴰ.head e) = subst P (sym e) h
in_head_or_tail P t t' ts h k (Memᴰ.tail m) = k t' m

check_tasks-Allowed :
    (approved : List Text) (limit : ℕ) (ts : List PlannedChildTask)
    → check_tasks approved limit ts ≡ ok tt
    → (t : PlannedChildTask) → Memᴰ t ts
    → Allowed approved limit t
check_tasks-Allowed approved limit [] h t' m = elim m [ ]
check_tasks-Allowed approved limit (t ∷ ts) h t' m =
    let (budget, rest) =
      guard_inversion (not (ltb limit t.max_search_calls)) invalid_plan_limits _ tt h in
    let (scope, rest') =
      guard_inversion (not (is_review t.kind && any (outside approved) t.source_urls))
        invalid_plan_scope _ tt rest in
    in_head_or_tail (Allowed approved limit) t t' ts
      (record {
        in_budget = ground arith;
        in_scope = λ k url n. not_any approved t.source_urls (ground (arith, ap is_review k)) url n;
      })
      (check_tasks-Allowed approved limit ts rest') m

-- What a phase made passed the check.
abbrev pub Checked :
    {A : Type 0}
    → (A → OtariMetadata → Result Text (Unit {0}))
    → Option A × UsageAccumulator × Store
    → Type 0
Checked check (none, u, w) = Unit
Checked check (some a, u, w) = (metadata : OtariMetadata) × (check a metadata ≡ ok tt)

module _ (clock : Store → ℕ) (ctx : MainContext) (A : Type 0) (id max_repairs : ℕ) (fallback : Text)
    (dump : A → Value) (check : A → OtariMetadata → Result Text (Unit {0})) where
  stop_at_ceiling-Safe :
      (u : UsageAccumulator) (w : Store) → Safe (Checked check) (stop_at_ceiling clock ctx A id u w)
  unfolding stop_at_ceiling
  stop_at_ceiling-Safe u w = Safe-bind (Checked check) _ (λ w'. ok (none, u, w')) (λ w'. tt)

  conclude-Safe :
      (checked : Result Text (Unit {0})) (a : A) (metadata : OtariMetadata) (unsettled : Bool)
      (u : UsageAccumulator) (w : Store)
      → checked ≡ check a metadata
      → Safe
          (Checked check)
          (conclude clock ctx id max_repairs fallback dump check checked a metadata unsettled u w)
  unfolding stop_failed
  conclude-Safe (err code) a metadata unsettled u w e = tt
  conclude-Safe (ok _) a metadata unsettled u w e =
      Safe-bind (Checked check) _ (λ w'. ok (some a, u, w')) (λ w'. (metadata, sym e))

  after_reply-Safe :
      (again : Bool → UsageAccumulator → Store → Phase A) (attempt : ℕ) (unsettled : Bool)
      (u : UsageAccumulator) (reply : Reply A) (w : Store)
      → ((b : Bool) (v : UsageAccumulator) (x : Store) → Safe (Checked check) (again b v x))
      → Safe (Checked check) (
          after_reply clock ctx id max_repairs fallback dump check again attempt unsettled u reply
            w)
  unfolding stop_failed
  after_reply-Safe again attempt unsettled u (completion a metadata) w more =
      conclude-Safe (check a metadata) a metadata unsettled (add metadata u) w refl
  after_reply-Safe again attempt unsettled u (failure e) w more =
      let unsettled' = unsettled || not (is_some (metadata_of e)) in
      let u' = settle (metadata_of e) u in
      let code = safe_error_code e fallback in
      Safe-if (Checked check) (repairable code && leb attempt max_repairs) (again unsettled' u' w)
        (stop_failed clock ctx A id code (metadata_of e) unsettled' (error_summary e) u' w)
        (λ _. more unsettled' u' w) (λ _. tt)

  rounds-Safe :
      (reply : ℕ → Reply A) (left attempt : ℕ) (unsettled : Bool) (u : UsageAccumulator) (w : Store)
      → Safe
          (Checked check)
          (rounds clock ctx id max_repairs fallback dump check reply left attempt unsettled u w)
  unfolding rounds
  rounds-Safe reply zero attempt unsettled u w = tt
  rounds-Safe reply (suc left) attempt unsettled u w =
      let reserved = request_would_exceed_cost_ceiling ctx.limits ctx.cost_estimator main u in
      let again = rounds clock ctx id max_repairs fallback dump check reply left (suc attempt) in
      let next =
        after_reply clock ctx id max_repairs fallback dump check again attempt unsettled reserved.1
          (reply attempt) in
      Safe-if (Checked check) reserved.0 (stop_at_ceiling clock ctx A id reserved.1 w)
        (set_task_attempt clock id attempt w >>= next) (λ _. stop_at_ceiling-Safe reserved.1 w)
        (λ _. Safe-bind (Checked check) (set_task_attempt clock id attempt w) next (λ w'.
          after_reply-Safe again attempt unsettled reserved.1 (reply attempt) w'
            (rounds-Safe reply left (suc attempt))))

validated :
    (clock : Store → ℕ) (ctx : MainContext) (metadata : OtariMetadata)
    (m : Result PlanError (Unit {0}))
    → after_validation clock ctx metadata m ≡ ok tt
    → m ≡ ok tt
validated clock ctx metadata (ok tt) h = refl
validated clock ctx metadata (err e) h = cc

-- A plan that keeps to the settings.
pub record Modest (ctx : MainContext) (made : ScoutPlan) : Type 0 where
  pub few : length made.tasks ≤ ctx.max_child_tasks_per_run
  pub each :
      (t : PlannedChildTask)
      → Memᴰ t made.tasks
      → Allowed ctx.approved_urls ctx.max_child_search_calls t

check_plan-Modest :
    (clock : Store → ℕ) (ctx : MainContext) (made : ScoutPlan) (metadata : OtariMetadata)
    → check_plan clock ctx made metadata ≡ ok tt
    → Modest ctx made
unfolding validate_scout_plan
check_plan-Modest clock ctx made metadata h =
    let (few, rest) =
      guard_inversion (not (ltb ctx.max_child_tasks_per_run (length made.tasks)))
        invalid_plan_limits (check_tasks ctx.approved_urls ctx.max_child_search_calls made.tasks) tt
        (validated clock ctx metadata _ h) in
    record {
      few = ground arith;
      each = check_tasks-Allowed ctx.approved_urls ctx.max_child_search_calls made.tasks rest;
    }

-- A plan that planning returns, at the first attempt or after repairs, has no more tasks than the
-- settings allow, each with no more search calls than they allow, and a review of first-party sources
-- names approved URLs alone.
pub plan_limits :
    (clock : Store → ℕ) (ctx : MainContext) (dump : ScoutPlan → Value) (size : ℕ)
    (reply : ℕ → Reply ScoutPlan) (u u' : UsageAccumulator) (w w' : Store) (made : ScoutPlan)
    → plan clock ctx dump size reply u w ≡ ok (some made, u', w')
    → (length made.tasks ≤ ctx.max_child_tasks_per_run)
      × ((t : PlannedChildTask)
          → Memᴰ t made.tasks
          → (t.max_search_calls ≤ ctx.max_child_search_calls)
            × (t.kind ≡ first_party_source_review
                → (url : Text) → Memᴰ url t.source_urls
                → mem_text url ctx.approved_urls ≡ true))
unfolding plan stop_failed
plan_limits clock ctx dump size reply u u' w w' made h =
    let check = check_plan clock ctx in
    let (metadata, passed) =
      Safe-ok (Checked check) (plan clock ctx dump size reply u w) (some made, u', w') h
        (Safe-if (Checked check) (ltb ctx.main_token_limit (estimated_tokens size))
          (stop_failed clock ctx ScoutPlan ctx.planner_task_id main_input_token_limit none false
            agent_task_failed u w)
          (rounds clock ctx ctx.planner_task_id ctx.max_planning_repairs planning_failed dump check
            reply (suc ctx.max_planning_repairs) 1 false u w)
          (λ _. tt)
          (λ _.
            rounds-Safe clock ctx ScoutPlan ctx.planner_task_id ctx.max_planning_repairs
              planning_failed dump check reply (suc ctx.max_planning_repairs) 1 false u w)) in
    let modest = check_plan-Modest clock ctx made metadata passed in
    (modest.few, λ t m. let a = modest.each t m in (a.in_budget, a.in_scope))
