-- ===== src/Orchestrator/Rounds.antt =====
-- The loops of requests to the main model in agents/orchestrator.py end as they should: with a
-- result whose task has succeeded, or with the run in a final state.
use competitor_scout.Prelude.{
  ℕ, zero, suc, ◌+◌, ◌≤◌, ◌≡◌, refl, Bool, true, not, ◌&&◌, ◌||◌, List, [], ◌∷◌, Option, none, some,
  leb, arith, inl, inr, is_some, Option-cases, Result, ok, err, Ends, Ends-bind, Ends-if, ◌>>=◌,
}
use mathlib.Core.Path.{subst, sym}
use competitor_scout.Prelude.Tables.{find-update}
use competitor_scout.Prelude.Texts.{Text}
use competitor_scout.Json.{Value}
use competitor_scout.Runs.{ScoutRun, ScoutRunStatus, get_run, put_run, run_id_of, is_final, partial}
use competitor_scout.Orchestrator.Usage.{
  UsageAccumulator, OtariMetadata, main, add, request_would_exceed_cost_ceiling,
}
use competitor_scout.Orchestrator.Store.{
  Store, fail_run, finish_run, fail_task, cancel_tasks, succeed_task, set_task_attempt, failed_run,
  finished_run,
}
use competitor_scout.Orchestrator.Planning.{
  MainContext, Phase, Reply, completion, failure, stop_failed, stop_at_ceiling, rounds, conclude,
  after_reply, cost_ceiling_reached, agent_task_failed, settle, metadata_of, safe_error_code,
  error_summary, repairable,
}
use competitor_scout.Orchestrator.Invariant.{
  Good, Good-run, Good-fail, Good-cancel, Good-succeed, Good-set, without,
}
use competitor_scout.Orchestrator.Budget.{Within, request-Within, add-Within, settle-Within}

-- The run is in a final state.
abbrev pub Final : ℕ → Store → Type 0
Final run w = (r : ScoutRun) × (get_run run w.runs ≡ some r) × (is_final r.status ≡ true)

-- The run is in this state.
abbrev pub Stored : ℕ → ScoutRunStatus → Store → Type 0
Stored run status w = (r : ScoutRun) × (get_run run w.runs ≡ some r) × (r.status ≡ status)

pub Stored-Final :
    (run : ℕ) (status : ScoutRunStatus) (w : Store)
    → is_final status ≡ true
    → Stored run status w
    → Final run w
Stored-Final run status w final (r, m, e) = (r, m, subst (λ s. is_final s ≡ true) (sym e) final)

module _ (run : ℕ) (f : ScoutRun → ScoutRun)
    (keeps : (r : ScoutRun) → run_id_of (f r) ≡ run_id_of r) where
  pub put_run-Stored :
      (status : ScoutRunStatus) (rs : List ScoutRun)
      → is_some (get_run run rs) ≡ true
      → ((r : ScoutRun) → (f r).status ≡ status)
      → (r : ScoutRun) × (get_run run (put_run run f rs) ≡ some r) × (r.status ≡ status)
  put_run-Stored status rs h sets = elim (Option-cases (get_run run rs)) [
    | inl n ↦ ground arith
    | inr (r, n) ↦ (f r, ground (arith, find-update run_id_of run run f keeps rs), sets r)
  ]

module _ (clock : Store → ℕ) (run : ℕ) (A P : ℕ → Bool) where
  pub fail_run-Ends :
      (code : Text) (u : UsageAccumulator) (w : Store)
      → Good run A P w
      → Good run A P (fail_run clock run code u w)
        × Stored run ScoutRunStatus.failed (fail_run clock run code u w)
  unfolding fail_run
  fail_run-Ends code u w g = (
    Good-run run A P (failed_run code (clock w) u) (λ r. refl) w g,
    put_run-Stored run (failed_run code (clock w) u) (λ r. refl) ScoutRunStatus.failed w.runs
        g.has_run (λ r. refl),
  )

  pub finish_run-Ends :
      (status : ScoutRunStatus) (reasons : List Text) (u : UsageAccumulator) (w : Store)
      → Good run A P w
      → Ends
          (λ w'. Good run A P w' × Stored run status w')
          (finish_run clock run status reasons u w)
  unfolding finish_run
  finish_run-Ends status reasons u w g =
      let f = finished_run status reasons (clock w) u in
      rw g.has_run (
        Good-run run A P f (λ r. refl) w g,
        put_run-Stored run f (λ r. refl) status w.runs g.has_run (λ r. refl),
      )

-- What a phase leaves: without a result the run is in a final state.
abbrev pub Left :
    {A : Type 0}
    → MainContext
    → (ℕ → Bool)
    → (ℕ → Bool)
    → Option A × UsageAccumulator × Store
    → Type 0
Left ctx B Q (none, u, w) = Within ctx.limits u × Good ctx.run_id B Q w × Final ctx.run_id w
Left ctx B Q (some a, u, w) = Within ctx.limits u × Good ctx.run_id B Q w

module _ (clock : Store → ℕ) (ctx : MainContext) (B P : ℕ → Bool) (id : ℕ) (A : Type 0) where
  abbrev Post : Option A × UsageAccumulator × Store → Type 0
  Post = Left ctx B (without id P)

  abbrev Ready : UsageAccumulator → Store → Type 0
  Ready u w = Within ctx.limits u × Good ctx.run_id B P w

  pub stop_failed-Ends :
      (code summary : Text) (metadata : Option OtariMetadata) (unsettled : Bool)
      (u : UsageAccumulator) (w : Store)
      → Ready u w
      → Ends Post (stop_failed clock ctx A id code metadata unsettled summary u w)
  unfolding stop_failed
  stop_failed-Ends code summary metadata unsettled u w (within, g) =
      let failed = fail_task clock ctx.user_id ctx.run_id id code metadata unsettled summary w in
      let ends = fail_run-Ends clock ctx.run_id B (without id P) code u failed (
        Good-fail ctx.run_id clock B P ctx.user_id ctx.run_id id unsettled w code summary metadata
          g) in
      (
        within,
        ends.0,
        Stored-Final ctx.run_id ScoutRunStatus.failed (fail_run clock ctx.run_id code u failed) refl
            ends.1,
      )

  pub stop_at_ceiling-Ends :
      (u : UsageAccumulator) (w : Store)
      → Ready u w
      → Ends Post (stop_at_ceiling clock ctx A id u w)
  unfolding stop_at_ceiling
  stop_at_ceiling-Ends u w (within, g) =
      let cancelled = cancel_tasks clock (id ∷ []) cost_ceiling_reached w in
      Ends-bind (λ w'. Good ctx.run_id B (without id P) w' × Stored ctx.run_id partial w') Post
        (finish_run clock ctx.run_id partial (cost_ceiling_reached ∷ []) u cancelled)
        (λ w'. ok (none, u, w'))
        (finish_run-Ends clock ctx.run_id B (without id P) partial (cost_ceiling_reached ∷ []) u
          cancelled
          (Good-cancel ctx.run_id clock B P (without id P) (id ∷ []) cost_ceiling_reached w
            (λ k p m. ground arith) g))
        (λ w' (g', stored). (within, g', Stored-Final ctx.run_id partial w' refl stored))

  module _ (max_repairs : ℕ) (fallback : Text) (dump : A → Value)
      (check : A → OtariMetadata → Result Text (Unit {0})) (there : B id ≡ true)
      (may : P id ≡ true) where
    conclude-Ends :
        (checked : Result Text (Unit {0})) (result : A) (metadata : OtariMetadata)
        (unsettled : Bool) (u : UsageAccumulator) (w : Store)
        → Ready u w
        → Ends Post (
            conclude clock ctx id max_repairs fallback dump check checked result metadata unsettled
              u w)
    conclude-Ends (err code) result metadata unsettled u w h =
        stop_failed-Ends code agent_task_failed (some metadata) unsettled u w h
    conclude-Ends (ok _) result metadata unsettled u w (within, g) =
        Ends-bind (Good ctx.run_id B (without id P)) Post
          (succeed_task clock ctx.user_id ctx.run_id id metadata (dump result) unsettled w)
          (λ w'. ok (some result, u, w'))
          (Good-succeed ctx.run_id clock B P ctx.user_id ctx.run_id id unsettled w metadata
            (dump result) there g)
          (λ w' g'. (within, g'))

    after_reply-Ends :
        (again : Bool → UsageAccumulator → Store → Phase A) (attempt : ℕ) (unsettled : Bool)
        (u : UsageAccumulator) (reply : Reply A) (w : Store)
        → (attempt ≤ max_repairs
            → (b : Bool) (v : UsageAccumulator) (x : Store) → Ready v x
            → Ends Post (again b v x))
        → Ready u w
        → Ends Post (
            after_reply clock ctx id max_repairs fallback dump check again attempt unsettled u reply
              w)
    after_reply-Ends again attempt unsettled u (completion result metadata) w more (within, g) =
        conclude-Ends (check result metadata) result metadata unsettled (add metadata u) w
          (add-Within ctx.limits metadata u within, g)
    after_reply-Ends again attempt unsettled u (failure e) w more (within, g) =
        let code = safe_error_code e fallback in
        let unsettled' = unsettled || not (is_some (metadata_of e)) in
        let u' = settle (metadata_of e) u in
        let within' = settle-Within ctx.limits (metadata_of e) u within in
        Ends-if Post (repairable code && leb attempt max_repairs) (again unsettled' u' w)
          (stop_failed clock ctx A id code (metadata_of e) unsettled' (error_summary e) u' w)
          (λ r. more (ground arith) unsettled' u' w (within', g))
          (λ _.
            stop_failed-Ends code (error_summary e) (metadata_of e) unsettled' u' w (within', g))

    pub rounds-Ends :
        (reply : ℕ → Reply A) (left attempt : ℕ) (unsettled : Bool) (u : UsageAccumulator)
        (w : Store)
        → left + attempt ≡ max_repairs + 2
        → attempt ≤ max_repairs + 1
        → Ready u w
        → Ends Post
            (rounds clock ctx id max_repairs fallback dump check reply left attempt unsettled u w)
    unfolding rounds
    rounds-Ends reply zero attempt unsettled u w sum bound h = ground arith
    rounds-Ends reply (suc left) attempt unsettled u w sum bound (within, g) =
        let reserved = request_would_exceed_cost_ceiling ctx.limits ctx.cost_estimator main u in
        let within' = request-Within ctx.limits ctx.cost_estimator main u within in
        let again = rounds clock ctx id max_repairs fallback dump check reply left (suc attempt) in
        let next =
          after_reply clock ctx id max_repairs fallback dump check again attempt unsettled
            reserved.1 (reply attempt) in
        Ends-if Post reserved.0 (stop_at_ceiling clock ctx A id reserved.1 w)
          (set_task_attempt clock id attempt w >>= next)
          (λ _. stop_at_ceiling-Ends reserved.1 w (within', g))
          (λ _.
            Ends-bind (Good ctx.run_id B P) Post (set_task_attempt clock id attempt w) next
              (Good-set ctx.run_id clock B P id attempt w there may g)
              (λ w' g'.
                after_reply-Ends again attempt unsettled reserved.1 (reply attempt) w'
                  (λ le b v x.
                    rounds-Ends reply left (suc attempt) b v x (omega arith) (omega arith))
                  (within', g')))
