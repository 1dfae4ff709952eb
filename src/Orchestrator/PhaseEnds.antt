-- ===== src/Orchestrator/PhaseEnds.antt =====
-- The phases of a run in agents/orchestrator.py, each from a state in which no task is open.
use competitor_scout.Prelude.{
  ℕ, suc, ◌≡◌, refl, Bool, true, false, ◌||◌, List, [], ◌∷◌, ◌++◌, Option, none, some, ◌==◌,
  ==_refl, ltb, arith, Ends, Ends-if, Ends-mono,
}
use competitor_scout.Prelude.Texts.{Text}
use competitor_scout.Json.{Value}
use competitor_scout.Paging.Tasks.{AgentTask}
use competitor_scout.Orchestrator.Usage.{UsageAccumulator}
use competitor_scout.Orchestrator.Plans.{ScoutPlan, PlannedChildTask}
use competitor_scout.Orchestrator.Store.{Store, get_task}
use competitor_scout.Orchestrator.Planning.{
  MainContext, Reply, plan, rounds, stop_failed, estimated_tokens, main_input_token_limit,
  agent_task_failed, planning_failed, check_plan,
}
use competitor_scout.Orchestrator.ChildLoop.{ChildTask}
use competitor_scout.Orchestrator.Waves.{
  ChildWorld, create_child_tasks, insert_children, child_row, gathering,
}
use competitor_scout.Orchestrator.Invariant.{
  Good, Good-mono, Good-less, Good-insert, Good-run, without,
}
use competitor_scout.Orchestrator.Budget.{Within}
use competitor_scout.Orchestrator.Rounds.{Left, stop_failed-Ends, rounds-Ends}
use competitor_scout.Orchestrator.WaveEnds.{nothing, one_of, There}

There-self :
    (B : ℕ → Bool) (ts : List ChildTask) → ((k : ℕ) → one_of ts k ≡ true → B k ≡ true) → There B ts
There-self B [] sub = tt
There-self B (t ∷ ts) sub =
    (sub t.id (ground (arith, ==_refl t.id)), There-self B ts (λ k h. sub k (ground arith)))

-- A phase that leaves nothing open.
abbrev pub Clear : {A : Type 0} → MainContext → Option A × UsageAccumulator × Store → Type 0
Clear ctx r = Left ctx nothing nothing r

module _ (clock : Store → ℕ) (ctx : MainContext) where
  pub Clear-phase :
      {A : Type 0} (B : ℕ → Bool) (id : ℕ) (r : Option A × UsageAccumulator × Store)
      → Left ctx B (without id (λ k. id == k)) r
      → Clear ctx r
  Clear-phase B id (none, u, w) (within, g, final) = (
    within,
    Good-less ctx.run_id B nothing nothing w (λ k h. cc)
        (Good-mono ctx.run_id B (without id (λ k. id == k)) nothing w (λ k h. ground arith) g),
    final,
  )
  Clear-phase B id (some a, u, w) (within, g) = (
    within,
    Good-less ctx.run_id B nothing nothing w (λ k h. cc)
        (Good-mono ctx.run_id B (without id (λ k. id == k)) nothing w (λ k h. ground arith) g),
  )

  pub plan-Ends :
      (dump : ScoutPlan → Value) (size : ℕ) (reply : ℕ → Reply ScoutPlan) (B : ℕ → Bool)
      (u : UsageAccumulator) (w : Store)
      → B ctx.planner_task_id ≡ true
      → Within ctx.limits u
      → Good ctx.run_id B (λ k. ctx.planner_task_id == k) w
      → Ends (Clear ctx) (plan clock ctx dump size reply u w)
  unfolding plan
  plan-Ends dump size reply B u w there within g =
      let id = ctx.planner_task_id in
      let P : ℕ → Bool = λ k. id == k in
      let asks =
        rounds clock ctx id ctx.max_planning_repairs planning_failed dump (check_plan clock ctx)
          reply (suc ctx.max_planning_repairs) 1 false u w in
      let stops =
        stop_failed clock ctx ScoutPlan id main_input_token_limit none false agent_task_failed u
          w in
      Ends-if (Clear ctx) (ltb ctx.main_token_limit (estimated_tokens size)) stops asks
        (λ _.
          Ends-mono (Left ctx B (without id P)) (Clear ctx) stops
            (stop_failed-Ends clock ctx B P id ScoutPlan main_input_token_limit agent_task_failed
              none false u w (within, g))
            (Clear-phase B id))
        (λ _.
          Ends-mono (Left ctx B (without id P)) (Clear ctx) asks
            (rounds-Ends clock ctx B P id ScoutPlan ctx.max_planning_repairs planning_failed dump
              (check_plan clock ctx) there (==_refl id) reply (suc ctx.max_planning_repairs) 1 false
              u w (omega arith) (omega arith) (within, g))
            (Clear-phase B id))

  module _ (uuid4 : List AgentTask → ℕ)
      (uuid4_fresh : (ts : List AgentTask) → get_task (uuid4 ts) ts ≡ none) (model : Text)
      (text_values : List Text → List Value) where
    insert_children-Good :
        (world : ChildWorld) (place : ℕ) (plans : List PlannedChildTask) (B P : ℕ → Bool)
        (w : Store)
        → Good ctx.run_id B P w
        → let r = insert_children clock uuid4 model text_values ctx world place plans w in
          Good ctx.run_id (λ k. one_of r.0 k || B k) (λ k. one_of r.0 k || P k) r.1
    insert_children-Good world place [] B P w g = g
    insert_children-Good world place (planned ∷ plans) B P w g =
        let id = uuid4 w.tasks in
        let row = child_row clock uuid4 model text_values ctx id planned (clock w) in
        let w' : Store = record w { tasks = w.tasks ++ row ∷ [] } in
        let r = insert_children clock uuid4 model text_values ctx world (suc place) plans w' in
        Good-less ctx.run_id (λ k. one_of r.0 k || (id == k || B k)) _ _ r.1 (λ k h. ground arith)
          (Good-mono ctx.run_id _ (λ k. one_of r.0 k || (id == k || P k)) _ r.1
            (λ k h. ground arith)
            (insert_children-Good world (suc place) plans _ _ w'
              (Good-insert ctx.run_id B P row w (uuid4_fresh w.tasks) g)))

    pub create_child_tasks-Ends :
        (world : ChildWorld) (made : ScoutPlan) (w : Store)
        → Good ctx.run_id nothing nothing w
        → Ends
            (λ r. There (one_of r.0) r.0 × Good ctx.run_id (one_of r.0) (one_of r.0) r.1)
            (create_child_tasks clock uuid4 model text_values ctx world made w)
    unfolding create_child_tasks
    create_child_tasks-Ends world made w g =
        let r = insert_children clock uuid4 model text_values ctx world 0 made.tasks w in
        rw g.has_run (
          There-self (one_of r.0) r.0 (λ k h. h),
          Good-run ctx.run_id (one_of r.0) (one_of r.0)
              (gathering clock uuid4 model text_values ctx) (λ r. refl) r.1
              (Good-less ctx.run_id (λ k. one_of r.0 k || false) (one_of r.0) (one_of r.0) r.1
                (λ k h. ground arith)
                (Good-mono ctx.run_id (λ k. one_of r.0 k || false) (λ k. one_of r.0 k || false)
                  (one_of r.0) r.1 (λ k h. ground arith)
                  (insert_children-Good world 0 made.tasks nothing nothing w g))),
        )
