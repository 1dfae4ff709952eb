-- ===== src/Orchestrator/StartEnds.antt =====
-- How `_start_run` of agents/orchestrator.py leaves a run: begun, or in a final state.
use competitor_scout.Prelude.{
  ℕ, ◌≡◌, refl, sym, Bool, true, false, not, ◌||◌, List, [], ◌∷◌, ◌++◌, Option, none, some,
  if◌then◌else◌, ◌==◌, ==_iff, leb, arith, ok, Ends, Ends-if, Bool-cases, inl, inr, map, all,
}
use mathlib.Core.Path.{subst}
use competitor_scout.Prelude.Tables.{find-key}
use competitor_scout.Prelude.Texts.{Text, str}
use competitor_scout.Json.{Value}
use competitor_scout.Competitors.{Competitor, Tables, get_competitor, is_active}
use competitor_scout.Paging.Tasks.{AgentTask}
use competitor_scout.Runs.{is_scout, is_queued, ScoutRun, failed, get_run, run_id_of, is_final}
use competitor_scout.Orchestrator.Usage.{Ceilings, no_usage}
use competitor_scout.Orchestrator.Store.{Store, Crash, get_task}
use competitor_scout.Orchestrator.Planning.{MainContext}
use competitor_scout.Orchestrator.Starting.{
  RunSettings, terminalize_interrupted_run, is_interrupted, refused_run, start_run, start_found,
  start_with, refuse, begin_planning, belongs, daily_cost, day_of, planner_row, started_run,
  competitor_of, sources_of, url_of, competitor_inactive, run_ownership_mismatch, daily_cost_limit,
}
use competitor_scout.Orchestrator.Invariant.{
  Good, Good-insert, Good-mono, Good-less, Good-run, open_in,
}
use competitor_scout.Orchestrator.Budget.{Within}
use competitor_scout.Orchestrator.Rounds.{Final, put_run-Stored}
use competitor_scout.Orchestrator.Interrupted.{status_cases, terminalize-Ends}
use competitor_scout.Orchestrator.WaveEnds.{nothing}
use competitor_scout.Orchestrator.Persisting.{EvidenceItem}
use competitor_scout.Orchestrator.SynthesisEnds.{owned_evidence}

-- No task of the run is open, unless an execution of it was interrupted.
abbrev pub Settled : ℕ → Store → Type 0
Settled run w =
    (k : ℕ) (t : AgentTask) (r : ScoutRun)
    → get_task k w.tasks ≡ some t
    → open_in run t ≡ true
    → get_run run w.runs ≡ some r
    → is_interrupted r.status ≡ true

-- What `_start_run` leaves: the run has ended, or its planner's task is the one that is open.
abbrev pub Started :
    ℕ → Ceilings → List EvidenceItem → Option (MainContext × Competitor) × Store → Type 0
Started run limits items (none, w) = Good run nothing nothing w × Final run w
Started run limits items (some (ctx, c), w) =
    (ctx.run_id ≡ run)
    × (ctx.limits ≡ limits)
    × Within ctx.limits no_usage
    × Good run (λ k. ctx.planner_task_id == k) (λ k. ctx.planner_task_id == k) w
    × (all (owned_evidence ctx.user_id c.id) items ≡ true)

-- The ceilings of a run of the user, from what is settled on the day.
abbrev pub ceilings_of : RunSettings → ℕ → Ceilings
ceilings_of settings initial = record {
  max_run_cost_usd = settings.max_run_cost_usd;
  max_user_daily_cost_usd = settings.max_user_daily_cost_usd;
  initial_daily_cost = initial;
}

-- Evidence of a competitor belongs to the competitor's user.
abbrev pub OwnedEvidence : Tables → List EvidenceItem → Type 0
OwnedEvidence db items =
    (k : ℕ) (c : Competitor)
    → get_competitor k db.competitors ≡ some c
    → all (owned_evidence c.user_id c.id) items ≡ true

module _ (now : ℕ) (uuid4 : List AgentTask → ℕ)
    (uuid4_fresh : (ts : List AgentTask) → get_task (uuid4 ts) ts ≡ none) (settings : RunSettings)
    (text_values : List Text → List Value) (db : Tables) (has_snapshot : ℕ → Bool)
    (items : List EvidenceItem) where
  refuse-Ends :
      (r : ScoutRun) (limits : Ceilings) (code summary : Text) (w : Store)
      → Good r.id nothing nothing w
      → Started r.id limits items
          (refuse now uuid4 settings text_values db has_snapshot r code summary w)
  refuse-Ends r limits code summary w g =
      let f = refused_run code summary now in
      let (r', m, e) = put_run-Stored r.id f (λ r. refl) failed w.runs g.has_run (λ r. refl) in
      (
        Good-run r.id nothing nothing f (λ r. refl) w g,
        (r', m, subst (λ s. is_final s ≡ true) (sym e) refl),
      )

  begin-Ends :
      (r : ScoutRun) (c : Competitor) (initial : ℕ) (w : Store)
      → leb settings.max_user_daily_cost_usd initial ≡ false
      → all (owned_evidence r.user_id c.id) items ≡ true
      → Good r.id nothing nothing w
      → let begun = begin_planning now uuid4 settings text_values db has_snapshot r c initial w in
        Started r.id (ceilings_of settings initial) items (some (begun.0, c), begun.1)
  begin-Ends r c initial w below own g =
      let id = uuid4 w.tasks in
      let urls = map url_of (sources_of now uuid4 settings text_values db has_snapshot c) in
      let row = planner_row now uuid4 settings text_values db has_snapshot id r.id urls in
      let w₁ : Store = record w { tasks = w.tasks ++ row ∷ [] } in
      let g₁ = Good-insert r.id nothing nothing row w (uuid4_fresh w.tasks) g in
      (
        refl,
        refl,
        record { in_run = omega arith; in_day = ground arith },
        Good-less r.id (λ k. id == k || false) (λ k. id == k) (λ k. id == k) _ (λ k h. ground arith)
            (Good-run r.id (λ k. id == k || false) (λ k. id == k)
              (started_run now uuid4 settings text_values db has_snapshot) (λ r. refl) w₁
              (Good-mono r.id (λ k. id == k || false) (λ k. id == k || false) (λ k. id == k) w₁
                (λ k h. ground arith) g₁)),
        own,
      )

  abbrev pub limits_of : ScoutRun → Store → Ceilings
  limits_of r w = ceilings_of settings (daily_cost r.user_id (day_of now) w.usage_events)

  abbrev Begun : ScoutRun → Store → Option (MainContext × Competitor) × Store → Type 0
  Begun r w = Started r.id (limits_of r w) items

  start_with-Ends :
      (r : ScoutRun) (o : Option Competitor) (w : Store)
      → ((c : Competitor) → o ≡ some c → all (owned_evidence c.user_id c.id) items ≡ true)
      → Good r.id nothing nothing w
      → Ends {E = Crash}
          (Begun r w)
          (ok (start_with now uuid4 settings text_values db has_snapshot r o w))
  unfolding start_with
  start_with-Ends r none w own g =
      refuse-Ends r (limits_of r w) competitor_inactive (str "competitor is not active") w g
  start_with-Ends r (some c) w own g =
      let initial = daily_cost r.user_id (day_of now) w.usage_events in
      let refused = refuse now uuid4 settings text_values db has_snapshot r in
      let begun = begin_planning now uuid4 settings text_values db has_snapshot r c initial w in
      elim (Bool-cases (belongs r c)) [
        | inr e ↦ rw e (
            refuse-Ends r (limits_of r w) run_ownership_mismatch
              (str "Scout Run ownership is invalid") w g)
        | inl mine ↦ elim (Bool-cases (is_active c.status)) [
          | inr e ↦
              rw (mine, e)
                (refuse-Ends r (limits_of r w) competitor_inactive (str "competitor is not active")
                  w g)
          | inl active ↦ elim (Bool-cases (leb settings.max_user_daily_cost_usd initial)) [
            | inl e ↦
                rw (mine, active, e)
                  (refuse-Ends r (limits_of r w) daily_cost_limit
                    (str "daily settled-cost limit reached") w g)
            | inr e ↦
                rw (mine, active, e)
                  (begin-Ends r c initial w e
                    (subst (λ n. all (owned_evidence n c.id) items ≡ true)
                      (sym ((==_iff r.user_id c.user_id).0 mine)) (own c refl))
                    g)
          ]
        ]
      ]

  owned_competitor :
      OwnedEvidence db items
      → (o : Option ℕ) (c : Competitor)
      → competitor_of now uuid4 settings text_values db has_snapshot o ≡ some c
      → all (owned_evidence c.user_id c.id) items ≡ true
  owned_competitor own none c m = cc
  owned_competitor own (some k) c m = own k c m

  start_found-Ends :
      (r : ScoutRun) (w : Store)
      → get_run r.id w.runs ≡ some r
      → is_scout r.run_type ≡ true
      → Settled r.id w
      → OwnedEvidence db items
      → Ends (Begun r w) (start_found now uuid4 settings text_values db has_snapshot (some r) w)
  unfolding start_found
  start_found-Ends r w m scout settled own =
      let started =
        start_with now uuid4 settings text_values db has_snapshot r
          (competitor_of now uuid4 settings text_values db has_snapshot r.competitor_id) w in
      let good : is_interrupted r.status ≡ false → Good r.id nothing nothing w = λ e. record {
        has_run = ground arith;
        present = λ k a. cc;
        closed = λ k t n o. ground (arith, settled k t r n o m);
      } in
      rw scout (
        Ends-if (Begun r w) (is_interrupted r.status)
          (ok (none, terminalize_interrupted_run r.id now w))
          (if not (is_queued r.status) then ok (none, w) else ok started)
          (λ _. terminalize-Ends r.id now r w m)
          (λ e.
            Ends-if (Begun r w) (not (is_queued r.status)) (ok (none, w)) (ok started)
              (λ q. (good e, (r, m, status_cases r.status e q)))
              (λ q.
                start_with-Ends r
                  (competitor_of now uuid4 settings text_values db has_snapshot r.competitor_id) w
                  (owned_competitor own r.competitor_id) (good e))))

  pub start_run-Ends :
      (run : ℕ) (r : ScoutRun) (w : Store)
      → get_run run w.runs ≡ some r
      → is_scout r.run_type ≡ true
      → Settled run w
      → OwnedEvidence db items
      → Ends
          (Started run (limits_of r w) items)
          (start_run now uuid4 settings text_values db has_snapshot run w)
  unfolding start_run
  start_run-Ends run r w m scout settled own =
      let e : r.id ≡ run = find-key run_id_of run w.runs r m in
      rw m (
        subst
          (λ n.
            Ends (Started n (limits_of r w) items)
              (start_found now uuid4 settings text_values db has_snapshot (some r) w))
          e
          (start_found-Ends r w (subst (λ n. get_run n w.runs ≡ some r) (sym e) m) scout
            (subst (λ n. Settled n w) (sym e) settled) own))
