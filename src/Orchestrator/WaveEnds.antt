-- ===== src/Orchestrator/WaveEnds.antt =====
-- All waves together in agents/orchestrator.py: they end, with every child task closed.
use competitor_scout.Prelude.{
  ℕ, zero, suc, ◌+◌, ◌≤◌, ◌≡◌, Bool, true, false, List, [], ◌∷◌, ◌++◌, Option, none, some, ◌==◌,
  arith, ok, Ends, Ends-bind, Ends-mono, count, Option-cases, inl, inr, Ends-if, ◌>>=◌, map, take,
  drop, length, length-drop,
}
use competitor_scout.Prelude.Texts.{Text}
use competitor_scout.Evidence.{}
use competitor_scout.Orchestrator.Usage.{UsageAccumulator, run_budget_reached}
use competitor_scout.Orchestrator.Store.{Store, cancel_tasks, mem_id}
use competitor_scout.Orchestrator.Children.{ChildOutcome}
use competitor_scout.Orchestrator.ChildLoop.{ChildTask, ChildEnv, in_loop, timed_out, done}
use competitor_scout.Orchestrator.Waves.{Child, run_cost_limit, stop_codes, add_outcomes, ids_of}
use competitor_scout.Orchestrator.Gathering.{Gathered, start, turns, expire, after_wave, gather}
use competitor_scout.Orchestrator.Invariant.{Good, Good-mono, Good-cancel}
use competitor_scout.Orchestrator.Budget.{Within, add_outcomes-Within}
use competitor_scout.Orchestrator.Interleavings.{
  or_waits, Steady, AllMoved, attempt_at, turns-Ends, expire-Ends,
}

abbrev pub nothing : ℕ → Bool
nothing k = false

abbrev pub one_of : List ChildTask → ℕ → Bool
one_of ts k = mem_id k (ids_of ts)

-- The tasks are there.
abbrev pub There : (ℕ → Bool) → List ChildTask → Type 0
There B [] = Unit
There B (t ∷ ts) = (B t.id ≡ true) × There B ts

There-drop : (B : ℕ → Bool) (n : ℕ) (ts : List ChildTask) → There B ts → There B (drop n ts)
There-drop B zero ts h = h
There-drop B (suc n) [] h = tt
There-drop B (suc n) (t ∷ ts) h = There-drop B n ts h.1

-- A task of the plan is in the wave or comes after it.
split_wave :
    (n k : ℕ) (ts : List ChildTask)
    → one_of ts k ≡ true
    → or_waits (map start (take n ts)) (one_of (drop n ts)) k ≡ true
split_wave zero k ts h = h
split_wave (suc n) k [] h = cc
split_wave (suc n) k (t ∷ ts) h = ground (arith, split_wave n k ts)

module _ (env : ChildEnv) (B : ℕ → Bool) where
  start-Steady : (n : ℕ) (ts : List ChildTask) → There B ts → Steady env B (map start (take n ts))
  start-Steady zero ts h = tt
  start-Steady (suc n) [] h = tt
  start-Steady (suc n) (t ∷ ts) (there, h) = (
    there,
    record { in_total = ground arith; in_primary = λ _. ground arith },
    start-Steady n ts h,
  )

  abbrev pub Gone : List ChildOutcome × Option Text × UsageAccumulator × Store → Type 0
  Gone (outcomes, stopped, u, w) = Within env.ctx.limits u × Good env.ctx.run_id B nothing w

  after_wave-Ends :
      (codes : List Text) (outcomes : List ChildOutcome) (rest : List ChildTask)
      (again : UsageAccumulator → Store → Gathered) (u : UsageAccumulator) (w : Store)
      → ((v : UsageAccumulator) (x : Store)
          → Within env.ctx.limits v
          → Good env.ctx.run_id B (one_of rest) x
          → Ends Gone (again v x))
      → Within env.ctx.limits u
      → Good env.ctx.run_id B (one_of rest) w
      → Ends Gone (after_wave env codes outcomes rest again u w)
  after_wave-Ends (code ∷ codes) outcomes rest again u w more within g = (
    within,
    Good-cancel env.ctx.run_id env.clock B (one_of rest) nothing (ids_of rest) code w (λ k p m. cc)
        g,
  )
  after_wave-Ends [] outcomes rest again u w more within g =
      Ends-if Gone (run_budget_reached env.ctx.limits u)
        (ok
          (outcomes, some run_cost_limit, u, cancel_tasks env.clock (ids_of rest) run_cost_limit w))
        (again u w >>= λ r. ok (outcomes ++ r.0, r.1, r.2, r.3))
        (λ _. (
          within,
          Good-cancel env.ctx.run_id env.clock B (one_of rest) nothing (ids_of rest) run_cost_limit
              w (λ k p m. cc) g,
        ))
        (λ _.
          Ends-bind Gone Gone (again u w) (λ r. ok (outcomes ++ r.0, r.1, r.2, r.3))
            (more u w within g) (λ r h. h))

  pub gather-Ends :
      (schedule : ℕ → List ℕ) (wave_size : ℕ)
      → 1 ≤ wave_size
      → (fuel place : ℕ) (ts : List ChildTask) (u : UsageAccumulator) (w : Store) → length ts ≤ fuel
      → There B ts
      → Within env.ctx.limits u
      → Good env.ctx.run_id B (one_of ts) w
      → Ends Gone (gather env schedule wave_size fuel place ts u w)
  unfolding gather
  gather-Ends schedule wave_size positive zero place [] u w enough there within g = (within, g)
  gather-Ends schedule wave_size positive zero place (t ∷ ts) u w enough there within g =
      ground arith
  gather-Ends schedule wave_size positive (suc fuel) place [] u w enough there within g =
      (within, g)
  gather-Ends schedule wave_size positive (suc fuel) place (t ∷ ts) u w enough there within g =
      let wave = map start (take wave_size (t ∷ ts)) in
      let rest = drop wave_size (t ∷ ts) in
      let again = gather env schedule wave_size fuel (suc place) rest in
      let shorter : length rest ≤ fuel = omega (arith, length-drop wave_size (t ∷ ts)) in
      Ends-bind (AllMoved env B (schedule place) (one_of rest) wave) Gone
        (turns env (schedule place) wave u w)
        (λ r.
          let expired = expire env r.0 r.2 in
          after_wave env (stop_codes expired.0) expired.0 rest again (add_outcomes expired.0 r.1)
            expired.1)
        (turns-Ends env B (schedule place) wave (one_of rest) u w (
          start-Steady wave_size (t ∷ ts) there,
          within,
          Good-mono env.ctx.run_id B (one_of (t ∷ ts)) (or_waits wave (one_of rest)) w
              (λ k. split_wave wave_size k (t ∷ ts)) g,
        ))
        (λ r ((steady, within', g'), moved).
          let expired = expire env r.0 r.2 in
          after_wave-Ends (stop_codes expired.0) expired.0 rest again (add_outcomes expired.0 r.1)
            expired.1
            (λ v x.
              gather-Ends schedule wave_size positive fuel (suc place) rest v x shorter
                (There-drop B wave_size (t ∷ ts) there))
            (add_outcomes-Within env.ctx.limits expired.0 r.1 within')
            (expire-Ends env B r.0 (one_of rest) r.2 g'))

  in_loop-bounded :
      (i n : ℕ) (cs : List Child)
      → Steady env B cs
      → attempt_at i cs ≡ some n
      → n ≤ env.settings.max_child_retries + 2
  in_loop-bounded i n [] h m = cc
  in_loop-bounded zero n ((t, in_loop s) ∷ cs) (there, b, h) m = ground (arith, b.in_total)
  in_loop-bounded zero n ((t, timed_out) ∷ cs) h m = cc
  in_loop-bounded zero n ((t, done o) ∷ cs) h m = cc
  in_loop-bounded (suc i) n ((t, in_loop s) ∷ cs) (there, b, h) m = in_loop-bounded i n cs h m
  in_loop-bounded (suc i) n ((t, timed_out) ∷ cs) h m = in_loop-bounded i n cs h m
  in_loop-bounded (suc i) n ((t, done o) ∷ cs) h m = in_loop-bounded i n cs h m

  start-first : (i n : ℕ) (ts : List ChildTask) → attempt_at i (map start ts) ≡ some n → n ≡ 1
  start-first i n [] m = cc
  start-first zero n (t ∷ ts) m = ground arith
  start-first (suc i) n (t ∷ ts) m = start-first i n ts m

  -- In whatever order the rounds of concurrent children come, one that gets as many turns as there are
  -- primary attempts and the one of Firecrawl has left its loop, unless its deadline cut a round off
  -- before, if the tasks and the run are there.
  pub children_end :
      (wave_size : ℕ) (ts : List ChildTask) (schedule : List ℕ) (u : UsageAccumulator) (w : Store)
      (place : ℕ)
      → There B ts
      → Within env.ctx.limits u
      → Good env.ctx.run_id B (one_of ts) w
      → env.settings.max_child_retries + 2 ≤ count (λ i. i == place) schedule
      → Ends
          (λ (cs, v, x). attempt_at place cs ≡ none)
          (turns env schedule (map start (take wave_size ts)) u w)
  children_end wave_size ts schedule u w place there within g turned =
      let wave = map start (take wave_size ts) in
      let rest = one_of (drop wave_size ts) in
      Ends-mono (AllMoved env B schedule rest wave) (λ (cs, v, x). attempt_at place cs ≡ none)
        (turns env schedule wave u w)
        (turns-Ends env B schedule wave rest u w (
          start-Steady wave_size ts there,
          within,
          Good-mono env.ctx.run_id B (one_of ts) (or_waits wave rest) w
              (λ k. split_wave wave_size k ts) g,
        ))
        (λ r ((steady, within', g'), moved). elim (Option-cases (attempt_at place r.0)) [
          | inl gone ↦ gone
          | inr (n, e) ↦
              let (m, f, sum) = moved place n e in
              ground (
                arith,
                start-first place m (take wave_size ts) f,
                in_loop-bounded place n r.0 steady e,
              )
        ])
