-- ===== src/Orchestrator/Interleavings.antt =====
-- The waves of agents/orchestrator.py close every child task, whatever the order of the rounds.
use competitor_scout.Prelude.{
  ℕ, zero, suc, ◌+◌, ◌≡◌, refl, Bool, true, false, ◌||◌, List, [], ◌∷◌, Option, none, some,
  if◌then◌else◌, ◌==◌, ==_refl, arith, Bool-cases, inl, inr, ok, ◌>>=◌, Ends, Ends-bind, Ends-mono,
  ap, ==_iff, count,
}
use competitor_scout.Json.{}
use competitor_scout.Orchestrator.Usage.{UsageAccumulator}
use competitor_scout.Orchestrator.Store.{Store, fail_task}
use competitor_scout.Orchestrator.Planning.{agent_task_failed}
use competitor_scout.Orchestrator.ChildLoop.{
  ChildState, Progress, in_loop, timed_out, done, ChildTask, ChildEnv,
}
use competitor_scout.Orchestrator.Attempts.{attempt_child}
use competitor_scout.Orchestrator.Waves.{Child, child_timeout}
use competitor_scout.Orchestrator.Gathering.{turn, turns, expire}
use competitor_scout.Orchestrator.Invariant.{Good, Good-mono, Good-fail}
use competitor_scout.Orchestrator.Budget.{Within}
use competitor_scout.Orchestrator.Turns.{Bounded, AfterRound, attempt_child-Ends}

-- The child task with an id has not returned.
abbrev pub waits : List Child → ℕ → Bool
waits [] k = false
waits ((t, in_loop s) ∷ cs) k = t.id == k || waits cs k
waits ((t, timed_out) ∷ cs) k = t.id == k || waits cs k
waits ((t, done o) ∷ cs) k = waits cs k

-- The round of the child at a place, if it is in its loop.
abbrev pub attempt_at : ℕ → List Child → Option ℕ
attempt_at i [] = none
attempt_at zero ((t, in_loop s) ∷ cs) = some s.attempt
attempt_at zero ((t, timed_out) ∷ cs) = none
attempt_at zero ((t, done o) ∷ cs) = none
attempt_at (suc i) (c ∷ cs) = attempt_at i cs

abbrev pub or_waits : List Child → (ℕ → Bool) → ℕ → Bool
or_waits cs Q k = waits cs k || Q k

module _ (env : ChildEnv) (B : ℕ → Bool) where
  -- Every child in its loop is there and within its attempts.
  abbrev pub Steady : List Child → Type 0
  Steady [] = Unit
  Steady ((t, in_loop s) ∷ cs) = (B t.id ≡ true) × Bounded env t s × Steady cs
  Steady ((t, timed_out) ∷ cs) = Steady cs
  Steady ((t, done o) ∷ cs) = Steady cs

  abbrev pub Between : (ℕ → Bool) → List Child × UsageAccumulator × Store → Type 0
  Between Q (cs, u, w) =
      Steady cs × Within env.ctx.limits u × Good env.ctx.run_id B (or_waits cs Q) w

  abbrev After :
      ChildTask → List Child → (ℕ → Bool) → ℕ → Progress × UsageAccumulator × Store → Type 0
  After t cs Q n = AfterRound env B (λ k. t.id == k || waits cs k || Q k) t n

  -- A child that is in its loop after a turn of the place `i` was there before, and only the turn
  -- took it to its next round.
  abbrev pub Turned : ℕ → List Child → List Child → Type 0
  Turned i cs cs' =
      (j n : ℕ)
      → attempt_at j cs' ≡ some n
      → (m : ℕ) × (attempt_at j cs ≡ some m) × (n ≡ m + (if i == j then 1 else 0))

  abbrev pub Moved : ℕ → (ℕ → Bool) → List Child → List Child × UsageAccumulator × Store → Type 0
  Moved i Q cs r = Between Q r × Turned i cs r.0

  Moved-round :
      (t : ChildTask) (s : ChildState) (cs : List Child) (Q : ℕ → Bool)
      → B t.id ≡ true
      → Steady cs
      → (r : Progress × UsageAccumulator × Store) → After t cs Q s.attempt r
      → Moved zero Q ((t, in_loop s) ∷ cs) ((t, r.0) ∷ cs, r.1, r.2)
  Moved-round t s cs Q there steady (in_loop s', u, w) (within, g, b, e) = (
    (
      (there, b, steady),
      within,
      Good-mono env.ctx.run_id B _ (or_waits ((t, in_loop s') ∷ cs) Q) w (λ k h. ground arith) g,
    ),
    go,
  )
    where
      go : Turned zero ((t, in_loop s) ∷ cs) ((t, in_loop s') ∷ cs)
      go zero n h = (s.attempt, refl, ground arith)
      go (suc j) n h = (n, h, ground arith)
  Moved-round t s cs Q there steady (timed_out, u, w) (within, g) = (
    (
      steady,
      within,
      Good-mono env.ctx.run_id B _ (or_waits ((t, timed_out) ∷ cs) Q) w (λ k h. ground arith) g,
    ),
    go,
  )
    where
      go : Turned zero ((t, in_loop s) ∷ cs) ((t, timed_out) ∷ cs)
      go zero n h = cc
      go (suc j) n h = (n, h, ground arith)
  Moved-round t s cs Q there steady (done o, u, w) (within, g) = (
    (
      steady,
      within,
      Good-mono env.ctx.run_id B _ (or_waits ((t, done o) ∷ cs) Q) w (λ k h. ground arith) g,
    ),
    go,
  )
    where
      go : Turned zero ((t, in_loop s) ∷ cs) ((t, done o) ∷ cs)
      go zero n h = cc
      go (suc j) n h = (n, h, ground arith)

  Turned-same : (i : ℕ) (cs : List Child) → attempt_at i cs ≡ none → Turned i cs cs
  Turned-same i cs h j n m = elim (Bool-cases (i == j)) [
    | inl e ↦ ground (arith, ap (λ k. attempt_at k cs) ((==_iff i j).0 e))
    | inr e ↦ (n, m, ground arith)
  ]

  Turned-suc :
      (i : ℕ) (c : Child) (cs cs' : List Child)
      → Turned i cs cs'
      → Turned (suc i) (c ∷ cs) (c ∷ cs')
  Turned-suc i (t, in_loop s) cs cs' h zero n m = (n, m, ground arith)
  Turned-suc i (t, timed_out) cs cs' h zero n m = cc
  Turned-suc i (t, done o) cs cs' h zero n m = cc
  Turned-suc i c cs cs' h (suc j) n m = let (k, e, f) = h j n m in (k, e, ground arith)

  -- A turn of another child, after one that has not returned.
  open_turn :
      (i : ℕ) (t : ChildTask) (p : Progress) (cs : List Child) (Q : ℕ → Bool) (u : UsageAccumulator)
      (w : Store)
      → ((cs' : List Child) → Steady cs' → Steady ((t, p) ∷ cs'))
      → ((cs' : List Child) (k : ℕ) → waits ((t, p) ∷ cs') k ≡ (t.id == k || waits cs' k))
      → Within env.ctx.limits u
      → Good env.ctx.run_id B (or_waits ((t, p) ∷ cs) Q) w
      → ((Q' : ℕ → Bool)
          → Good env.ctx.run_id B (or_waits cs Q') w
          → Ends (Moved i Q' cs) (turn env i cs u w))
      → Ends
          (Moved (suc i) Q ((t, p) ∷ cs))
          (turn env i cs u w >>= λ r. ok ((t, p) ∷ r.0, r.1, r.2))
  open_turn i t p cs Q u w steady waiting within g tail =
      let Q' : ℕ → Bool = λ k. t.id == k || Q k in
      Ends-bind (Moved i Q' cs) (Moved (suc i) Q ((t, p) ∷ cs)) (turn env i cs u w)
        (λ r. ok ((t, p) ∷ r.0, r.1, r.2))
        (tail Q'
          (Good-mono env.ctx.run_id B _ (or_waits cs Q') w (λ k h. ground (arith, waiting cs k)) g))
        (λ r ((steady', within', g'), moved). (
          (
            steady r.0 steady',
            within',
            Good-mono env.ctx.run_id B _ (or_waits ((t, p) ∷ r.0) Q) r.2
                (λ k h. ground (arith, waiting r.0 k)) g',
          ),
          Turned-suc i (t, p) cs r.0 moved,
        ))

  pub turn-Ends :
      (i : ℕ) (cs : List Child) (Q : ℕ → Bool) (u : UsageAccumulator) (w : Store)
      → Between Q (cs, u, w)
      → Ends (Moved i Q cs) (turn env i cs u w)
  unfolding turn
  turn-Ends i [] Q u w h = (h, λ j n m. cc)
  turn-Ends zero ((t, done o) ∷ cs) Q u w h = (h, Turned-same zero ((t, done o) ∷ cs) refl)
  turn-Ends zero ((t, timed_out) ∷ cs) Q u w h = (h, Turned-same zero ((t, timed_out) ∷ cs) refl)
  turn-Ends zero ((t, in_loop s) ∷ cs) Q u w ((there, b, steady), within, g) =
      Ends-bind (After t cs Q s.attempt) (Moved zero Q ((t, in_loop s) ∷ cs))
        (attempt_child env t s u w) (λ r. ok ((t, r.0) ∷ cs, r.1, r.2))
        (attempt_child-Ends env B (λ k. t.id == k || waits cs k || Q k) t there
          (ground (arith, ==_refl t.id)) s u w b
          (
            within,
            Good-mono env.ctx.run_id B _ (λ k. t.id == k || waits cs k || Q k) w
                (λ k h. ground arith) g,
          ))
        (Moved-round t s cs Q there steady)
  turn-Ends (suc i) ((t, done o) ∷ cs) Q u w h =
      Ends-bind (Moved i Q cs) (Moved (suc i) Q ((t, done o) ∷ cs)) (turn env i cs u w)
        (λ r. ok ((t, done o) ∷ r.0, r.1, r.2)) (turn-Ends i cs Q u w h)
        (λ r (h, moved). (h, Turned-suc i (t, done o) cs r.0 moved))
  turn-Ends (suc i) ((t, in_loop s) ∷ cs) Q u w ((there, b, steady), within, g) =
      open_turn i t (in_loop s) cs Q u w (λ cs' h. (there, b, h)) (λ cs' k. refl) within g
        (λ Q' h. turn-Ends i cs Q' u w (steady, within, h))
  turn-Ends (suc i) ((t, timed_out) ∷ cs) Q u w (steady, within, g) =
      open_turn i t timed_out cs Q u w (λ cs' h. h) (λ cs' k. refl) within g
        (λ Q' h. turn-Ends i cs Q' u w (steady, within, h))

  -- The same for a schedule.
  abbrev pub AllMoved :
      List ℕ → (ℕ → Bool) → List Child → List Child × UsageAccumulator × Store → Type 0
  AllMoved is Q cs r =
      Between Q r
      × ((j n : ℕ)
          → attempt_at j r.0 ≡ some n
          → (m : ℕ) × (attempt_at j cs ≡ some m) × (n ≡ m + count (λ i. i == j) is))

  pub turns-Ends :
      (is : List ℕ) (cs : List Child) (Q : ℕ → Bool) (u : UsageAccumulator) (w : Store)
      → Between Q (cs, u, w)
      → Ends (AllMoved is Q cs) (turns env is cs u w)
  unfolding turns
  turns-Ends [] cs Q u w h = (h, λ j n m. (n, m, omega arith))
  turns-Ends (i ∷ is) cs Q u w h =
      Ends-bind (Moved i Q cs) (AllMoved (i ∷ is) Q cs) (turn env i cs u w)
        (λ r. turns env is r.0 r.1 r.2) (turn-Ends i cs Q u w h)
        (λ r (h', moved).
          Ends-mono (AllMoved is Q r.0) (AllMoved (i ∷ is) Q cs) (turns env is r.0 r.1 r.2)
            (turns-Ends is r.0 Q r.1 r.2 h')
            (λ s (h'', all_moved). (
              h'',
              λ j n m.
                  let (k, e, f) = all_moved j n m in
                  let (l, e', f') = moved j k e in (l, e', ground arith),
            )))

  failed-Good :
      (t : ChildTask) (cs : List Child) (Q : ℕ → Bool) (w : Store)
      → Good env.ctx.run_id B (λ k. (t.id == k || waits cs k) || Q k) w
      → Good env.ctx.run_id B (or_waits cs Q) (
          fail_task env.clock env.ctx.user_id env.ctx.run_id t.id child_timeout none false
            agent_task_failed w)
  failed-Good t cs Q w g =
      let failed =
        fail_task env.clock env.ctx.user_id env.ctx.run_id t.id child_timeout none false
          agent_task_failed w in
      Good-mono env.ctx.run_id B _ (or_waits cs Q) failed (λ k h. ground arith)
        (Good-fail env.ctx.run_id env.clock B _ env.ctx.user_id env.ctx.run_id t.id false w
          child_timeout agent_task_failed none g)

  pub expire-Ends :
      (cs : List Child) (Q : ℕ → Bool) (w : Store)
      → Good env.ctx.run_id B (or_waits cs Q) w
      → Good env.ctx.run_id B Q (expire env cs w).1
  unfolding expire
  expire-Ends [] Q w g = g
  expire-Ends ((t, done o) ∷ cs) Q w g = expire-Ends cs Q w g
  expire-Ends ((t, in_loop s) ∷ cs) Q w g = expire-Ends cs Q _ (failed-Good t cs Q w g)
  expire-Ends ((t, timed_out) ∷ cs) Q w g = expire-Ends cs Q _ (failed-Good t cs Q w g)
