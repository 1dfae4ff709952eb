-- ===== src/Orchestrator/Budget.antt =====
-- Which calls of agents/orchestrator.py may change the estimates that are reserved, and how far.
use competitor_scout.Prelude.{
  ℕ, ◌+◌, ◌≤◌, Bool, true, false, List, [], ◌∷◌, Option, none, some, if◌then◌else◌, arith,
  Bool-cases, inl, inr,
}
use competitor_scout.Orchestrator.Usage.{
  UsageAccumulator, Ceilings, OtariMetadata, CostEstimator, CostEstimateRole, add, mark_unsettled,
  reserve, exceeds, request_would_exceed_cost_ceiling,
}
use competitor_scout.Orchestrator.Planning.{settle}
use competitor_scout.Orchestrator.Children.{ChildOutcome}
use competitor_scout.Orchestrator.Waves.{add_each, add_outcomes}

-- The estimates that are reserved stay below both ceilings.
pub record Within (limits : Ceilings) (u : UsageAccumulator) : Type 0 where
  pub in_run : u.estimated_cost_usd ≤ limits.max_run_cost_usd
  pub in_day : limits.initial_daily_cost + u.estimated_cost_usd ≤ limits.max_user_daily_cost_usd

module _ (limits : Ceilings) where
  reserve-Within :
      (estimate : Option ℕ) (u : UsageAccumulator)
      → Within limits u
      → Within limits (reserve limits estimate u).1
  reserve-Within none u h = h
  reserve-Within (some estimate) u h =
      elim (Bool-cases (exceeds limits u.estimated_cost_usd estimate)) [
        | inl e ↦ record { in_run = ground (arith, h.in_run); in_day = ground (arith, h.in_day) }
        | inr e ↦ record { in_run = ground arith; in_day = ground arith }
      ]

  pub request-Within :
      (estimator : Option CostEstimator) (role : CostEstimateRole) (u : UsageAccumulator)
      → Within limits u
      → Within limits (request_would_exceed_cost_ceiling limits estimator role u).1
  unfolding request_would_exceed_cost_ceiling
  request-Within none role u h = h
  request-Within (some estimator) role u h = reserve-Within (estimator role) u h

  pub add-Within :
      (metadata : OtariMetadata) (u : UsageAccumulator)
      → Within limits u
      → Within limits (add metadata u)
  unfolding add
  add-Within metadata u h = record { in_run = h.in_run; in_day = h.in_day }

  pub mark_unsettled-Within :
      (u : UsageAccumulator) → Within limits u → Within limits (mark_unsettled u)
  unfolding mark_unsettled
  mark_unsettled-Within u h = record { in_run = h.in_run; in_day = h.in_day }

  pub settle-Within :
      (metadata : Option OtariMetadata) (u : UsageAccumulator)
      → Within limits u
      → Within limits (settle metadata u)
  settle-Within none u h = mark_unsettled-Within u h
  settle-Within (some m) u h = add-Within m u h

  add_each-Within :
      (ms : List OtariMetadata) (u : UsageAccumulator)
      → Within limits u
      → Within limits (add_each ms u)
  add_each-Within [] u h = h
  add_each-Within (m ∷ ms) u h = add_each-Within ms (add m u) (add-Within m u h)

  marked-Within :
      (b : Bool) (u : UsageAccumulator)
      → Within limits u
      → Within limits (if b then mark_unsettled u else u)
  marked-Within true u h = mark_unsettled-Within u h
  marked-Within false u h = h

  pub add_outcomes-Within :
      (os : List ChildOutcome) (u : UsageAccumulator)
      → Within limits u
      → Within limits (add_outcomes os u)
  add_outcomes-Within [] u h = h
  add_outcomes-Within (o ∷ os) u h =
      add_outcomes-Within os
        (if o.unsettled_attempt
          then mark_unsettled (add_each o.metadata u)
          else add_each o.metadata u)
        (marked-Within o.unsettled_attempt (add_each o.metadata u) (add_each-Within o.metadata u h))
