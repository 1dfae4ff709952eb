-- ===== src/Orchestrator/Totals.antt =====
-- The accumulated usage of agents/orchestrator.py against plain sums.
use competitor_scout.Prelude.{
  ℕ, ◌+◌, ◌≡◌, refl, sym, ap, ◌∙◌, Bool, true, false, ◌&&◌, List, [], ◌∷◌, ◌++◌, Option, none, some,
  if◌then◌else◌, arith, Bool-cases, inl, inr,
}
use competitor_scout.Orchestrator.Usage.{
  OtariUsage, OtariMetadata, UsageAccumulator, no_usage, add, mark_unsettled, recorded_cost,
  recorded_tool_calls, is_known, plus_known,
}
use competitor_scout.Orchestrator.Planning.{settle}
use competitor_scout.Orchestrator.Children.{ChildOutcome}
use competitor_scout.Orchestrator.Waves.{add_each, add_outcomes}

-- What a request left: its metadata, or nothing that is known.
abbrev pub Request : Type 0
Request = Option OtariMetadata

abbrev pub account : List Request → UsageAccumulator → UsageAccumulator
account [] u = u
account (r ∷ rs) u = account rs (settle r u)

-- The requests of a list of outcomes.
abbrev pub reported : List OtariMetadata → List Request → List Request
reported [] rs = rs
reported (m ∷ ms) rs = some m ∷ reported ms rs

abbrev pub requests_of : List ChildOutcome → List Request
requests_of [] = []
requests_of (o ∷ os) =
    let rest = requests_of os in
    reported o.metadata (if o.unsettled_attempt then none ∷ rest else rest)

-- A sum over what is known.
abbrev pub sum_of : (OtariUsage → ℕ) → List Request → ℕ
sum_of f [] = 0
sum_of f (none ∷ rs) = sum_of f rs
sum_of f (some m ∷ rs) = f m.usage + sum_of f rs

-- A sum that is known if every addend is.
abbrev pub plus : Option ℕ → Option ℕ → Option ℕ
plus none b = none
plus (some a) none = none
plus (some a) (some b) = some (a + b)

abbrev pub known_sum : (OtariUsage → Option ℕ) → List Request → Option ℕ
known_sum f [] = some 0
known_sum f (none ∷ rs) = none
known_sum f (some m ∷ rs) = plus (f m.usage) (known_sum f rs)

-- The same, of at least one request.
abbrev pub known_total : (OtariUsage → Option ℕ) → List Request → Option ℕ
known_total f [] = none
known_total f (r ∷ rs) = known_sum f (r ∷ rs)

abbrev pub cost_of : OtariUsage → Option ℕ
cost_of usage = usage.cost_usd

abbrev pub calls_of : OtariUsage → Option ℕ
calls_of usage = usage.tool_calls

abbrev pub input_of : OtariUsage → ℕ
input_of usage = usage.input_tokens

abbrev pub output_of : OtariUsage → ℕ
output_of usage = usage.output_tokens

abbrev pub view : Bool → ℕ → Option ℕ
view known total = if known then some total else none

pub plus_assoc : (a b c : Option ℕ) → plus (plus a b) c ≡ plus a (plus b c)
plus_assoc none b c = refl
plus_assoc (some a) none c = refl
plus_assoc (some a) (some b) none = refl
plus_assoc (some a) (some b) (some c) = ground arith

pub view-plus :
    (known : Bool) (total : ℕ) (o : Option ℕ)
    → view (is_known known o) (plus_known known o total) ≡ plus (view known total) o
view-plus true total none = refl
view-plus false total none = refl
view-plus true total (some n) = refl
view-plus false total (some n) = refl

account-cost :
    (rs : List Request) (u : UsageAccumulator)
    → let v = account rs u in
      view v.cost_known v.settled_cost_usd
      ≡ plus (view u.cost_known u.settled_cost_usd) (known_sum cost_of rs)
unfolding add mark_unsettled
account-cost [] u = elim (Bool-cases u.cost_known) [ inl e ↦ ground arith | inr e ↦ ground arith ]
account-cost (none ∷ rs) u =
    account-cost rs (mark_unsettled u)
    ∙ elim (Bool-cases u.cost_known) [ inl e ↦ ground arith | inr e ↦ ground arith ]
account-cost (some m ∷ rs) u =
    account-cost rs (add m u)
    ∙ ap (λ o. plus o (known_sum cost_of rs))
        (view-plus u.cost_known u.settled_cost_usd m.usage.cost_usd)
    ∙ plus_assoc (view u.cost_known u.settled_cost_usd) m.usage.cost_usd (known_sum cost_of rs)

account-calls :
    (rs : List Request) (u : UsageAccumulator)
    → let v = account rs u in
      view v.tool_calls_known v.tool_calls
      ≡ plus (view u.tool_calls_known u.tool_calls) (known_sum calls_of rs)
unfolding add mark_unsettled
account-calls [] u = elim (Bool-cases u.tool_calls_known) [
  | inl e ↦ ground arith
  | inr e ↦ ground arith
]
account-calls (none ∷ rs) u =
    account-calls rs (mark_unsettled u)
    ∙ elim (Bool-cases u.tool_calls_known) [ inl e ↦ ground arith | inr e ↦ ground arith ]
account-calls (some m ∷ rs) u =
    account-calls rs (add m u)
    ∙ ap (λ o. plus o (known_sum calls_of rs))
        (view-plus u.tool_calls_known u.tool_calls m.usage.tool_calls)
    ∙ plus_assoc (view u.tool_calls_known u.tool_calls) m.usage.tool_calls (known_sum calls_of rs)

account-tokens :
    (rs : List Request) (u : UsageAccumulator)
    → ((account rs u).input_tokens ≡ u.input_tokens + sum_of input_of rs)
      × ((account rs u).output_tokens ≡ u.output_tokens + sum_of output_of rs)
unfolding add mark_unsettled
account-tokens [] u = (omega arith, omega arith)
account-tokens (none ∷ rs) u = account-tokens rs (mark_unsettled u)
account-tokens (some m ∷ rs) u =
    let (i, o) = account-tokens rs (add m u) in (omega (arith, i), omega (arith, o))

account-has_usage :
    (r : Request) (rs : List Request) (u : UsageAccumulator) → (account (r ∷ rs) u).has_usage ≡ true
unfolding add mark_unsettled
account-has_usage none [] u = refl
account-has_usage (some m) [] u = refl
account-has_usage r (r' ∷ rs) u = account-has_usage r' rs (settle r u)

add_each-account :
    (ms : List OtariMetadata) (rs : List Request) (u : UsageAccumulator)
    → account (reported ms rs) u ≡ account rs (add_each ms u)
add_each-account [] rs u = refl
add_each-account (m ∷ ms) rs u = add_each-account ms rs (add m u)

add_outcomes-account :
    (os : List ChildOutcome) (u : UsageAccumulator) → add_outcomes os u ≡ account (requests_of os) u
add_outcomes-account [] u = refl
add_outcomes-account (o ∷ os) u = elim (Bool-cases o.unsettled_attempt) [
  | inl e ↦ rw e (
      add_outcomes-account os (mark_unsettled (add_each o.metadata u))
      ∙ sym (add_each-account o.metadata (none ∷ requests_of os) u))
  | inr e ↦ rw e (
      add_outcomes-account os (add_each o.metadata u)
      ∙ sym (add_each-account o.metadata (requests_of os) u))
]

account-append :
    (rs ss : List Request) (u : UsageAccumulator) → account (rs ++ ss) u ≡ account ss (account rs u)
account-append [] ss u = refl
account-append (r ∷ rs) ss u = account-append rs ss (settle r u)

recorded_of :
    (known used : Bool) (total : ℕ)
    → used ≡ true
    → (if used && known then some total else none) ≡ view known total
recorded_of known used total h = ground arith

known_total-account :
    (rs : List Request)
    → (recorded_cost (account rs no_usage) ≡ known_total cost_of rs)
      × (recorded_tool_calls (account rs no_usage) ≡ known_total calls_of rs)
known_total-account [] = (refl, refl)
known_total-account (r ∷ rs) =
    let v = account (r ∷ rs) no_usage in
    let used = account-has_usage r rs no_usage in
    (
      recorded_of v.cost_known v.has_usage v.settled_cost_usd used
          ∙ account-cost (r ∷ rs) no_usage
          ∙ plus_zero (known_sum cost_of (r ∷ rs)),
      recorded_of v.tool_calls_known v.has_usage v.tool_calls used
          ∙ account-calls (r ∷ rs) no_usage
          ∙ plus_zero (known_sum calls_of (r ∷ rs)),
    )
  where
    plus_zero : (o : Option ℕ) → plus (some 0) o ≡ o
    plus_zero none = refl
    plus_zero (some n) = ground arith

-- The usage recorded after the requests of the planner and the outcomes of children is that of plain
-- sums: the tokens of all that reported, and the cost and the tool calls of all, each of which is
-- known only if there was a request and every one of them reported it.
pub usage_totals :
    (planner : List Request) (outcomes : List ChildOutcome)
    → let all_requests = planner ++ requests_of outcomes in
      let u = add_outcomes outcomes (account planner no_usage) in
      (u.input_tokens ≡ sum_of input_of all_requests)
      × (u.output_tokens ≡ sum_of output_of all_requests)
      × (recorded_cost u ≡ known_total cost_of all_requests)
      × (recorded_tool_calls u ≡ known_total calls_of all_requests)
usage_totals planner outcomes =
    let all_requests = planner ++ requests_of outcomes in
    let same : add_outcomes outcomes (account planner no_usage) ≡ account all_requests no_usage =
      add_outcomes-account outcomes (account planner no_usage)
      ∙ sym (account-append planner (requests_of outcomes) no_usage) in
    let (i, o) = account-tokens all_requests no_usage in
    let (c, t) = known_total-account all_requests in
    (
      ap (λ v. v.input_tokens) same ∙ i ∙ omega arith,
      ap (λ v. v.output_tokens) same ∙ o ∙ omega arith,
      ap recorded_cost same ∙ c,
      ap recorded_tool_calls same ∙ t,
    )
