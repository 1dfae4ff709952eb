-- ===== src/Runs/ModelTotals.antt =====
-- The usage of a run by model, in services/runs.py, against plain sums over its usage events.
use competitor_scout.Prelude.{
  ℕ, ◌+◌, ◌≡◌, refl, sym, ap, ◌∙◌, Bool, true, false, ◌||◌, List, [], ◌∷◌, Option, none, some,
  if◌then◌else◌, ok, select, arith, Bool-cases, Option-cases, inl, inr, is_some,
}
use mathlib.Core.Path.{subst}
use competitor_scout.Prelude.Texts.{Text, text_eq, text_eq→eq, text_eq_refl, mem_text}
use competitor_scout.Paging.{Place, insert, order_by, after}
use competitor_scout.Runs.{ScoutRun}
use competitor_scout.Orchestrator.Store.{UsageEvent}
use competitor_scout.Orchestrator.Totals.{plus, plus_assoc, view-plus}
use competitor_scout.Runs.ModelUsage.{
  UsageGroup, empty_group, add_event, ModelUsageRead, read_group, Groups, lookup_group, add_to,
  group_events, insert_name, sorted_names, read_names, RunUsageRead, event_of_run, run_usage,
}

-- The usage of one event.
abbrev pub single : Text → UsageEvent → ModelUsageRead
single model e = record {
  model = model;
  input_tokens = e.input_tokens;
  output_tokens = e.output_tokens;
  tool_calls = e.tool_calls;
  settled_cost_usd = e.settled_cost_usd;
}

abbrev pub joined : ModelUsageRead → ModelUsageRead → ModelUsageRead
joined a b = record {
  model = a.model;
  input_tokens = a.input_tokens + b.input_tokens;
  output_tokens = a.output_tokens + b.output_tokens;
  tool_calls = plus a.tool_calls b.tool_calls;
  settled_cost_usd = plus a.settled_cost_usd b.settled_cost_usd;
}

abbrev pub join : ModelUsageRead → Option ModelUsageRead → Option ModelUsageRead
join a none = some a
join a (some b) = some (joined a b)

-- The sums over the events of a model, if it has any.
unfoldable pub used : Text → List UsageEvent → Option ModelUsageRead
used model [] = none
used model (e ∷ es) =
    let rest = used model es in if text_eq e.model model then join (single model e) rest else rest

-- What is read of a model.
abbrev pub find_model : Text → List ModelUsageRead → Option ModelUsageRead
find_model model [] = none
find_model model (m ∷ ms) =
    let rest = find_model model ms in if text_eq m.model model then some m else rest

plus_comm : (a b : Option ℕ) → plus a b ≡ plus b a
plus_comm none none = refl
plus_comm none (some b) = refl
plus_comm (some a) none = refl
plus_comm (some a) (some b) = ground arith

plus_zero : (o : Option ℕ) → plus (some 0) o ≡ o
plus_zero none = refl
plus_zero (some n) = ground arith

joined_comm : (a b : ModelUsageRead) → a.model ≡ b.model → joined a b ≡ joined b a
joined_comm a b e =
    ground
      (arith, plus_comm a.tool_calls b.tool_calls, plus_comm a.settled_cost_usd b.settled_cost_usd)

joined_assoc : (a b c : ModelUsageRead) → joined (joined a b) c ≡ joined a (joined b c)
joined_assoc a b c = ground (
  arith,
  plus_assoc a.tool_calls b.tool_calls c.tool_calls,
  plus_assoc a.settled_cost_usd b.settled_cost_usd c.settled_cost_usd,
)

join-joined :
    (a b : ModelUsageRead) (o : Option ModelUsageRead) → join (joined a b) o ≡ join a (join b o)
join-joined a b none = refl
join-joined a b (some c) = ap some (joined_assoc a b c)

join_comm :
    (a b : ModelUsageRead) (o : Option ModelUsageRead)
    → a.model ≡ b.model
    → join a (join b o) ≡ join b (join a o)
join_comm a b o e =
    sym (join-joined a b o) ∙ ap (λ x. join x o) (joined_comm a b e) ∙ join-joined b a o

module _ (k : Text) where
  module _ (place : UsageEvent → Place) where
    used-insert :
        (e : UsageEvent) (es : List UsageEvent) → used k (insert after place e es) ≡ used k (e ∷ es)
    unfolding insert used
    used-insert e [] = refl
    used-insert e (d ∷ ds) = elim (Bool-cases (after (place e) (place d))) [
      | inl h ↦ rw h refl
      | inr h ↦
          ground (arith, used-insert e ds, join_comm (single k d) (single k e) (used k ds) refl)
    ]

    used-order_by : (es : List UsageEvent) → used k (order_by after place es) ≡ used k es
    unfolding order_by used
    used-order_by [] = refl
    used-order_by (e ∷ es) =
        used-insert e (order_by after place es) ∙ ground (arith, used-order_by es)

  read-add_event :
      (e : UsageEvent) (g : UsageGroup)
      → read_group k (add_event e g) ≡ joined (read_group k g) (single k e)
  read-add_event e g = ground (
    arith,
    view-plus g.tool_calls_known g.tool_calls e.tool_calls,
    view-plus g.cost_known g.settled_cost_usd e.settled_cost_usd,
  )

  read_group-empty : (e : UsageEvent) → read_group k (add_event e empty_group) ≡ single k e
  read_group-empty e =
      read-add_event e empty_group
      ∙ ground (arith, plus_zero e.tool_calls, plus_zero e.settled_cost_usd)

  -- What a reader sees of the group of the model, if there is one.
  abbrev read_option : Option UsageGroup → Option ModelUsageRead
  read_option none = none
  read_option (some g) = some (read_group k g)

  abbrev seen : Groups → Option ModelUsageRead
  seen groups = read_option (lookup_group k groups)

  -- What was there, and then more.
  abbrev then_more : Option ModelUsageRead → Option ModelUsageRead → Option ModelUsageRead
  then_more none o = o
  then_more (some a) o = join a o

  then_more-if :
      (b : Bool) (o : Option ModelUsageRead) (s : ModelUsageRead) (r : Option ModelUsageRead)
      → then_more (if b then then_more o (some s) else o) r
        ≡ then_more o (if b then join s r else r)
  then_more-if true none s r = refl
  then_more-if true (some a) s r = join-joined a s r
  then_more-if false o s r = refl

  seen-add_to :
      (e : UsageEvent) (groups : Groups)
      → seen (add_to e groups)
        ≡ (if text_eq e.model k then then_more (seen groups) (some (single k e)) else seen groups)
  unfolding add_to lookup_group
  seen-add_to e [] = elim (Bool-cases (text_eq e.model k)) [
    | inl h ↦ rw h (ap some (read_group-empty e))
    | inr h ↦ rw h refl
  ]
  seen-add_to e ((name, g) ∷ groups) = elim (Bool-cases (text_eq name e.model)) [
    | inl h ↦
        let same : text_eq name k ≡ text_eq e.model k =
          ap (λ n. text_eq n k) (text_eq→eq name e.model h) in
        elim (Bool-cases (text_eq e.model k)) [
          | inl m ↦ rw (h, same, m) (ap some (read-add_event e g))
          | inr m ↦ rw (h, same, m) refl
        ]
    | inr h ↦ elim (Bool-cases (text_eq name k)) [
      | inl m ↦
          let other : text_eq e.model k ≡ false = elim (Bool-cases (text_eq e.model k)) [
            | inl n ↦
                let named = text_eq→eq name k m in
                let modelled = text_eq→eq e.model k n in let reflexive = text_eq_refl k in cc
            | inr n ↦ n
          ] in
          rw (h, m, other) refl
      | inr m ↦ rw (h, m) (seen-add_to e groups)
    ]
  ]

  seen-group_events :
      (es : List UsageEvent) (groups : Groups)
      → seen (group_events es groups) ≡ then_more (seen groups) (used k es)
  unfolding group_events used
  seen-group_events [] groups = elim (Option-cases (lookup_group k groups)) [
    | inl h ↦ rw h refl
    | inr (g, h) ↦ rw h refl
  ]
  seen-group_events (e ∷ es) groups =
      seen-group_events es (add_to e groups)
      ∙ ap (λ o. then_more o (used k es)) (seen-add_to e groups)
      ∙ then_more-if (text_eq e.model k) (seen groups) (single k e) (used k es)

  mem_text-insert_name :
      (s : Text) (ts : List Text) → mem_text k (insert_name s ts) ≡ (text_eq s k || mem_text k ts)
  unfolding insert_name
  mem_text-insert_name s [] = refl
  mem_text-insert_name s (t ∷ ts) = ground (arith, mem_text-insert_name s ts)

  mem_text-sorted_names :
      (groups : Groups) → mem_text k (sorted_names groups) ≡ is_some (lookup_group k groups)
  unfolding sorted_names lookup_group
  mem_text-sorted_names [] = refl
  mem_text-sorted_names ((name, g) ∷ groups) =
      mem_text-insert_name name (sorted_names groups) ∙ ground (arith, mem_text-sorted_names groups)

  find_model-first :
      (groups : Groups) (name : Text) (g : UsageGroup) (names : List Text)
      (ms : List ModelUsageRead)
      → lookup_group name groups ≡ some g
      → find_model k ms ≡ (if mem_text k names then seen groups else none)
      → find_model k (read_group name g ∷ ms)
        ≡ (if mem_text k (name ∷ names) then seen groups else none)
  find_model-first groups name g names ms h rest = elim (Bool-cases (text_eq name k)) [
    | inl m ↦
        let named = text_eq→eq name k m in
        let found : lookup_group k groups ≡ some g =
          subst (λ n. lookup_group n groups ≡ some g) named h in
        rw (m, found) (ap (λ n. some (read_group n g)) named)
    | inr m ↦ rw m rest
  ]

  find_model-seen :
      (groups : Groups)
      → (if is_some (lookup_group k groups) then seen groups else none) ≡ seen groups
  find_model-seen groups = elim (Option-cases (lookup_group k groups)) [
    | inl h ↦ rw h refl
    | inr (g, h) ↦ rw h refl
  ]

module _ (groups : Groups) where
  -- The groups of the names are read, without a KeyError.
  abbrev FoundIn : List Text → List ModelUsageRead → Type 0
  FoundIn names ms =
      (read_names groups names ≡ ok ms)
      × ((k : Text) → find_model k ms ≡ (if mem_text k names then seen k groups else none))

  read_names_total :
      (names : List Text)
      → ((k : Text) → mem_text k names ≡ true → is_some (lookup_group k groups) ≡ true)
      → (ms : List ModelUsageRead) × FoundIn names ms
  unfolding read_names
  read_names_total [] there = ([], (refl, λ k. refl))
  read_names_total (name ∷ names) there =
      let (ms, (e, finds)) = read_names_total names (λ k m. there k (ground (arith, m))) in
      let here = there name (ground (arith, text_eq_refl name)) in
      elim (Option-cases (lookup_group name groups)) [
        | inl h ↦ cc
        | inr (g, h) ↦ (
          read_group name g ∷ ms,
          (rw (h, e) refl, λ k. find_model-first k groups name g names ms h (finds k)),
        )
      ]

abbrev usage_of : ScoutRun → List ModelUsageRead → RunUsageRead
usage_of r ms = record {
  run_id = r.id;
  input_tokens = r.input_tokens;
  output_tokens = r.output_tokens;
  tool_calls = r.tool_calls;
  settled_cost_usd = r.settled_cost_usd;
  models = ms;
}

-- The read of the usage of a run returns, and what it says of a model is the sums over the usage
-- events of the run with the model: of the tokens, and of the tool calls and the costs, which are
-- unknown if those of one event are. It says nothing of a model without an event of the run.
pub run_usage-used :
    (id : UsageEvent → ℕ) (r : ScoutRun) (table : List UsageEvent)
    → (usage : RunUsageRead) × (run_usage id r table ≡ ok usage)
      × ((k : Text) → find_model k usage.models ≡ used k (select (event_of_run r) table))
unfolding run_usage lookup_group
run_usage-used id r table =
    let place : UsageEvent → Place = λ e. (e.occurred_at, id e) in
    let rows = select (event_of_run r) table in
    let groups = group_events (order_by after place rows) [] in
    let names = sorted_names groups in
    let (ms, (e, finds)) =
      read_names_total groups names (λ k m. sym (mem_text-sorted_names k groups) ∙ m) in
    (
      usage_of r ms,
      rw e refl,
      λ k.
          finds k
          ∙ ap (λ b. if b then seen k groups else none) (mem_text-sorted_names k groups)
          ∙ find_model-seen k groups
          ∙ seen-group_events k (order_by after place rows) []
          ∙ used-order_by k place rows,
    )
