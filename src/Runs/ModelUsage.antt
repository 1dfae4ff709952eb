-- ===== src/Runs/ModelUsage.antt =====
-- `_UsageGroup` and `run_usage` of services/runs.py: the usage of a run by model. The ids of usage
-- events, by which ORDER BY settles ties, are an argument.
use competitor_scout.Prelude.{
  ℕ, ◌+◌, Bool, true, false, List, [], ◌∷◌, Option, none, some, ◌==◌, ltb, if◌then◌else◌, ◌>>=◌,
  Result, ok, err, select,
}
use competitor_scout.Prelude.Texts.{Text, text_eq}
use competitor_scout.Paging.{order_by, after}
use competitor_scout.Runs.{ScoutRun}
use competitor_scout.Orchestrator.Store.{UsageEvent}
use competitor_scout.Orchestrator.Usage.{is_known, plus_known}

pub record UsageGroup : Type 0 where
  pub input_tokens : ℕ
  pub output_tokens : ℕ
  pub tool_calls : ℕ
  pub settled_cost_usd : ℕ
  pub tool_calls_known : Bool
  pub cost_known : Bool

-- `_UsageGroup()`.
abbrev pub empty_group : UsageGroup
empty_group = record {
  input_tokens = 0;
  output_tokens = 0;
  tool_calls = 0;
  settled_cost_usd = 0;
  tool_calls_known = true;
  cost_known = true;
}

abbrev pub add_event : UsageEvent → UsageGroup → UsageGroup
add_event e g = record {
  input_tokens = g.input_tokens + e.input_tokens;
  output_tokens = g.output_tokens + e.output_tokens;
  tool_calls = plus_known g.tool_calls_known e.tool_calls g.tool_calls;
  settled_cost_usd = plus_known g.cost_known e.settled_cost_usd g.settled_cost_usd;
  tool_calls_known = is_known g.tool_calls_known e.tool_calls;
  cost_known = is_known g.cost_known e.settled_cost_usd;
}

pub record ModelUsageRead : Type 0 where
  pub model : Text
  pub input_tokens : ℕ
  pub output_tokens : ℕ
  pub tool_calls : Option ℕ
  pub settled_cost_usd : Option ℕ

abbrev pub read_group : Text → UsageGroup → ModelUsageRead
read_group model g = record {
  model = model;
  input_tokens = g.input_tokens;
  output_tokens = g.output_tokens;
  tool_calls = if g.tool_calls_known then some g.tool_calls else none;
  settled_cost_usd = if g.cost_known then some g.settled_cost_usd else none;
}

-- The dict of groups, in the order in which its keys were added.
abbrev pub Groups : Type 0
Groups = List (Text × UsageGroup)

unfoldable pub lookup_group : Text → Groups → Option UsageGroup
lookup_group model [] = none
lookup_group model ((name, g) ∷ groups) =
    let rest = lookup_group model groups in if text_eq name model then some g else rest

-- `groups.setdefault(event.model, _UsageGroup()).add(event)`.
unfoldable pub add_to : UsageEvent → Groups → Groups
add_to e [] = (e.model, add_event e empty_group) ∷ []
add_to e ((name, g) ∷ groups) =
    let rest = add_to e groups in
    if text_eq name e.model then (name, add_event e g) ∷ groups else (name, g) ∷ rest

unfoldable pub group_events : List UsageEvent → Groups → Groups
group_events [] groups = groups
group_events (e ∷ es) groups = group_events es (add_to e groups)

-- `<` of two texts.
abbrev pub text_less : Text → Text → Bool
text_less [] [] = false
text_less [] (d ∷ t) = true
text_less (c ∷ s) [] = false
text_less (c ∷ s) (d ∷ t) = let rest = text_less s t in if c == d then rest else ltb c d

unfoldable pub insert_name : Text → List Text → List Text
insert_name s [] = s ∷ []
insert_name s (t ∷ ts) =
    let rest = insert_name s ts in if text_less t s then t ∷ rest else s ∷ t ∷ ts

-- `sorted(groups)`.
unfoldable pub sorted_names : Groups → List Text
sorted_names [] = []
sorted_names ((name, g) ∷ groups) = insert_name name (sorted_names groups)

-- `groups[model]`.
pub data UsageError : Type 0 where
  key_error : UsageError

abbrev pub group_at : Option UsageGroup → Result UsageError UsageGroup
group_at none = err key_error
group_at (some g) = ok g

unfoldable pub read_names : Groups → List Text → Result UsageError (List ModelUsageRead)
read_names groups [] = ok []
read_names groups (name ∷ names) = do
  g ← group_at (lookup_group name groups)
  rest ← read_names groups names
  ok (read_group name g ∷ rest)

pub record RunUsageRead : Type 0 where
  pub run_id : ℕ
  pub input_tokens : ℕ
  pub output_tokens : ℕ
  pub tool_calls : Option ℕ
  pub settled_cost_usd : Option ℕ
  pub models : List ModelUsageRead

abbrev pub event_of_run : ScoutRun → UsageEvent → Bool
event_of_run r e = e.scout_run_id == r.id

unfoldable pub run_usage :
    (UsageEvent → ℕ) → ScoutRun → List UsageEvent → Result UsageError RunUsageRead
run_usage id r table = do
  let events = order_by after (λ e. (e.occurred_at, id e)) (select (event_of_run r) table)
  let groups = group_events events []
  models ← read_names groups (sorted_names groups)
  ok (record {
    run_id = r.id;
    input_tokens = r.input_tokens;
    output_tokens = r.output_tokens;
    tool_calls = r.tool_calls;
    settled_cost_usd = r.settled_cost_usd;
    models = models;
  })
