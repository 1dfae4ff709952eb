-- ===== src/Runs/Output.antt =====
-- `_safe_code`, `_safe_json` and `safe_task_output` of services/runs.py: what a reader sees of the
-- output of a task. `str.casefold` is an argument. Values that are None and values that are left out
-- are both `none`, as in the code.
use competitor_scout.Prelude.{
  ℕ, zero, suc, String, str_eq, Bool, false, ◌&&◌, ◌||◌, List, [], ◌∷◌, Option, none, some, ◌==◌,
  ltb, leb, if◌then◌else◌, any, all, length,
}
use competitor_scout.Prelude.Texts.{Text, str, text_eq, contains}
use competitor_scout.Json.{
  Key, text_key, other_key, Value, null, bool, number, text, array, object, other, Items, nil, cons,
  Fields, end, field,
}
use competitor_scout.Paging.Tasks.{AgentTask}

abbrev is_code_start : ℕ → Bool
is_code_start c = (leb b'a' c && leb c b'z') || (leb b'0' c && leb c b'9')

abbrev is_code_char : ℕ → Bool
is_code_char c = is_code_start c || c == b'_' || c == b':' || c == b'-'

-- `_SAFE_CODE.fullmatch`.
unfoldable pub is_safe_code : Text → Bool
is_safe_code [] = false
is_safe_code (c ∷ s) = is_code_start c && all is_code_char s && leb (length s) 99

unfoldable pub forbidden_output_key_parts : List Text
forbidden_output_key_parts =
    str "authorization"
    ∷ str "api_key"
    ∷ str "exception"
    ∷ str "error_summary"
    ∷ str "pricing_source"
    ∷ str "prompt"
    ∷ str "provider"
    ∷ str "raw_"
    ∷ str "request_id"
    ∷ str "secret"
    ∷ str "token"
    ∷ str "traceback"
    ∷ str "user_id"
    ∷ []

abbrev research_keys : List String
research_keys = "sources_inspected" ∷ "evidence" ∷ "rejected_reasons" ∷ []

-- `_OUTPUT_KEYS_BY_TASK_KIND.get`.
unfoldable pub output_keys : Text → Option (List String)
unfolding text_eq
output_keys kind =
    if text_eq kind (str "daily_planning")
    then some ("tasks" ∷ [])
    else if text_eq kind (str "daily_synthesis")
    then some ("findings" ∷ [])
    else if text_eq kind (str "initial_synthesis")
    then some []
    else if text_eq kind (str "first_party_source_review")
    then some research_keys
    else if text_eq kind (str "news_discovery")
    then some research_keys
    else if text_eq kind (str "source_discovery")
    then some ("sources" ∷ "rejected_count" ∷ [])
    else if text_eq kind (str "weekly_brief")
    then some ("title" ∷ "executive_summary" ∷ "sections" ∷ [])
    else none

abbrev pub mem_key : String → List String → Bool
mem_key k [] = false
mem_key k (l ∷ ls) = str_eq l k || mem_key k ls

-- The value at a key is kept if there is one.
abbrev pub cons_safe : Option Value → Items → Items
cons_safe none items = items
cons_safe (some v) items = cons v items

abbrev pub field_safe : Key → Option Value → Fields → Fields
field_safe k none fields = fields
field_safe k (some v) fields = field k v fields

module _ (casefold : String → Text) where
  unfoldable pub is_forbidden : String → Bool
  unfolding contains
  is_forbidden key = any (λ part. contains (casefold key) part) forbidden_output_key_parts

  abbrev pub shown_field : Key → Option Value → Fields → Fields
  shown_field other_key safe rest = rest
  shown_field (text_key key) safe rest =
      if is_forbidden key then rest else field_safe (text_key key) safe rest

  -- `_safe_json` at a depth; `left` counts the items of a list or dict that are still looked at.
  unfoldable mutual
    pub safe_json : ℕ → Value → Option Value
    safe_json depth null = none
    safe_json depth (bool b) = if ltb 8 depth then none else some (bool b)
    safe_json depth (number n) = if ltb 8 depth then none else some (number n)
    safe_json depth (text t) = if ltb 8 depth then none else some (text t)
    safe_json depth (array items) =
        let safe = array (safe_items 100 (suc depth) items) in
        if ltb 8 depth then none else some safe
    safe_json depth (object fields) =
        let safe = object (safe_fields 100 (suc depth) fields) in
        if ltb 8 depth then none else some safe
    safe_json depth other = none

    pub safe_items : ℕ → ℕ → Items → Items
    safe_items zero depth items = nil
    safe_items (suc left) depth nil = nil
    safe_items (suc left) depth (cons v items) =
        cons_safe (safe_json depth v) (safe_items left depth items)

    pub safe_fields : ℕ → ℕ → Fields → Fields
    safe_fields zero depth fields = end
    safe_fields (suc left) depth end = end
    safe_fields (suc left) depth (field key v fields) =
        shown_field key (safe_json depth v) (safe_fields left depth fields)

  -- The codes of the reasons, with the other reasons left out.
  unfoldable pub safe_reasons : Items → Items
  unfolding is_safe_code
  safe_reasons nil = nil
  safe_reasons (cons (text t) items) =
      let rest = safe_reasons items in if is_safe_code (str t) then cons (text t) rest else rest
  safe_reasons (cons v items) = safe_reasons items

  abbrev pub with_safe_reasons : Value → Value
  with_safe_reasons (array items) = array (safe_reasons items)
  with_safe_reasons v = v

  abbrev pub selected_value : String → Value → Value
  selected_value key v = if str_eq key "rejected_reasons" then with_safe_reasons v else v

  -- The fields whose keys are allowed, with the codes of the reasons.
  unfoldable pub selected_fields : List String → Fields → Fields
  unfolding safe_reasons
  selected_fields allowed end = end
  selected_fields allowed (field other_key v fields) = selected_fields allowed fields
  selected_fields allowed (field (text_key key) v fields) =
      let rest = selected_fields allowed fields in
      if mem_key key allowed then field (text_key key) (selected_value key v) rest else rest

  abbrev pub shown_output : Option (List String) → Option Value → Option Value
  shown_output (some allowed) (some (object fields)) =
      safe_json 0 (object (selected_fields allowed fields))
  shown_output _ _ = none

  unfoldable pub safe_task_output : AgentTask → Option Value
  unfolding output_keys safe_json selected_fields
  safe_task_output task = shown_output (output_keys task.task_kind) task.validated_output
