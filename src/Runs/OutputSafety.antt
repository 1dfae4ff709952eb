-- ===== src/Runs/OutputSafety.antt =====
-- What a reader of the output of a task can see, in services/runs.py.
use competitor_scout.Prelude.{
  ℕ, zero, suc, ◌+◌, ◌≤◌, ◌≡◌, refl, String, Bool, true, false, not, ◌&&◌, List, Option, none, some,
  ltb, leb, max, if◌then◌else◌, arith, Bool-cases, inl, inr,
}
use mathlib.Core.Path.{subst}
use competitor_scout.Prelude.Texts.{Text}
use competitor_scout.Json.{
  Key, text_key, other_key, Value, null, bool, number, text, array, object, other, Items, nil, cons,
  Fields, end, field,
}
use competitor_scout.Paging.Tasks.{AgentTask}
use competitor_scout.Runs.Output.{
  mem_key, cons_safe, field_safe, is_forbidden, shown_field, safe_json, safe_items, safe_fields,
  selected_fields, output_keys, shown_output, safe_task_output,
}

abbrev pub count_items : Items → ℕ
count_items nil = 0
count_items (cons v items) = suc (count_items items)

abbrev pub count_fields : Fields → ℕ
count_fields end = 0
count_fields (field key v fields) = suc (count_fields fields)

module _ (casefold : String → Text) where
  abbrev pub shown_key : Key → Bool
  shown_key other_key = false
  shown_key (text_key key) = not (is_forbidden casefold key)

  -- No key of a dict in the value is forbidden, and no list or dict in it has more than 100 items.
  unfoldable mutual
    pub clean : Value → Bool
    clean null = false
    clean (bool b) = true
    clean (number n) = true
    clean (text t) = true
    clean (array items) = clean_items items && leb (count_items items) 100
    clean (object fields) = clean_fields fields && leb (count_fields fields) 100
    clean other = false

    pub clean_items : Items → Bool
    clean_items nil = true
    clean_items (cons v items) = clean v && clean_items items

    pub clean_fields : Fields → Bool
    clean_fields end = true
    clean_fields (field key v fields) = shown_key key && clean v && clean_fields fields

  -- How deep lists and dicts stand in each other.
  unfoldable mutual
    pub nesting : Value → ℕ
    nesting null = 0
    nesting (bool b) = 0
    nesting (number n) = 0
    nesting (text t) = 0
    nesting (array items) = suc (nesting_items items)
    nesting (object fields) = suc (nesting_fields fields)
    nesting other = 0

    pub nesting_items : Items → ℕ
    nesting_items nil = 0
    nesting_items (cons v items) = max (nesting v) (nesting_items items)

    pub nesting_fields : Fields → ℕ
    nesting_fields end = 0
    nesting_fields (field key v fields) = max (nesting v) (nesting_fields fields)

  abbrev Fine : ℕ → Option Value → Type 0
  Fine depth none = Unit
  Fine depth (some s) = (clean s ≡ true) × (nesting s + depth ≤ 9)

  abbrev FineItems : ℕ → ℕ → Items → Type 0
  FineItems left depth items =
      (clean_items items ≡ true) × (count_items items ≤ left) × (nesting_items items + depth ≤ 9)

  abbrev FineFields : ℕ → ℕ → Fields → Type 0
  FineFields left depth fields =
      (clean_fields fields ≡ true)
      × (count_fields fields ≤ left)
      × (nesting_fields fields + depth ≤ 9)

  cons-Fine :
      (left depth : ℕ) (o : Option Value) (items : Items)
      → Fine depth o
      → FineItems left depth items
      → FineItems (suc left) depth (cons_safe o items)
  unfolding clean nesting
  cons-Fine left depth none items h (c, n, d) = (c, omega arith, d)
  cons-Fine left depth (some s) items (h, k) (c, n, d) = (ground arith, omega arith, omega arith)

  field-Fine :
      (left depth : ℕ) (key : Key) (o : Option Value) (fields : Fields)
      → Fine depth o
      → FineFields left depth fields
      → FineFields (suc left) depth (shown_field casefold key o fields)
  unfolding clean nesting
  field-Fine left depth other_key o fields h (c, n, d) = (c, omega arith, d)
  field-Fine left depth (text_key key) o fields h (c, n, d) =
      elim (Bool-cases (is_forbidden casefold key)) [
        | inl e ↦ rw e (c, omega arith, d)
        | inr e ↦ rw e (kept o h e)
      ]
    where
      kept :
          (o : Option Value)
          → Fine depth o
          → is_forbidden casefold key ≡ false
          → FineFields (suc left) depth (field_safe (text_key key) o fields)
      kept none h e = (c, omega arith, d)
      kept (some s) (h, k) e = (ground arith, omega arith, omega arith)

  array-Fine :
      (depth : ℕ) (items : Items)
      → (suc depth ≤ 9 → FineItems 100 (suc depth) items)
      → Fine depth (if ltb 8 depth then none else some (array items))
  unfolding clean nesting
  array-Fine depth items fine = elim (Bool-cases (ltb 8 depth)) [
    | inl e ↦ rw e tt
    | inr e ↦ let (c, n, d) = fine (ground arith) in rw e (ground arith, omega arith)
  ]

  object-Fine :
      (depth : ℕ) (fields : Fields)
      → (suc depth ≤ 9 → FineFields 100 (suc depth) fields)
      → Fine depth (if ltb 8 depth then none else some (object fields))
  unfolding clean nesting
  object-Fine depth fields fine = elim (Bool-cases (ltb 8 depth)) [
    | inl e ↦ rw e tt
    | inr e ↦ let (c, n, d) = fine (ground arith) in rw e (ground arith, omega arith)
  ]

  mutual
    unfolding safe_json clean nesting

    safe_json-Fine : (depth : ℕ) (v : Value) → Fine depth (safe_json casefold depth v)
    safe_json-Fine depth null = tt
    safe_json-Fine depth other = tt
    safe_json-Fine depth (bool b) = elim (Bool-cases (ltb 8 depth)) [
      | inl e ↦ rw e tt
      | inr e ↦ rw e (refl, ground arith)
    ]
    safe_json-Fine depth (number n) = elim (Bool-cases (ltb 8 depth)) [
      | inl e ↦ rw e tt
      | inr e ↦ rw e (refl, ground arith)
    ]
    safe_json-Fine depth (text t) = elim (Bool-cases (ltb 8 depth)) [
      | inl e ↦ rw e tt
      | inr e ↦ rw e (refl, ground arith)
    ]
    safe_json-Fine depth (array items) =
        array-Fine depth (safe_items casefold 100 (suc depth) items)
          (safe_items-Fine 100 (suc depth) items)
    safe_json-Fine depth (object fields) =
        object-Fine depth (safe_fields casefold 100 (suc depth) fields)
          (safe_fields-Fine 100 (suc depth) fields)

    safe_items-Fine :
        (left depth : ℕ) (items : Items)
        → depth ≤ 9
        → FineItems left depth (safe_items casefold left depth items)
    safe_items-Fine zero depth items h = (refl, omega arith, omega arith)
    safe_items-Fine (suc left) depth nil h = (refl, omega arith, omega arith)
    safe_items-Fine (suc left) depth (cons v items) h =
        cons-Fine left depth (safe_json casefold depth v) (safe_items casefold left depth items)
          (safe_json-Fine depth v) (safe_items-Fine left depth items h)

    safe_fields-Fine :
        (left depth : ℕ) (fields : Fields)
        → depth ≤ 9
        → FineFields left depth (safe_fields casefold left depth fields)
    safe_fields-Fine zero depth fields h = (refl, omega arith, omega arith)
    safe_fields-Fine (suc left) depth end h = (refl, omega arith, omega arith)
    safe_fields-Fine (suc left) depth (field key v fields) h =
        field-Fine left depth key (safe_json casefold depth v)
          (safe_fields casefold left depth fields) (safe_json-Fine depth v)
          (safe_fields-Fine left depth fields h)

  -- The keys of a dict are texts of a list.
  abbrev pub keys_in : List String → Fields → Bool
  keys_in allowed end = true
  keys_in allowed (field other_key v fields) = false
  keys_in allowed (field (text_key key) v fields) = mem_key key allowed && keys_in allowed fields

  selected_fields-keys_in :
      (allowed : List String) (fields : Fields)
      → keys_in allowed (selected_fields casefold allowed fields) ≡ true
  unfolding selected_fields
  selected_fields-keys_in allowed end = refl
  selected_fields-keys_in allowed (field other_key v fields) =
      selected_fields-keys_in allowed fields
  selected_fields-keys_in allowed (field (text_key key) v fields) =
      ground (arith, selected_fields-keys_in allowed fields)

  shown_field-keys_in :
      (allowed : List String) (key : Key) (v : Value) (o : Option Value) (fields rest : Fields)
      → keys_in allowed (field key v rest) ≡ true
      → keys_in allowed fields ≡ true
      → keys_in allowed (shown_field casefold key o fields) ≡ true
  shown_field-keys_in allowed other_key v o fields rest h k = k
  shown_field-keys_in allowed (text_key key) v none fields rest h k = ground arith
  shown_field-keys_in allowed (text_key key) v (some s) fields rest h k = ground arith

  safe_fields-keys_in :
      (allowed : List String) (left depth : ℕ) (fields : Fields)
      → keys_in allowed fields ≡ true
      → keys_in allowed (safe_fields casefold left depth fields) ≡ true
  unfolding safe_fields
  safe_fields-keys_in allowed zero depth fields h = refl
  safe_fields-keys_in allowed (suc left) depth end h = refl
  safe_fields-keys_in allowed (suc left) depth (field other_key v fields) h = cc
  safe_fields-keys_in allowed (suc left) depth (field (text_key key) v fields) h =
      shown_field-keys_in allowed (text_key key) v (safe_json casefold depth v)
        (safe_fields casefold left depth fields) fields h
        (safe_fields-keys_in allowed left depth fields (ground arith))

  -- What a reader sees of an output.
  pub record Shown (allowed : List String) (v : Value) : Type 0 where
    pub fields : Fields
    pub is_dict : v ≡ object fields
    pub of_kind : keys_in allowed fields ≡ true
    pub is_clean : clean v ≡ true
    pub is_shallow : nesting v ≤ 9

  shown_output-Shown :
      (o : Option (List String)) (out : Option Value) (v : Value)
      → shown_output casefold o out ≡ some v
      → (allowed : List String) × (o ≡ some allowed) × Shown allowed v
  unfolding safe_json
  shown_output-Shown none out v h = cc
  shown_output-Shown (some allowed) none v h = cc
  shown_output-Shown (some allowed) (some (object fields)) v h =
      let kept = selected_fields casefold allowed fields in
      let shown = safe_fields casefold 100 1 kept in
      let same : object shown ≡ v = cc in
      let (clean_shown, nesting_shown) = safe_json-Fine 0 (object kept) in
      (
        allowed,
        refl,
        subst (Shown allowed) same (record {
          fields = shown;
          is_dict = refl;
          of_kind = safe_fields-keys_in allowed 100 1 kept (selected_fields-keys_in allowed fields);
          is_clean = clean_shown;
          is_shallow = omega arith;
        }),
      )
  shown_output-Shown (some allowed) (some null) v h = cc
  shown_output-Shown (some allowed) (some (bool b)) v h = cc
  shown_output-Shown (some allowed) (some (number n)) v h = cc
  shown_output-Shown (some allowed) (some (text t)) v h = cc
  shown_output-Shown (some allowed) (some (array items)) v h = cc
  shown_output-Shown (some allowed) (some other) v h = cc

-- What a reader sees of the output of a task is a dict whose keys are of those that the kind of the
-- task has; in it no dict has a key with a forbidden part, no list or dict has more than 100 items,
-- and lists and dicts stand at most nine deep in each other.
pub safe_task_output-Shown :
    (casefold : String → Text) (task : AgentTask) (v : Value)
    → safe_task_output casefold task ≡ some v
    → (allowed : List String) × (output_keys task.task_kind ≡ some allowed)
      × ((fields : Fields) × (v ≡ object fields) × (keys_in casefold allowed fields ≡ true))
      × (clean casefold v ≡ true)
      × (nesting casefold v ≤ 9)
unfolding safe_task_output
safe_task_output-Shown casefold task v h =
    let (allowed, e, s) =
      shown_output-Shown casefold (output_keys task.task_kind) task.validated_output v h in
    (allowed, e, (s.fields, s.is_dict, s.of_kind), s.is_clean, s.is_shallow)
