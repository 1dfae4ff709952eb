-- ===== src/Jobs/Enqueue.antt =====
-- What `enqueue_in_session` stores and returns.
use competitor_scout.Prelude.{
  ℕ, String, ◌≡◌, refl, true, none, some, arith, if◌then◌else◌, Moment, naive, aware, Result, ok,
  err, ◌>>=◌, Option-cases, inl, inr, ◌⊎◌, [], ◌∷◌, ◌++◌, eq_iff, str_eq, is_some,
}
use competitor_scout.Json.{Value, JsonLib}
use competitor_scout.Prelude.Tables.{Unique, find-append, append-Unique}
use competitor_scout.Jobs.{
  Job, Jobs, get, id_of, with_key, JobError, new_job, json_safe_payload, enqueue_in_session,
  duplicate_id, insert_job, resolve,
}
use competitor_scout.Jobs.Leases.{after}

pub with_key-append :
    (key : String) (rows : Jobs) (j : Job)
    → with_key key (rows ++ j ∷ []) ≡ elim (with_key key rows) [
      | none ↦ if str_eq j.deduplication_key key then some j else none
      | some r ↦ some r
    ]
unfolding with_key
with_key-append key [] j = refl
with_key-append key (r ∷ rows) j = ground (arith, with_key-append key rows j)

pub with_key-key :
    (key : String) (rows : Jobs) (j : Job) → with_key key rows ≡ some j → j.deduplication_key ≡ key
unfolding with_key
with_key-key key [] j h = ground arith
with_key-key key (r ∷ rows) j h =
    ground (arith, with_key-key key rows j, eq_iff r.deduplication_key key)

-- How the insertion of a row ends: a row with the key is there and is returned, the id is taken,
-- or the row is appended.
pub data Inserted (j : Job) (rows : Jobs) (r : Result JobError (Job × Jobs)) : Type 0 where
  old :
      (o : Job) → with_key j.deduplication_key rows ≡ some o → r ≡ ok (o, rows) → Inserted j rows r
  clash :
      with_key j.deduplication_key rows ≡ none
      → is_some (get j.id rows) ≡ true
      → r ≡ err duplicate_id
      → Inserted j rows r
  new :
      with_key j.deduplication_key rows ≡ none
      → get j.id rows ≡ none
      → r ≡ ok (j, rows ++ j ∷ [])
      → Inserted j rows r

insert_job_cases :
    (j : Job) (rows : Jobs)
    → Inserted j rows (insert_job j rows >>= λ inserted. resolve j.deduplication_key inserted)
unfolding insert_job resolve
insert_job_cases j rows = elim (Option-cases (with_key j.deduplication_key rows)) [
  | inr (o, e) ↦ old o e (ground arith)
  | inl e ↦ elim (Option-cases (get j.id rows)) [
    | inr (o, f) ↦ clash e (ground arith) (ground arith)
    | inl f ↦ new e f (ground arith)
  ]
]

module _ (json : JsonLib) (id created : ℕ) (job_type key : String) (payload : Value) where
  -- An enqueue that gets past its checks is an insertion.
  pub enqueue_valid :
      (t : ℕ) (safe : Value) (rows : Jobs)
      → json_safe_payload json payload ≡ ok safe
      → Inserted
          (new_job id created job_type key safe t)
          rows
          (enqueue_in_session json id created job_type key payload (aware t) rows)
  unfolding enqueue_in_session
  enqueue_valid t safe rows e =
      rw e (insert_job_cases (new_job id created job_type key safe t) rows)

  -- The table after any enqueue: as before, or with one row more.
  pub after-enqueue :
      (at : Moment) (rows : Jobs)
      → (after (enqueue_in_session json id created job_type key payload at rows) rows ≡ rows)
        ⊎ ((t : ℕ) × (safe : Value) × (with_key key rows ≡ none)
            × (get id rows ≡ none)
            × (after (enqueue_in_session json id created job_type key payload at rows) rows
                ≡ rows ++ new_job id created job_type key safe t ∷ []))
  unfolding enqueue_in_session
  after-enqueue (naive t) rows = inl refl
  after-enqueue (aware t) rows = go (json_safe_payload json payload) refl
    where
      go :
          (r : Result JobError Value)
          → json_safe_payload json payload ≡ r
          → (after (enqueue_in_session json id created job_type key payload (aware t) rows) rows
              ≡ rows)
            ⊎ ((t' : ℕ) × (safe : Value) × (with_key key rows ≡ none)
                × (get id rows ≡ none)
                × (after
                      (enqueue_in_session json id created job_type key payload (aware t) rows)
                      rows
                    ≡ rows ++ new_job id created job_type key safe t' ∷ []))
      go (err e) p = inl (rw p)
      go (ok safe) p = elim (enqueue_valid t safe rows p) [
        | old o e r ↦ inl (rw r)
        | clash e f r ↦ inl (rw r)
        | new e f r ↦ inr (t, safe, e, f, rw r)
      ]

  -- An enqueue leaves the rows of the table as they are.
  pub get-after-enqueue :
      (at : Moment) (rows : Jobs) (i : ℕ) (j : Job)
      → get i rows ≡ some j
      → get i (after (enqueue_in_session json id created job_type key payload at rows) rows)
        ≡ some j
  get-after-enqueue at rows i j m = elim (after-enqueue at rows) [
    | inl e ↦ rw e m
    | inr (t, safe, k, n, e) ↦ rw (e, find-append id_of i rows _, m)
  ]

  pub after-enqueue-Unique :
      (at : Moment) (rows : Jobs)
      → Unique id_of rows
      → Unique id_of (after (enqueue_in_session json id created job_type key payload at rows) rows)
  after-enqueue-Unique at rows u = elim (after-enqueue at rows) [
    | inl e ↦ rw e u
    | inr (t, safe, k, n, e) ↦ rw e (append-Unique id_of rows _ u n)
  ]
