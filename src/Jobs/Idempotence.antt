-- ===== src/Jobs/Idempotence.antt =====
-- An enqueue with a key that was used before.
use competitor_scout.Prelude.{
  ℕ, String, ◌≡◌, some, arith, aware, ok, err, List, is_some, eq_iff, inl, inr, ◌⊎◌, true,
}
use competitor_scout.Json.{JsonLib, Value}
use competitor_scout.Jobs.{
  Job, Jobs, get, with_key, new_job, enqueue_in_session, json_safe_payload, duplicate_id,
}
use competitor_scout.Jobs.Enqueue.{old, clash, new, enqueue_valid, with_key-append}
use competitor_scout.Jobs.History.{Call, run}
use competitor_scout.Jobs.Keys.{with_key-run}

module _ (json : JsonLib) (id created : ℕ) (job_type key : String) (payload : Value) (t : ℕ)
    (rows : Jobs) where
  -- A returned job has the key of the call in the table that the call leaves.
  with_key-enqueue :
      (safe : Value) (job : Job) (rows' : Jobs)
      → json_safe_payload json payload ≡ ok safe
      → enqueue_in_session json id created job_type key payload (aware t) rows ≡ ok (job, rows')
      → with_key key rows' ≡ some job
  with_key-enqueue safe job rows' p h =
      elim (enqueue_valid json id created job_type key payload t safe rows p) [
        | old o e r ↦ ground arith
        | clash e f r ↦ ground arith
        | new e f r ↦ ground (
          arith,
          with_key-append key rows (new_job id created job_type key safe t),
          eq_iff key key,
        )
      ]

  -- An enqueue of a valid payload at an aware time returns a row, or raises the database's refusal
  -- of an id that is taken: the `RuntimeError` of an unresolved enqueue is never raised.
  pub enqueue_resolves :
      (safe : Value)
      → json_safe_payload json payload ≡ ok safe
      → ((job : Job) × (rows' : Jobs) × (enqueue_in_session json id created job_type key payload
              (aware t)
              rows
            ≡ ok (job, rows'))
          × (with_key key rows' ≡ some job))
        ⊎ ((enqueue_in_session json id created job_type key payload (aware t) rows
              ≡ err duplicate_id)
            × (is_some (get id rows) ≡ true))
  enqueue_resolves safe p =
      elim (enqueue_valid json id created job_type key payload t safe rows p) [
        | old o e r ↦ inl (o, rows, r, e)
        | clash e f r ↦ inr (r, f)
        | new e f r ↦ inl (_, _, r, with_key-enqueue safe _ _ p r)
      ]

module _ (json : JsonLib) (id created : ℕ) (job_type key : String) (payload : Value) (t : ℕ)
    (rows : Jobs) where
  -- After an enqueue has returned a job and any calls have followed, a second enqueue with the same
  -- key, whatever its type, payload and time, returns that job and leaves the table as it is.
  pub enqueue_idempotent :
      (safe : Value) (job : Job) (rows' : Jobs) (cs : List Call) (id' created' : ℕ)
      (job_type' : String) (payload' safe' : Value) (t' : ℕ)
      → json_safe_payload json payload ≡ ok safe
      → json_safe_payload json payload' ≡ ok safe'
      → enqueue_in_session json id created job_type key payload (aware t) rows ≡ ok (job, rows')
      → (again : Job) × (enqueue_in_session json id' created' job_type' key payload'
            (aware t')
            (run json rows' cs)
          ≡ ok (again, run json rows' cs))
        × (again.id ≡ job.id)
  enqueue_idempotent safe job rows' cs id' created' job_type' payload' safe' t' p p' h =
      let (again, m, e) =
        with_key-run json rows' cs key job
          (with_key-enqueue json id created job_type key payload t rows safe job rows' p h) in
      elim (enqueue_valid json id' created' job_type' key payload' t' safe' (run json rows' cs)
        p') [
          | old o f r ↦ (again, ground arith, e)
          | clash f g r ↦ ground arith
          | new f g r ↦ ground arith
        ]
