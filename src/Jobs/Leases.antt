-- ===== src/Jobs/Leases.antt =====
-- What renew, complete and fail do to a row of the table, and when they raise.
use competitor_scout.Prelude.{
  ℕ, ◌<◌, String, ◌≡◌, false, ◌&&◌, some, arith, ◌==◌, if◌then◌else◌, aware, Result, ok, err, inl,
  inr, ◌⊎◌,
}
use competitor_scout.Prelude.Tables.{Unique, find-update, find-key, update-Unique}
use competitor_scout.Jobs.{
  Job, Jobs, get, put, id_of, JobError, owned_by, owned_update, renew, complete, fail,
  lease_not_owned,
}

-- The table after a call: a call that raises is rolled back.
abbrev pub after : {A : Type 0} → Result JobError (A × Jobs) → Jobs → Jobs
after (ok (a, rows')) rows = rows'
after (err e) rows = rows

-- The row that an owned update leaves: changed where the worker holds an unexpired lease on it.
abbrev pub settled : ℕ → String → ℕ → (Job → Job) → Job → Job
settled job_id owner t values j = if j.id == job_id && owned_by owner t j then values j else j

module _ (job_id : ℕ) (owner : String) (t : ℕ) (values : Job → Job)
    (keeps : (j : Job) → (values j).id ≡ j.id) where
  pub get-owned_update :
      (i : ℕ) (j : Job) (rows : Jobs)
      → get i rows ≡ some j
      → get i (after (owned_update job_id owner t values rows) rows)
        ≡ some (settled job_id owner t values j)
  unfolding owned_update
  get-owned_update i j rows m =
      ground (arith, find-update id_of job_id i values keeps rows, find-key id_of i rows j m)

  pub owned_update_cases :
      (rows : Jobs)
      → (after (owned_update job_id owner t values rows) rows ≡ rows)
        ⊎ (after (owned_update job_id owner t values rows) rows ≡ put job_id values rows)
  unfolding owned_update
  owned_update_cases rows = ground arith

  pub owned_update-Unique :
      (rows : Jobs)
      → Unique id_of rows
      → Unique id_of (after (owned_update job_id owner t values rows) rows)
  owned_update-Unique rows u = elim (owned_update_cases rows) [
    | inl e ↦ rw e u
    | inr e ↦ rw e (update-Unique id_of job_id values keeps rows u)
  ]

  -- An owned update raises unless the row is there and the worker holds its lease.
  pub owned_update_refuses :
      (rows : Jobs) (j : Job)
      → get job_id rows ≡ some j
      → owned_by owner t j ≡ false
      → owned_update job_id owner t values rows ≡ err lease_not_owned
  unfolding owned_update
  owned_update_refuses rows j m h = ground arith

module _ (job_id : ℕ) (owner : String) (t : ℕ) (rows : Jobs) (j : Job) where
  -- A worker whose lease has passed to another, has expired or was given up has each of its calls
  -- on the job refused: it can neither renew the lease nor complete nor fail the job.
  pub lost_lease_refused :
      (lease_seconds : ℕ) (code : String)
      → 0 < lease_seconds
      → get job_id rows ≡ some j
      → owned_by owner t j ≡ false
      → (renew job_id owner lease_seconds (aware t) rows ≡ err lease_not_owned)
        × (complete job_id owner (aware t) rows ≡ err lease_not_owned)
        × (fail job_id owner code (aware t) rows ≡ err lease_not_owned)
  unfolding renew complete fail
  lost_lease_refused lease_seconds code positive m h = (ground arith, ground arith, ground arith)
