-- ===== src/Jobs/Executor.antt =====
-- `JobExecutor.run_once` of jobs/executor.py: one job of a worker. What other workers and the renewal
-- do to the table while the handler runs, and how the handler ends, are arguments.
use competitor_scout.Prelude.{
  ◌≢◌, ◌⊎◌, ◌≤◌, inl, inr, opt_eq, opt_gt, ◌&&◌, naive, All, ℕ, ◌+◌, ◌<◌, ◌≡◌, refl, sym, String,
  eq_iff, Bool, true, false, List, [], ◌∷◌, Option, none, some, leb, ap, ◌∙◌, if◌then◌else◌, Result,
  ok, err, seconds, aware, arith,
}
use mathlib.Core.Path.{subst}
use competitor_scout.Prelude.Tables.{Unique, find-update}
use competitor_scout.Json.{JsonLib}
use competitor_scout.Jobs.{
  JobStatus, is_leased, Job, Jobs, JobError, lease_not_owned, claimable, leased, renew, renewed,
  get, id_of, claim, complete, fail, take_lease, finished, rejected, owned_by, owned_update,
  current_time,
}
use competitor_scout.Jobs.Leases.{after, lost_lease_refused}
use competitor_scout.Jobs.Claims.{claim_taken}
use competitor_scout.Jobs.History.{
  Call, RowMove, enqueues, completes, fails, claims, renews, run, apply-Unique, apply,
}
use competitor_scout.Jobs.Safety.{run_row, ForeignBefore, lease_exclusive}

-- How the handler ended: it returned, or it or the renewal raised an error, with its `code` and the
-- length of that, if it is a text.
pub data Outcome : Type 0 where
  returned : Outcome
  raised : Option (String × ℕ) → Outcome

unfoldable pub safe_error_code : Option (String × ℕ) → String
safe_error_code none = "job_handler_failed"
safe_error_code (some (code, length)) = if leb length 100 then code else "job_handler_failed"

-- The table that a call leaves, and its error.
abbrev pub reported : Result JobError (Job × Jobs) → Jobs → Result JobError Bool × Jobs
reported (ok (job, rows')) rows = (ok true, rows')
reported (err e) rows = (err e, rows)

-- The calls while a worker holds a job: those of others, claims before the lease expires, and its own
-- renewals before that; with the expiry at the start and at the end.
pub data Holds (owner : String) (i : ℕ) : ℕ → List Call → ℕ → Type 0 where
  still : {e : ℕ} → Holds owner i e [] e
  foreign :
      {e e' : ℕ} {c : Call} {cs : List Call}
      → ForeignBefore owner e c
      → Holds owner i e cs e'
      → Holds owner i e (c ∷ cs) e'
  renewal :
      {e e' t secs : ℕ} {cs : List Call}
      → t < e
      → 0 < secs
      → Holds owner i (t + seconds secs) cs e'
      → Holds owner i e (renews i owner secs (aware t) ∷ cs) e'

abbrev HeldUntil : String → ℕ → Job → Type 0
HeldUntil owner expires j =
    (j.status ≡ leased) × (j.lease_owner ≡ some owner) × (j.lease_expires_at ≡ some expires)

module _ (json : JsonLib) (owner : String) (i : ℕ) where
  apply-renewal :
      (rows : Jobs) (j : Job) (e t secs : ℕ)
      → get i rows ≡ some j
      → HeldUntil owner e j
      → t < e
      → 0 < secs
      → get i (apply json rows (renews i owner secs (aware t)))
        ≡ some (renewed (t + seconds secs) j)
  unfolding apply renew owned_update owned_by current_time
  apply-renewal rows j e t secs m (s, o, x) early positive = ground (
    arith,
    eq_iff owner owner,
    find-update id_of i i (renewed (t + seconds secs)) (λ j. refl) rows,
  )

  run-Holds :
      (rows : Jobs) (cs : List Call) (j : Job) (e e' : ℕ)
      → Unique id_of rows
      → get i rows ≡ some j
      → HeldUntil owner e j
      → Holds owner i e cs e'
      → get i (run json rows cs) ≡ some (renewed e' j)
  unfolding run
  run-Holds rows [] j e _ u m (s, o, x) still =
      m ∙ ap (λ n. some (record j { lease_expires_at = n })) x
  run-Holds rows (c ∷ cs) j e e' u m held (foreign f rest) =
      run-Holds (apply json rows c) cs j e e' (apply-Unique json rows c u)
        (lease_exclusive json rows (c ∷ []) i j owner e u m held (f, tt)) held rest
  run-Holds rows (_ ∷ cs) j e e' u m held (renewal {t = t} {secs = secs} early positive rest) =
      run-Holds (apply json rows (renews i owner secs (aware t))) cs (renewed (t + seconds secs) j)
        (t + seconds secs) e' (apply-Unique json rows (renews i owner secs (aware t)) u)
        (apply-renewal rows j e t secs m held early positive) (held.0, held.1, refl) rest

-- A call of another worker, or one by which a worker whose lease was over at `expires` tries to renew
-- it when it is too late.
abbrev pub ForeignOrLate : String → ℕ → Call → Type 0
ForeignOrLate owner expires (claims other _ _ _) = other ≢ owner
ForeignOrLate owner expires (renews _ other _ (aware t)) = (other ≢ owner) ⊎ (expires ≤ t)
ForeignOrLate owner expires (completes _ other _) = other ≢ owner
ForeignOrLate owner expires (fails _ other _ _) = other ≢ owner
ForeignOrLate owner expires _ = Unit

abbrev LostAt : String → ℕ → Job → Type 0
LostAt owner expires j = (opt_eq j.lease_owner owner ≡ false) ⊎ (j.lease_expires_at ≡ some expires)

-- A renewal that is granted is one of another worker.
late_renewal :
    (owner w : String) (expires t : ℕ) (s : JobStatus) (o : Option String) (x : Option ℕ)
    → (w ≢ owner) ⊎ (expires ≤ t)
    → (opt_eq o owner ≡ false) ⊎ (x ≡ some expires)
    → (is_leased s && (opt_eq o w && opt_gt x t)) ≡ true
    → opt_eq o owner ≡ false
late_renewal owner w expires t s none x f h g = refl
late_renewal owner w expires t s (some v) x f (inl n) g = n
late_renewal owner w expires t s (some v) x (inl n) (inr e) g =
    ground (arith, eq_iff v owner, eq_iff v w)
late_renewal owner w expires t s (some v) x (inr late) (inr e) g = ground arith

LostAt-keeps :
    (owner : String) (expires : ℕ) (c : Call) (j j' : Job)
    → ForeignOrLate owner expires c
    → RowMove c j j'
    → LostAt owner expires j
    → LostAt owner expires j'
unfolding claimable owned_by
LostAt-keeps owner expires (enqueues _ _ _ _ _ _) j j' f v h = rw v h
LostAt-keeps owner expires (claims w secs locked (aware t)) j j' f v h =
    ground (arith, eq_iff w owner)
LostAt-keeps owner expires (claims _ _ _ (naive _)) j j' f v h = rw v h
LostAt-keeps owner expires (renews k w secs (aware t)) j j' f v h =
    ground (arith, late_renewal owner w expires t j.status j.lease_owner j.lease_expires_at f h)
LostAt-keeps owner expires (renews _ _ _ (naive _)) j j' f v h = rw v h
LostAt-keeps owner expires (completes k w (aware t)) j j' f v h = ground (arith, eq_iff w owner)
LostAt-keeps owner expires (completes _ _ (naive _)) j j' f v h = rw v h
LostAt-keeps owner expires (fails k w code (aware t)) j j' f v h = ground (arith, eq_iff w owner)
LostAt-keeps owner expires (fails _ _ _ (naive _)) j j' f v h = rw v h

LostAt-owned_by :
    (owner : String) (expires t : ℕ) (j : Job)
    → LostAt owner expires j
    → expires ≤ t
    → owned_by owner t j ≡ false
unfolding owned_by
LostAt-owned_by owner expires t j h late = ground arith

module _ (json : JsonLib) (owner : String) (lease_seconds : ℕ) (handles : String → Bool)
    (locked : ℕ → Bool) (claimed_at ended_at : ℕ) (during : List Call) where
  -- After the handler: the job is completed, or fails with the code of the error.
  abbrev pub conclude : Outcome → Job → Jobs → Result JobError Bool × Jobs
  conclude returned job rows = reported (complete job.id owner (aware ended_at) rows) rows
  conclude (raised code) job rows =
      reported (fail job.id owner (safe_error_code code) (aware ended_at) rows) rows

  abbrev pub execute : Outcome → Job → Jobs → Result JobError Bool × Jobs
  execute outcome job rows =
      if handles job.job_type
      then conclude outcome job (run json rows during)
      else reported (fail job.id owner "unknown_job_type" (aware ended_at) rows) rows

  abbrev pub with_claim :
      Outcome → Result JobError (Option Job × Jobs) → Jobs → Result JobError Bool × Jobs
  with_claim outcome (err e) rows = (err e, rows)
  with_claim outcome (ok (none, rows')) rows = (ok false, rows')
  with_claim outcome (ok (some job, rows')) rows = execute outcome job rows'

  -- Whether a job was claimed, or the error that leaves the call, and the table.
  unfoldable pub run_once : Outcome → Jobs → Result JobError Bool × Jobs
  unfolding safe_error_code
  run_once outcome rows =
      with_claim outcome (claim owner lease_seconds locked (aware claimed_at) rows) rows

  abbrev pub concluded : Outcome → Job → Job
  concluded returned j = finished j
  concluded (raised code) j = rejected (safe_error_code code) j

  conclude_owned :
      (outcome : Outcome) (job : Job) (rows : Jobs)
      → get job.id rows ≡ some job
      → owned_by owner ended_at job ≡ true
      → ((conclude outcome job rows).0 ≡ ok true)
        × (get job.id (conclude outcome job rows).1 ≡ some (concluded outcome job))
  unfolding complete fail owned_update current_time
  conclude_owned returned job rows m o =
      (ground arith, ground (arith, find-update id_of job.id job.id finished (λ j. refl) rows))
  conclude_owned (raised code) job rows m o = (
    ground arith,
    ground
        (arith, find-update id_of job.id job.id (rejected (safe_error_code code)) (λ j. refl) rows),
  )

  -- With a row whose lease was renewed since the claim.
  conclude-renewed :
      (outcome : Outcome) (job : Job) (rows : Jobs) (expires : ℕ)
      → get job.id rows ≡ some (renewed expires job)
      → owned_by owner ended_at (renewed expires job) ≡ true
      → ((conclude outcome job rows).0 ≡ ok true)
        × (get job.id (conclude outcome job rows).1 ≡ some (concluded outcome job))
  conclude-renewed returned job rows expires m o =
      conclude_owned returned (renewed expires job) rows m o
  conclude-renewed (raised code) job rows expires m o =
      conclude_owned (raised code) (renewed expires job) rows m o

  taken_owned :
      (row : Job) (expires : ℕ)
      → ended_at < expires
      → owned_by owner ended_at (take_lease owner expires row) ≡ true
  unfolding owned_by
  taken_owned row expires early = ground (arith, eq_iff owner owner)

  claimed-Unique :
      (rows rows' : Jobs) (job : Job)
      → Unique id_of rows
      → claim owner lease_seconds locked (aware claimed_at) rows ≡ ok (some job, rows')
      → Unique id_of rows'
  claimed-Unique rows rows' job u h =
      subst (λ w. Unique id_of (after w rows)) h
        (unfold apply in
          apply-Unique json rows (claims owner lease_seconds locked (aware claimed_at)) u)

  -- A worker that claims a job with a known handler, and keeps the lease until that ends by renewals
  -- at times before it expires, or needs none, has the job completed, or failed with the code of the
  -- error, whatever other workers call in the meantime.
  pub run_once_settles :
      (outcome : Outcome) (rows rows' : Jobs) (job : Job) (expires : ℕ)
      → Unique id_of rows
      → claim owner lease_seconds locked (aware claimed_at) rows ≡ ok (some job, rows')
      → handles job.job_type ≡ true
      → Holds owner job.id (claimed_at + seconds lease_seconds) during expires
      → ended_at < expires
      → ((run_once outcome rows).0 ≡ ok true)
        × (get job.id (run_once outcome rows).1 ≡ some (concluded outcome job))
  unfolding run_once
  run_once_settles outcome rows rows' job expires u h known held early =
      let (row, m, c, r, finds) =
        claim_taken owner lease_seconds locked claimed_at rows job rows' u h in
      let stored : get job.id rows' ≡ some job = ground (arith, finds job.id, r) in
      let kept : get job.id (run json rows' during) ≡ some (renewed expires job) =
        run-Holds json owner job.id rows' during job (claimed_at + seconds lease_seconds) expires
          (claimed-Unique rows rows' job u h) stored
          (ground (arith, r), ground (arith, r), ground (arith, r)) held in
      subst
        (λ w.
          ((with_claim outcome w rows).0 ≡ ok true)
          × (get job.id (with_claim outcome w rows).1 ≡ some (concluded outcome job)))
        (sym h)
        (rw known (
          conclude-renewed outcome job (run json rows' during) expires kept
            (ground (arith, r, taken_owned row expires early))))

  conclude-lost :
      (outcome : Outcome) (job last : Job) (rows : Jobs)
      → get job.id rows ≡ some last
      → owned_by owner ended_at last ≡ false
      → conclude outcome job rows ≡ (err lease_not_owned, rows)
  conclude-lost returned job last rows m lost =
      let (_, e, _) =
        lost_lease_refused job.id owner ended_at rows last 1 "" (omega arith) m lost in
      rw e refl
  conclude-lost (raised code) job last rows m lost =
      let (_, _, e) =
        lost_lease_refused job.id owner ended_at rows last 1 (safe_error_code code) (omega arith) m
          lost in
      rw e refl

  -- A worker that claims a job with a known handler, which ends when the lease has expired, and that
  -- did not renew the lease before, leaves the call with the ownership error and the table as it is
  -- then, in whatever way the handler ends and whatever other workers, or its own renewals that came
  -- too late, called in the meantime.
  pub run_once_overdue :
      (outcome : Outcome) (rows rows' : Jobs) (job : Job)
      → Unique id_of rows
      → claim owner lease_seconds locked (aware claimed_at) rows ≡ ok (some job, rows')
      → handles job.job_type ≡ true
      → All (ForeignOrLate owner (claimed_at + seconds lease_seconds)) during
      → claimed_at + seconds lease_seconds ≤ ended_at
      → run_once outcome rows ≡ (err lease_not_owned, run json rows' during)
  unfolding run_once
  run_once_overdue outcome rows rows' job u h known others late =
      let expires = claimed_at + seconds lease_seconds in
      let (row, m, c, r, finds) =
        claim_taken owner lease_seconds locked claimed_at rows job rows' u h in
      let stored : get job.id rows' ≡ some job = ground (arith, finds job.id, r) in
      let (last, m', lost) =
        run_row json (LostAt owner expires) (ForeignOrLate owner expires)
          (LostAt-keeps owner expires) rows' during job.id job (claimed-Unique rows rows' job u h)
          others stored (inr (ground (arith, r))) in
      subst (λ w. with_claim outcome w rows ≡ (err lease_not_owned, run json rows' during)) (sym h)
        (rw known (
          conclude-lost outcome job last (run json rows' during) m'
            (LostAt-owned_by owner expires ended_at last lost late)))
