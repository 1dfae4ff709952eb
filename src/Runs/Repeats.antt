-- ===== src/Runs/Repeats.antt =====
-- A manual run that is asked for again, in services/runs.py.
use competitor_scout.Prelude.{
  ℕ, ◌≡◌, refl, Bool, true, false, ◌&&◌, List, [], ◌∷◌, ◌++◌, Option, none, some, ==_refl, Result,
  ok, err, any, arith, Bool-cases, inl, inr, aware, guard_inversion, Safe, Safe-if, Safe-ok,
}
use competitor_scout.Prelude.Tables.{
  Unique, first_by-sat, first_by-find, first_by-none, first_by-any, first_by-last,
}
use competitor_scout.Prelude.Orders.{descending}
use competitor_scout.Json.{Value, JsonLib}
use competitor_scout.Jobs.{Job, Jobs, JobError, json_safe_payload}
use competitor_scout.Jobs.History.{run}
use competitor_scout.Jobs.Idempotence.{enqueue_idempotent}
use competitor_scout.Competitors.{
  Competitor, Tables, get_competitor, live_of, is_active, has_approved,
}
use competitor_scout.Runs.{
  RunType, source_discovery, daily_scout, manual_scout, weekly_brief, ScoutRun, run_id_of, is_final,
  is_queued, is_scout,
}
use competitor_scout.Runs.Manual.{
  JobTexts, Given, is_manual, active_of, recent_of, created_of, scheduled_of, active_run,
  recent_run, clashes, new_run, as_manual, enqueue_run_job, resume, after_conflict, insert_run,
  with_recent, with_active, enqueue_manual_run, job_type_of, queue_for, run_not_found,
  competitor_inactive, approved_source_required,
}

pub any-less :
    (p q : ScoutRun → Bool)
    → ((r : ScoutRun) → p r ≡ true → q r ≡ true)
    → (rs : List ScoutRun) → any q rs ≡ false
    → any p rs ≡ false
any-less p q sub [] h = refl
any-less p q sub (r ∷ rs) h = elim (Bool-cases (p r)) [
  | inl e ↦ ground (arith, sub r e)
  | inr e ↦ ground (arith, any-less p q sub rs)
]

module _ (json : JsonLib) (texts : JobTexts)
    (payloads : (i : ℕ)
      → (safe : Value) × (json_safe_payload json (texts.payload i) ≡ ok safe)) where
  -- A job of the run was enqueued last.
  abbrev Had : ScoutRun → Jobs → Type 0
  Had r jobs' =
      (g : Given) × (a : ℕ) × (jobs : Jobs) × (job : Job) × (enqueue_run_job json texts g r a jobs
        ≡ ok (job, jobs'))

  enqueue_again :
      (r : ScoutRun) (jobs' : Jobs) (g' : Given) (a' : ℕ)
      → Had r jobs'
      → (again : Job) × (enqueue_run_job json texts g' r a' jobs' ≡ ok (again, jobs'))
  unfolding enqueue_run_job run
  enqueue_again r jobs' g' a' (g, a, jobs, job, h) =
      let (safe, p) = payloads r.id in
      let (again, e, same) =
        enqueue_idempotent json g.job_id g.job_created (job_type_of r.run_type)
          (texts.key (job_type_of r.run_type) r.id) (texts.payload r.id) a jobs safe job jobs' []
          g'.job_id g'.job_created (job_type_of r.run_type) (texts.payload r.id) safe a' p p h in
      (again, e)

  module _ (user competitor : ℕ) where
    -- The run is the one that a later call finds, with its job.
    abbrev Lasting : ScoutRun × List ScoutRun × Jobs → Type 0
    Lasting (r, runs, jobs) =
        is_final r.status ≡ false
        → (active_run user competitor runs ≡ some r)
          × (is_manual r.run_type && is_queued r.status ≡ true → Had r jobs)

    as_manual-Safe :
        (g : Given) (r : ScoutRun) (runs : List ScoutRun) (a : ℕ) (jobs : Jobs)
        → (is_final r.status ≡ false → active_run user competitor runs ≡ some r)
        → (m : Result JobError (Job × Jobs)) → enqueue_run_job json texts g r a jobs ≡ m
        → Safe Lasting (as_manual json texts r runs m)
    as_manual-Safe g r runs a jobs found (err e) h = tt
    as_manual-Safe g r runs a jobs found (ok (job, jobs')) h =
        λ live. (found live, λ q. (g, a, jobs, job, h))

    resume-Safe :
        (g : Given) (r : ScoutRun) (runs : List ScoutRun) (jobs : Jobs)
        → active_run user competitor runs ≡ some r
        → Safe Lasting (resume json texts g r runs jobs)
    resume-Safe g r runs jobs found =
        Safe-if Lasting (is_manual r.run_type && is_queued r.status)
          (as_manual json texts r runs (enqueue_run_job json texts g r r.scheduled_for jobs))
          (ok (r, runs, jobs))
          (λ q.
            as_manual-Safe g r runs r.scheduled_for jobs (λ live. found)
              (enqueue_run_job json texts g r r.scheduled_for jobs) refl)
          (λ q live. (found, λ q'. cc))

    after_conflict-Safe :
        (g : Given) (current : ℕ) (o : Option ScoutRun) (runs : List ScoutRun) (jobs : Jobs)
        → active_run user competitor runs ≡ o
        → Safe Lasting (after_conflict json texts g current o runs jobs)
    after_conflict-Safe g current none runs jobs e = tt
    after_conflict-Safe g current (some r) runs jobs e =
        as_manual-Safe g r runs current jobs (λ live. e)
          (enqueue_run_job json texts g r current jobs) refl

    active_run-last :
        (id created current : ℕ) (runs : List ScoutRun)
        → any (clashes id competitor current) runs ≡ false
        → let row = new_run id created user competitor current in
          active_run user competitor (runs ++ row ∷ []) ≡ some row
    unfolding active_run
    active_run-last id created current runs h =
        let order = descending created_of run_id_of in
        let p = active_of user competitor in
        first_by-last order p runs (new_run id created user competitor current)
          (first_by-any order p runs
            (any-less p (clashes id competitor current) (λ r e. ground arith) runs h))
          (ground (arith, ==_refl user, ==_refl competitor))

    insert_run-Safe :
        (g : Given) (current : ℕ) (runs : List ScoutRun) (jobs : Jobs)
        → Safe Lasting (insert_run json texts g user competitor current runs jobs)
    unfolding insert_run
    insert_run-Safe g current runs jobs =
        let row = new_run g.run_id g.run_created user competitor current in
        Safe-if Lasting (any (clashes g.run_id competitor current) runs)
          (after_conflict json texts g current (active_run user competitor runs) runs jobs)
          (as_manual json texts row (runs ++ row ∷ [])
            (enqueue_run_job json texts g row current jobs))
          (λ _. after_conflict-Safe g current (active_run user competitor runs) runs jobs refl)
          (λ e.
            as_manual-Safe g row (runs ++ row ∷ []) current jobs
              (λ live. active_run-last g.run_id g.run_created current runs e)
              (enqueue_run_job json texts g row current jobs) refl)

    -- A recent run that has not ended is an active one.
    recent-active :
        (current : ℕ) (runs : List ScoutRun) (r : ScoutRun)
        → Unique run_id_of runs
        → active_run user competitor runs ≡ none
        → recent_run user competitor current runs ≡ some r
        → is_final r.status ≡ false
        → active_of user competitor r ≡ false
    unfolding active_run recent_run
    recent-active current runs r unique idle recent live =
        first_by-none (descending created_of run_id_of) (active_of user competitor) run_id_of runs
          r.id r idle
          (first_by-find (descending scheduled_of run_id_of) (recent_of user competitor current)
            run_id_of runs r unique recent)

    recent-sat :
        (current : ℕ) (runs : List ScoutRun) (r : ScoutRun)
        → recent_run user competitor current runs ≡ some r
        → recent_of user competitor current r ≡ true
    unfolding recent_run
    recent-sat current runs r h =
        first_by-sat (descending scheduled_of run_id_of) (recent_of user competitor current) runs r
          h

    manual_scout-scout : (r : ScoutRun) → is_manual r.run_type ≡ true → is_scout r.run_type ≡ true
    manual_scout-scout r h = go r.run_type h
      where
        go : (t : RunType) → is_manual t ≡ true → is_scout t ≡ true
        go source_discovery h = cc
        go daily_scout h = cc
        go manual_scout h = refl
        go weekly_brief h = cc

    with_recent-Safe :
        (g : Given) (current : ℕ) (o : Option ScoutRun) (runs : List ScoutRun) (jobs : Jobs)
        → Unique run_id_of runs
        → active_run user competitor runs ≡ none
        → recent_run user competitor current runs ≡ o
        → Safe Lasting (with_recent json texts g user competitor current o runs jobs)
    with_recent-Safe g current none runs jobs unique idle e =
        insert_run-Safe g current (runs ++ g.others) jobs
    with_recent-Safe g current (some r) runs jobs unique idle e = λ live. ground (
      arith,
      recent-active current runs r unique idle e live,
      recent-sat current runs r e,
      manual_scout-scout r,
    )

    with_active-Safe :
        (g : Given) (current : ℕ) (o : Option ScoutRun) (runs : List ScoutRun) (jobs : Jobs)
        → Unique run_id_of runs
        → active_run user competitor runs ≡ o
        → Safe Lasting (with_active json texts g user competitor current o runs jobs)
    with_active-Safe g current none runs jobs unique e =
        with_recent-Safe g current (recent_run user competitor current runs) runs jobs unique e refl
    with_active-Safe g current (some r) runs jobs unique e = resume-Safe g r runs jobs e

    -- A later call finds the run and its job.
    again-same :
        (g' : Given) (current' : ℕ) (r : ScoutRun) (runs : List ScoutRun) (jobs : Jobs)
        → Lasting (r, runs, jobs)
        → is_final r.status ≡ false
        → with_active json texts g' user competitor current'
            (active_run user competitor runs)
            runs
            jobs
          ≡ ok (r, runs, jobs)
    again-same g' current' r runs jobs lasting live =
        let (found, had) = lasting live in
        elim (Bool-cases (is_manual r.run_type && is_queued r.status)) [
          | inl q ↦
              let (again, e) = enqueue_again r jobs g' r.scheduled_for (had q) in
              rw (found, q, e) refl
          | inr q ↦ rw (found, q) refl
        ]

  queue_for-again :
      (g g' : Given) (user current current' : ℕ) (runs runs' : List ScoutRun) (jobs jobs' : Jobs)
      (db : Tables) (o : Option Competitor) (r : ScoutRun)
      → Unique run_id_of runs
      → queue_for json texts g user current runs jobs db o ≡ ok (r, runs', jobs')
      → is_final r.status ≡ false
      → queue_for json texts g' user current' runs' jobs' db o ≡ ok (r, runs', jobs')
  queue_for-again g g' user current current' runs runs' jobs jobs' db none r unique h live = cc
  queue_for-again g g' user current current' runs runs' jobs jobs' db (some c) r unique h live =
      let act = with_active json texts g user c.id current (active_run user c.id runs) runs jobs in
      let (mine, h₁) = guard_inversion (live_of user c) run_not_found _ (r, runs', jobs') h in
      let (active, h₂) =
        guard_inversion (is_active c.status) competitor_inactive _ (r, runs', jobs') h₁ in
      let (has, h₃) =
        guard_inversion (has_approved c.id db.sources) approved_source_required act
          (r, runs', jobs') h₂ in
      let lasting =
        Safe-ok (Lasting user c.id) act (r, runs', jobs') h₃
          (with_active-Safe user c.id g current (active_run user c.id runs) runs jobs unique
            refl) in
      rw (mine, active, has) (again-same user c.id g' current' r runs' jobs' lasting live)

  -- After a request for a manual run was answered with a run that has not ended, a repeated request
  -- of the user for the competitor, at any time, while nothing else changes the tables, is answered
  -- with the same run, and the runs and the jobs stay as they are, if the payloads are valid JSON
  -- and the ids of the runs were distinct.
  pub enqueue_manual_run_repeated :
      (g g' : Given) (user competitor current current' : ℕ) (db : Tables)
      (runs runs' : List ScoutRun) (jobs jobs' : Jobs) (r : ScoutRun)
      → Unique run_id_of runs
      → enqueue_manual_run json texts g user competitor (aware current) db runs jobs
        ≡ ok (r, runs', jobs')
      → is_final r.status ≡ false
      → enqueue_manual_run json texts g' user competitor (aware current') db runs' jobs'
        ≡ ok (r, runs', jobs')
  unfolding enqueue_manual_run
  enqueue_manual_run_repeated g g' user competitor current current' db runs runs' jobs jobs' r
        unique h live =
      queue_for-again g g' user current current' runs runs' jobs jobs' db
        (get_competitor competitor db.competitors) r unique h live
