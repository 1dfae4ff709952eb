-- ===== src/Runs/OneActive.antt =====
-- The runs that a request for a manual run leaves, in services/runs.py.
use competitor_scout.Prelude.{
  ℕ, ◌≡◌, ◌≤◌, refl, Bool, true, false, ◌&&◌, List, [], ◌∷◌, ◌++◌, Option, none, some, ◌==◌,
  ==_refl, ==_iff, Result, ok, err, any, count, arith, Bool-cases, inl, inr, aware, naive, Moment,
  guard_inversion, Safe, Safe-if, Safe-ok,
}
use mathlib.Core.Path.{subst}
use competitor_scout.Prelude.Tables.{first_by-sat, find-key}
use competitor_scout.Prelude.Counts.{count-append, count-none}
use competitor_scout.Prelude.Orders.{descending}
use competitor_scout.Json.{JsonLib}
use competitor_scout.Jobs.{Job, Jobs, JobError}
use competitor_scout.Competitors.{
  Competitor, Tables, get_competitor, competitor_id_of, live_of, is_active, has_approved,
}
use competitor_scout.Runs.{ScoutRun, run_id_of, is_queued}
use competitor_scout.Runs.Manual.{
  JobTexts, Given, is_manual, has_competitor, active_of, recent_of, created_of, scheduled_of,
  active_run, recent_run, clashes, new_run, as_manual, enqueue_run_job, resume, after_conflict,
  insert_run, with_recent, with_active, enqueue_manual_run, queue_for, occupies, run_not_found,
  competitor_inactive, approved_source_required,
}
use competitor_scout.Runs.Repeats.{any-less}

-- No competitor has two scout runs that have not ended.
abbrev pub OneActive : List ScoutRun → Type 0
OneActive runs = (c : ℕ) → count (occupies c) runs ≤ 1

-- The run is one of the user for the competitor.
abbrev pub is_for : ℕ → ℕ → ScoutRun → Bool
is_for user competitor r = r.user_id == user && has_competitor r.competitor_id competitor

count_prefix : (p : ScoutRun → Bool) (xs ys : List ScoutRun) → count p xs ≤ count p (xs ++ ys)
count_prefix p [] ys = omega arith
count_prefix p (x ∷ xs) ys = ground (arith, count_prefix p xs ys)

module _ (json : JsonLib) (texts : JobTexts) (user competitor : ℕ) where
  abbrev Left : ScoutRun × List ScoutRun × Jobs → Type 0
  Left (r, runs, jobs) = OneActive runs × (is_for user competitor r ≡ true)

  as_manual-Left :
      (r : ScoutRun) (runs : List ScoutRun) (m : Result JobError (Job × Jobs))
      → OneActive runs
      → is_for user competitor r ≡ true
      → Safe Left (as_manual json texts r runs m)
  as_manual-Left r runs (err e) one for = tt
  as_manual-Left r runs (ok (job, jobs)) one for = (one, for)

  active-for :
      (runs : List ScoutRun) (r : ScoutRun)
      → active_run user competitor runs ≡ some r
      → is_for user competitor r ≡ true
  unfolding active_run
  active-for runs r h =
      ground
        (arith, first_by-sat (descending created_of run_id_of) (active_of user competitor) runs r h)

  recent-for :
      (current : ℕ) (runs : List ScoutRun) (r : ScoutRun)
      → recent_run user competitor current runs ≡ some r
      → is_for user competitor r ≡ true
  unfolding recent_run
  recent-for current runs r h = ground (
    arith,
    first_by-sat (descending scheduled_of run_id_of) (recent_of user competitor current) runs r h,
  )

  new_run-OneActive :
      (id created current : ℕ) (runs : List ScoutRun)
      → OneActive runs
      → any (clashes id competitor current) runs ≡ false
      → OneActive (runs ++ new_run id created user competitor current ∷ [])
  new_run-OneActive id created current runs one free c =
      let row = new_run id created user competitor current in
      elim (Bool-cases (competitor == c)) [
        | inl e ↦
            let same : competitor ≡ c = (==_iff competitor c).0 e in
            let idle = count-none run_id_of (occupies competitor) runs (
              any-less (occupies competitor) (clashes id competitor current) (λ r q. ground arith)
                runs free) in
            let here : count (occupies c) runs ≡ 0 =
              subst (λ d. count (occupies d) runs ≡ 0) same idle in
            ground (arith, count-append run_id_of (occupies c) runs row)
        | inr e ↦ ground (arith, one c, count-append run_id_of (occupies c) runs row)
      ]

  resume-Left :
      (g : Given) (r : ScoutRun) (runs : List ScoutRun) (jobs : Jobs)
      → OneActive runs
      → is_for user competitor r ≡ true
      → Safe Left (resume json texts g r runs jobs)
  resume-Left g r runs jobs one for =
      Safe-if Left (is_manual r.run_type && is_queued r.status)
        (as_manual json texts r runs (enqueue_run_job json texts g r r.scheduled_for jobs))
        (ok (r, runs, jobs))
        (λ q. as_manual-Left r runs (enqueue_run_job json texts g r r.scheduled_for jobs) one for)
        (λ q. (one, for))

  after_conflict-Left :
      (g : Given) (current : ℕ) (o : Option ScoutRun) (runs : List ScoutRun) (jobs : Jobs)
      → OneActive runs
      → active_run user competitor runs ≡ o
      → Safe Left (after_conflict json texts g current o runs jobs)
  after_conflict-Left g current none runs jobs one e = tt
  after_conflict-Left g current (some r) runs jobs one e =
      as_manual-Left r runs (enqueue_run_job json texts g r current jobs) one (active-for runs r e)

  insert_run-Left :
      (g : Given) (current : ℕ) (runs : List ScoutRun) (jobs : Jobs)
      → OneActive runs
      → Safe Left (insert_run json texts g user competitor current runs jobs)
  unfolding insert_run
  insert_run-Left g current runs jobs one =
      let row = new_run g.run_id g.run_created user competitor current in
      Safe-if Left (any (clashes g.run_id competitor current) runs)
        (after_conflict json texts g current (active_run user competitor runs) runs jobs)
        (as_manual json texts row (runs ++ row ∷ [])
          (enqueue_run_job json texts g row current jobs))
        (λ _. after_conflict-Left g current (active_run user competitor runs) runs jobs one refl)
        (λ e.
          as_manual-Left row (runs ++ row ∷ []) (enqueue_run_job json texts g row current jobs)
            (new_run-OneActive g.run_id g.run_created current runs one e)
            (ground (arith, ==_refl user, ==_refl competitor)))

  with_recent-Left :
      (g : Given) (current : ℕ) (o : Option ScoutRun) (runs : List ScoutRun) (jobs : Jobs)
      → OneActive (runs ++ g.others)
      → recent_run user competitor current runs ≡ o
      → Safe Left (with_recent json texts g user competitor current o runs jobs)
  with_recent-Left g current none runs jobs one e =
      insert_run-Left g current (runs ++ g.others) jobs one
  with_recent-Left g current (some r) runs jobs one e = (
    λ c. omega (arith, count_prefix (occupies c) runs g.others, one c),
    recent-for current runs r e,
  )

  with_active-Left :
      (g : Given) (current : ℕ) (o : Option ScoutRun) (runs : List ScoutRun) (jobs : Jobs)
      → OneActive (runs ++ g.others)
      → active_run user competitor runs ≡ o
      → Safe Left (with_active json texts g user competitor current o runs jobs)
  with_active-Left g current none runs jobs one e =
      with_recent-Left g current (recent_run user competitor current runs) runs jobs one refl
  with_active-Left g current (some r) runs jobs one e =
      resume-Left g r runs jobs (λ c. omega (arith, count_prefix (occupies c) runs g.others, one c))
        (active-for runs r e)

module _ (json : JsonLib) (texts : JobTexts) where
  queue_for-Left :
      (g : Given) (user competitor current : ℕ) (runs : List ScoutRun) (jobs : Jobs) (db : Tables)
      (o : Option Competitor) (left : ScoutRun × List ScoutRun × Jobs)
      → OneActive (runs ++ g.others)
      → get_competitor competitor db.competitors ≡ o
      → queue_for json texts g user current runs jobs db o ≡ ok left
      → Left json texts user competitor left
  queue_for-Left g user competitor current runs jobs db none left one found h = cc
  queue_for-Left g user competitor current runs jobs db (some c) left one found h =
      let act = with_active json texts g user c.id current (active_run user c.id runs) runs jobs in
      let (_, h₁) = guard_inversion (live_of user c) run_not_found _ left h in
      let (_, h₂) = guard_inversion (is_active c.status) competitor_inactive _ left h₁ in
      let (_, h₃) =
        guard_inversion (has_approved c.id db.sources) approved_source_required act left h₂ in
      subst (λ d. Left json texts user d left)
        (find-key competitor_id_of competitor db.competitors c found)
        (Safe-ok (Left json texts user c.id) act left h₃ (
          with_active-Left json texts user c.id g current (active_run user c.id runs) runs jobs one
            refl))

  -- After a request for a manual run that succeeds, no competitor has two scout runs that have not
  -- ended, and the run of the answer is one of the user for the competitor, if no competitor had two
  -- such runs in the table with what other transactions committed meanwhile.
  pub enqueue_manual_run-OneActive :
      (g : Given) (user competitor : ℕ) (now : Moment) (db : Tables) (runs runs' : List ScoutRun)
      (jobs jobs' : Jobs) (r : ScoutRun)
      → OneActive (runs ++ g.others)
      → enqueue_manual_run json texts g user competitor now db runs jobs ≡ ok (r, runs', jobs')
      → OneActive runs' × (is_for user competitor r ≡ true)
  unfolding enqueue_manual_run
  enqueue_manual_run-OneActive g user competitor (naive t) db runs runs' jobs jobs' r one h = cc
  enqueue_manual_run-OneActive g user competitor (aware t) db runs runs' jobs jobs' r one h =
      queue_for-Left g user competitor t runs jobs db (get_competitor competitor db.competitors)
        (r, runs', jobs') one refl h
