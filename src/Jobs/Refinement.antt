-- ===== src/Jobs/Refinement.antt =====
-- The queue of jobs/repository.py implements the machine of the phases of a job.
use competitor_scout.Prelude.{
  ℕ, ◌+◌, String, ◌≡◌, refl, Bool, true, false, not, ◌&&◌, some, arith, ◌==◌, naive, aware, seconds,
  err, List, [], ◌∷◌, Bool-cases, ==_refl, ◌∙◌, inl, inr,
}
use mathlib.Core.Path.{subst, sym}
use competitor_scout.Json.{JsonLib}
use competitor_scout.Prelude.Tables.{Unique, find-key}
use competitor_scout.Jobs.{
  Job, Jobs, get, id_of, owned_update, renew, complete, fail, renewed, finished, lease_not_positive,
  rejected, claim, claimable, take_lease,
}
use competitor_scout.Jobs.Machine.{
  Phase, holds, grants, granted, free, Step, stays, acts, takes, Steps, here, after_step, is_ok,
  phase_of, owned_by-holds, claimable-free, renewed_held, held,
}
use competitor_scout.Jobs.Leases.{after, get-owned_update}
use competitor_scout.Jobs.Claims.{get-after-claim}
use competitor_scout.Jobs.Enqueue.{get-after-enqueue}
use competitor_scout.Jobs.History.{
  Call, enqueues, claims, renews, completes, fails, run, apply, apply-Unique, after-claim_naive,
  after-renew_naive,
}

-- What a call makes of a row and its phase.
record Moved (i : ℕ) (c : Call) (j : Job) (p : Phase) (rows' : Jobs) : Type 0 where
  row : Job
  taken : ℕ
  next : Phase
  stored : get i rows' ≡ some row
  in_phase : phase_of row ≡ some next
  counted : row.attempt_count ≡ taken + j.attempt_count
  step : Step i c p taken next

module _ (i : ℕ) (rows : Jobs) (j : Job) (p : Phase) (m : get i rows ≡ some j)
    (h : phase_of j ≡ some p) where
  unmoved :
      (c : Call) (rows' : Jobs) → get i rows' ≡ some j → grants i c p ≡ false → Moved i c j p rows'
  unmoved c rows' m' g = record {
    row = j;
    taken = 0;
    next = p;
    stored = m';
    in_phase = h;
    counted = omega arith;
    step = stays g;
  }

  -- A call of a worker on the job with the id `k`.
  owned-Moved :
      (c : Call) (k : ℕ) (owner : String) (t : ℕ) (values : Job → Job)
      → ((r : Job) → (values r).id ≡ r.id)
      → grants i c p ≡ (k == i && holds owner t p)
      → (holds owner t p ≡ true → phase_of (values j) ≡ some (granted c p))
      → (values j).attempt_count ≡ j.attempt_count
      → Moved i c j p (after (owned_update k owner t values rows) rows)
  owned-Moved c k owner t values keeps g q a =
      let moved = get-owned_update k owner t values keeps i j rows m in
      let key = find-key id_of i rows j m in
      let owned = owned_by-holds owner t j p h in
      elim (Bool-cases (k == i && holds owner t p)) [
        | inl y ↦ record {
          row = values j;
          taken = 0;
          next = granted c p;
          stored = ground arith;
          in_phase = q (ground arith);
          counted = omega (arith, a);
          step = acts (rw g y);
        }
        | inr n ↦
            unmoved c (after (owned_update k owner t values rows) rows) (ground arith) (rw g n)
      ]

  claims-Moved :
      (owner : String) (secs t : ℕ) (locked : ℕ → Bool)
      → Unique id_of rows
      → Moved i
          (claims owner secs locked (aware t))
          j
          p
          (after (claim owner secs locked (aware t) rows) rows)
  unfolding phase_of
  claims-Moved owner secs t locked u =
      let key = find-key id_of i rows j m in
      elim (get-after-claim owner secs locked t rows i j u m) [
        | inl e ↦
            unmoved (claims owner secs locked (aware t))
              (after (claim owner secs locked (aware t) rows) rows) e refl
        | inr (q, e) ↦
            let free_here = claimable-free locked t j p h in
            record {
              row = take_lease owner (t + seconds secs) j;
              taken = 1;
              next = held owner (t + seconds secs);
              stored = e;
              in_phase = refl;
              counted = omega arith;
              step = takes (ground arith) (ground arith);
            }
      ]

renew_refused :
    (k : ℕ) (owner : String) (secs t : ℕ) (rows : Jobs)
    → (secs == 0) ≡ true
    → renew k owner secs (aware t) rows ≡ err lease_not_positive
unfolding renew
renew_refused k owner secs t rows z = ground arith

renew_owned :
    (k : ℕ) (owner : String) (secs t : ℕ) (rows : Jobs)
    → (secs == 0) ≡ false
    → renew k owner secs (aware t) rows ≡ owned_update k owner t (renewed (t + seconds secs)) rows
unfolding renew
renew_owned k owner secs t rows n = ground arith

module _ (json : JsonLib) where
  apply-Moved :
      (rows : Jobs) (c : Call) (i : ℕ) (j : Job) (p : Phase)
      → Unique id_of rows
      → get i rows ≡ some j
      → phase_of j ≡ some p
      → Moved i c j p (apply json rows c)
  unfolding apply renew complete fail phase_of
  apply-Moved rows (enqueues id created job_type key payload at) i j p u m h =
      unmoved i rows j p m h (enqueues id created job_type key payload at) _
        (get-after-enqueue json id created job_type key payload at rows i j m) refl
  apply-Moved rows (claims owner secs locked (aware t)) i j p u m h =
      claims-Moved i rows j p m h owner secs t locked u
  apply-Moved rows (claims owner secs locked (naive t)) i j p u m h =
      unmoved i rows j p m h (claims owner secs locked (naive t)) _
        (rw (after-claim_naive owner secs locked t rows) m) refl
  apply-Moved rows (renews k owner secs (aware t)) i j p u m h = elim (Bool-cases (secs == 0)) [
    | inl z ↦
        unmoved i rows j p m h (renews k owner secs (aware t)) _
          (rw (renew_refused k owner secs t rows z) m) (ground arith)
    | inr n ↦
        subst (λ r. Moved i (renews k owner secs (aware t)) j p (after r rows))
          (sym (renew_owned k owner secs t rows n))
          (owned-Moved i rows j p m h (renews k owner secs (aware t)) k owner t
            (renewed (t + seconds secs)) (λ r. refl) (ground arith)
            (renewed_held owner t (t + seconds secs) j.status j.available_at j.lease_owner
              j.lease_expires_at j.last_error_code p h)
            refl)
  ]
  apply-Moved rows (renews k owner secs (naive t)) i j p u m h =
      unmoved i rows j p m h (renews k owner secs (naive t)) _
        (rw (after-renew_naive k owner secs t rows) m) refl
  apply-Moved rows (completes k owner (aware t)) i j p u m h =
      owned-Moved i rows j p m h (completes k owner (aware t)) k owner t finished (λ r. refl) refl
        (λ q. refl) refl
  apply-Moved rows (completes k owner (naive t)) i j p u m h =
      unmoved i rows j p m h (completes k owner (naive t)) rows m refl
  apply-Moved rows (fails k owner code (aware t)) i j p u m h =
      owned-Moved i rows j p m h (fails k owner code (aware t)) k owner t (rejected code)
        (λ r. refl) refl (λ q. refl) refl
  apply-Moved rows (fails k owner code (naive t)) i j p u m h =
      unmoved i rows j p m h (fails k owner code (naive t)) rows m refl

  run-Steps :
      (rows : Jobs) (cs : List Call) (i : ℕ) (j : Job) (p : Phase)
      → Unique id_of rows
      → get i rows ≡ some j
      → phase_of j ≡ some p
      → (j' : Job) × (n : ℕ) × (q : Phase) × (get i (run json rows cs) ≡ some j')
        × (phase_of j' ≡ some q)
        × (j'.attempt_count ≡ n + j.attempt_count)
        × Steps i cs p n q
  unfolding run
  run-Steps rows [] i j p u m h = (j, 0, p, m, h, omega arith, here)
  run-Steps rows (c ∷ cs) i j p u m h =
      let one = apply-Moved rows c i j p u m h in
      let (j', n, q, m', h', a, rest) =
        run-Steps (apply json rows c) cs i one.row one.next (apply-Unique json rows c u) one.stored
          one.in_phase in
      (j', one.taken + n, q, m', h', omega (arith, a, one.counted), after_step one.step rest)

-- Who can settle a job, by its phase.
module _ (rows : Jobs) (i : ℕ) (j : Job) (p : Phase) (m : get i rows ≡ some j)
    (h : phase_of j ≡ some p) (owner : String) (t : ℕ) where
  owned_update-granted :
      (values : Job → Job) → is_ok (owned_update i owner t values rows) ≡ holds owner t p
  unfolding owned_update
  owned_update-granted values = ground (arith, owned_by-holds owner t j p h)

  renew-granted :
      (secs : ℕ)
      → is_ok (renew i owner secs (aware t) rows) ≡ grants i (renews i owner secs (aware t)) p
  renew-granted secs = elim (Bool-cases (secs == 0)) [
    | inl z ↦ rw (renew_refused i owner secs t rows z) (ground (arith, ==_refl i))
    | inr n ↦
        rw (renew_owned i owner secs t rows n)
          (ground (arith, ==_refl i, owned_update-granted (renewed (t + seconds secs))))
  ]

  complete-granted :
      is_ok (complete i owner (aware t) rows) ≡ grants i (completes i owner (aware t)) p
  unfolding complete
  complete-granted = owned_update-granted finished ∙ ground (arith, ==_refl i)

  fail-granted :
      (code : String)
      → is_ok (fail i owner code (aware t) rows) ≡ grants i (fails i owner code (aware t)) p
  unfolding fail
  fail-granted code = owned_update-granted (rejected code) ∙ ground (arith, ==_refl i)

-- For one job, the queue implements the machine of its phases: after any calls of any workers the
-- row is in a phase that the machine reaches by a step for each call, the attempts counted are the
-- times that the machine took the job, a worker can claim the row if the machine lets it and the
-- row is not locked, and each of renew, complete and fail returns exactly if the machine grants it.
pub queue_refines :
    (json : JsonLib) (rows : Jobs) (cs : List Call) (i : ℕ) (j : Job) (p : Phase) (owner : String)
    (t secs : ℕ) (code : String) (locked : ℕ → Bool)
    → Unique id_of rows
    → get i rows ≡ some j
    → phase_of j ≡ some p
    → (j' : Job) × (n : ℕ) × (q : Phase) × (get i (run json rows cs) ≡ some j')
      × (phase_of j' ≡ some q)
      × Steps i cs p n q
      × (j'.attempt_count ≡ n + j.attempt_count)
      × (claimable locked t j' ≡ (not (locked j'.id) && free t q))
      × (is_ok (renew i owner secs (aware t) (run json rows cs))
          ≡ grants i (renews i owner secs (aware t)) q)
      × (is_ok (complete i owner (aware t) (run json rows cs))
          ≡ grants i (completes i owner (aware t)) q)
      × (is_ok (fail i owner code (aware t) (run json rows cs))
          ≡ grants i (fails i owner code (aware t)) q)
queue_refines json rows cs i j p owner t secs code locked u m h =
    let (j', n, q, m', h', a, steps) = run-Steps json rows cs i j p u m h in
    let after = run json rows cs in
    (
      j',
      n,
      q,
      m',
      h',
      steps,
      a,
      claimable-free locked t j' q h',
      renew-granted after i j' q m' h' owner t secs,
      complete-granted after i j' q m' h' owner t,
      fail-granted after i j' q m' h' owner t code,
    )
