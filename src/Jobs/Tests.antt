-- ===== src/Jobs/Tests.antt =====
-- The queue on concrete tables: tests of the definitions, and instances of the theorems.
use competitor_scout.Prelude.{
  inr, suc, ◌*◌, ℕ, ◌+◌, String, ◌≡◌, ◌≢◌, refl, Bool, true, false, none, some, arith, not, ◌&&◌,
  naive, aware, ok, err, List, [], ◌∷◌, eq_iff, inl, ◌⊎◌, is_some, if◌then◌else◌, ◌==◌,
}
use competitor_scout.Json.{JsonLib, Value, object, end}
use competitor_scout.Jobs.{
  leased, Job, Jobs, completed, get, claim, claimable, take_lease, renew, complete, fail,
  lease_not_owned, new_job, enqueue_in_session, enqueue, with_key, duplicate_id, naive_clock,
  finished,
}
use competitor_scout.Prelude.Tables.{first_by}
use competitor_scout.Jobs.Claims.{
  Due, waiting, abandoned, NotAfter, as_before, claim-takes, claim-first, claim-finds,
}
use competitor_scout.Jobs.History.{Call, enqueues, claims, renews, completes, fails, run, apply}
use competitor_scout.Jobs.Safety.{lease_exclusive, stale_worker_fenced, final_absorbs, IsConsistent}
use competitor_scout.Jobs.Executor.{
  run_once, returned, run_once_settles, run_once_overdue, still, foreign, renewal,
}
use competitor_scout.Jobs.Machine.{Phase, waits, phase_of, Steps, free, grants, is_ok}
use competitor_scout.Jobs.Refinement.{queue_refines}
use competitor_scout.Jobs.Keys.{keys_unique, rows-IsConsistent}
use competitor_scout.Jobs.Idempotence.{enqueue_idempotent, enqueue_resolves}

-- A codec of the empty object alone.
abbrev codec : JsonLib
codec = record { dumps = λ v. some "{}"; loads = λ s. some (object end) }

abbrev empty_object : Value
empty_object = object end

abbrev early : Job
early = new_job 1 10 "daily_scout" "daily_scout:1" empty_object 100

abbrev late : Job
late = new_job 2 11 "weekly_brief" "weekly_brief:2" empty_object 200

abbrev both : Jobs
both = late ∷ early ∷ []

abbrev nobody : ℕ → Bool
nobody _ = false

abbrev early_leased : Job
early_leased = take_lease "w1" 60000300 early

claimed : claim "w1" 60 nobody (aware 300) both ≡ ok (some early_leased, late ∷ early_leased ∷ [])
unfolding claim first_by
claimed = refl

-- Before either job is available nothing is claimed, and a naive clock raises.
nothing_due : claim "w1" 60 nobody (aware 50) both ≡ ok (none, both)
unfolding claim first_by
nothing_due = refl

naive_refused : claim "w1" 60 nobody (naive 300) both ≡ err naive_clock
unfolding claim first_by
naive_refused = refl

enqueued_now :
    enqueue codec (aware 7) 3 7 "daily_scout" "k" empty_object none []
    ≡ ok (
      new_job 3 7 "daily_scout" "k" empty_object 7,
      new_job 3 7 "daily_scout" "k" empty_object 7 ∷ [],
    )
unfolding enqueue
enqueued_now = refl

claim-takes_example :
    (row : Job) × (get row.id both ≡ some row)
    × (nobody row.id ≡ false)
    × Due 300 row
    × (early_leased.status ≡ leased)
    × (early_leased.lease_owner ≡ some "w1")
    × (early_leased.lease_expires_at ≡ some (300 + 60 * 1000000))
    × (early_leased.attempt_count ≡ suc row.attempt_count)
    × (as_before row early_leased ≡ row)
    × ((k : ℕ)
        → get k (late ∷ early_leased ∷ [])
          ≡ (if row.id == k then some early_leased else get k both))
claim-takes_example =
    claim-takes "w1" 60 nobody 300 both early_leased (late ∷ early_leased ∷ []) (refl, (refl, tt))
      claimed

late-Due : Due 300 late
late-Due = waiting refl (omega arith)

claim-first_example : NotAfter early_leased late
claim-first_example =
    claim-first "w1" 60 nobody 300 both early_leased (late ∷ early_leased ∷ []) 2 late claimed refl
      refl late-Due

-- The lease of a crashed worker is over.
claim-finds_example :
    (result : Job) × (after : Jobs) × (claim "w2" 60 nobody (aware 60000300) (early_leased ∷ [])
      ≡ ok (some result, after))
claim-finds_example =
    claim-finds "w2" 60 nobody 60000300 (early_leased ∷ []) 1 early_leased (omega arith) refl refl
      (abandoned refl refl (omega arith))

abbrev leased_table : Jobs
leased_table = late ∷ early_leased ∷ []

-- Other workers claim the other job and try to finish this one.
abbrev rivals : List Call
rivals =
    claims "w2" 60 nobody (aware 400)
    ∷ completes 1 "w2" (aware 500)
    ∷ fails 1 "w3" "boom" (aware 600)
    ∷ []

w2≢w1 : ◌≢◌ {A = String} "w2" "w1"
w2≢w1 = ground (arith, eq_iff "w2" "w1")

w3≢w1 : ◌≢◌ {A = String} "w3" "w1"
w3≢w1 = ground (arith, eq_iff "w3" "w1")

lease_exclusive_example : get 1 (run codec leased_table rivals) ≡ some early_leased
lease_exclusive_example =
    lease_exclusive codec leased_table rivals 1 early_leased "w1" 60000300 (refl, (refl, tt)) refl
      (refl, refl, refl) (omega arith, (w2≢w1, (w3≢w1, tt)))

-- The lease expires and another worker takes the job over: the first worker is shut out.
abbrev takeover : Jobs
takeover = late ∷ take_lease "w2" 130000000 early_leased ∷ []

stale_worker_fenced_example :
    (renew 1 "w1" 60 (aware 70000001) (run codec takeover (completes 1 "w1" (aware 70000000) ∷ []))
      ≡ err lease_not_owned)
    × (complete 1 "w1"
          (aware 70000001)
          (run codec takeover (completes 1 "w1" (aware 70000000) ∷ []))
        ≡ err lease_not_owned)
    × (fail 1 "w1" "boom"
          (aware 70000001)
          (run codec takeover (completes 1 "w1" (aware 70000000) ∷ []))
        ≡ err lease_not_owned)
stale_worker_fenced_example =
    stale_worker_fenced codec takeover (completes 1 "w1" (aware 70000000) ∷ []) 1
      (take_lease "w2" 130000000 early_leased) "w1" 70000001 60 "boom" (refl, (refl, tt)) refl refl
      (tt, tt) (omega arith)

abbrev done : Job
done = record early { status = completed; attempt_count = 1 }

final_absorbs_example : get 1 (run codec (late ∷ done ∷ []) rivals) ≡ some done
final_absorbs_example =
    final_absorbs codec (late ∷ done ∷ []) rivals 1 done (refl, (refl, tt)) refl (inl refl)

abbrev enqueue_and_claim : List Call
enqueue_and_claim =
    enqueues 1 10 "daily_scout" "daily_scout:1" empty_object (aware 100)
    ∷ claims "w1" 60 nobody (aware 300)
    ∷ []

rows-IsConsistent_example : IsConsistent early_leased
unfolding run claim enqueue_in_session apply first_by
rows-IsConsistent_example = rows-IsConsistent codec enqueue_and_claim 1 early_leased refl

keys_unique_example : ◌≡◌ {A = ℕ} 1 1
unfolding run claim enqueue_in_session apply first_by
keys_unique_example =
    keys_unique codec enqueue_and_claim 1 1 early_leased early_leased refl refl refl

enqueue_idempotent_example :
    (again : Job) × (enqueue_in_session codec 9 12 "daily_scout" "daily_scout:1" empty_object
        (aware 900)
        (run codec (early ∷ []) (claims "w1" 60 nobody (aware 300) ∷ []))
      ≡ ok (again, run codec (early ∷ []) (claims "w1" 60 nobody (aware 300) ∷ [])))
    × (again.id ≡ 1)
unfolding enqueue_in_session
enqueue_idempotent_example =
    enqueue_idempotent codec 1 10 "daily_scout" "daily_scout:1" empty_object 100 [] empty_object
      early (early ∷ []) (claims "w1" 60 nobody (aware 300) ∷ []) 9 12 "daily_scout" empty_object
      empty_object 900 refl refl refl

enqueue_resolves_example :
    ((job : Job) × (rows' : Jobs) × (enqueue_in_session codec 1 10 "daily_scout" "daily_scout:1"
          empty_object
          (aware 100)
          both
        ≡ ok (job, rows'))
      × (with_key "daily_scout:1" rows' ≡ some job))
    ⊎ ((enqueue_in_session codec 1 10 "daily_scout" "daily_scout:1" empty_object (aware 100) both
          ≡ err duplicate_id)
        × (is_some (get 1 both) ≡ true))
unfolding enqueue_in_session
enqueue_resolves_example =
    enqueue_resolves codec 1 10 "daily_scout" "daily_scout:1" empty_object 100 both empty_object
      refl

abbrev known : String → Bool
known job_type = true

-- Its worker renews the lease and ends after it would have been over.
abbrev renewed_in_time : List Call
renewed_in_time = completes 1 "w2" (aware 500) ∷ renews 1 "w1" 60 (aware 20000300) ∷ rivals

run_once_settles_example :
    ((run_once codec "w1" 60 known nobody 300 70000000 renewed_in_time returned both).0 ≡ ok true)
    × (get 1 (run_once codec "w1" 60 known nobody 300 70000000 renewed_in_time returned both).1
        ≡ some (finished early_leased))
run_once_settles_example =
    run_once_settles codec "w1" 60 known nobody 300 70000000 renewed_in_time returned both
      (late ∷ early_leased ∷ []) early_leased 80000300 (refl, (refl, tt)) claimed refl
      (foreign w2≢w1 (
        renewal (omega arith) (omega arith)
          (foreign (omega arith) (foreign w2≢w1 (foreign w3≢w1 still)))))
      (omega arith)

-- Another worker takes the job when the lease is over, and the renewal comes after that.
abbrev taken_over : List Call
taken_over = claims "w2" 60 nobody (aware 60000300) ∷ renews 1 "w1" 60 (aware 60000400) ∷ []

run_once_overdue_example :
    run_once codec "w1" 60 known nobody 300 70000000 taken_over returned both
    ≡ (err lease_not_owned, run codec leased_table taken_over)
run_once_overdue_example =
    run_once_overdue codec "w1" 60 known nobody 300 70000000 taken_over returned both leased_table
      early_leased (refl, (refl, tt)) claimed refl (w2≢w1, (inr (omega arith), tt)) (omega arith)

-- The first job is taken, and renewed by its worker alone.
abbrev take_and_renew : List Call
take_and_renew =
    claims "w1" 60 nobody (aware 300)
    ∷ renews 1 "w2" 60 (aware 400)
    ∷ renews 1 "w1" 90 (aware 500)
    ∷ []

queue_refines_example :
    (j' : Job) × (n : ℕ) × (q : Phase) × (get 1 (run codec both take_and_renew) ≡ some j')
    × (phase_of j' ≡ some q)
    × Steps 1 take_and_renew (waits 100) n q
    × (j'.attempt_count ≡ n + early.attempt_count)
    × (claimable nobody 600 j' ≡ (not (nobody j'.id) && free 600 q))
    × (is_ok (renew 1 "w1" 60 (aware 600) (run codec both take_and_renew))
        ≡ grants 1 (renews 1 "w1" 60 (aware 600)) q)
    × (is_ok (complete 1 "w1" (aware 600) (run codec both take_and_renew))
        ≡ grants 1 (completes 1 "w1" (aware 600)) q)
    × (is_ok (fail 1 "w1" "boom" (aware 600) (run codec both take_and_renew))
        ≡ grants 1 (fails 1 "w1" "boom" (aware 600)) q)
unfolding phase_of
queue_refines_example =
    queue_refines codec both take_and_renew 1 early (waits 100) "w1" 600 60 "boom" nobody
      (refl, (refl, tt)) refl refl
