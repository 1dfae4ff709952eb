-- ===== src/Jobs/Keys.antt =====
-- What holds of the whole table over every sequence of calls: its rows are consistent, and a
-- deduplication key names one job for ever.
use competitor_scout.Prelude.{
  ℕ, ◌+◌, String, ◌≡◌, refl, ap, ◌∙◌, none, some, arith, ◌==◌, if◌then◌else◌, naive, aware, seconds,
  inl, inr, List, [], ◌∷◌, ◌++◌, eq_iff, Option-cases,
}
use mathlib.Core.Option
use mathlib.Core.Path.{subst}
use competitor_scout.Json.{JsonLib, Value}
use competitor_scout.Prelude.Tables.{Unique, find-append, find-update, find-key}
use competitor_scout.Jobs.{
  Job, Jobs, get, put, id_of, complete, fail, renewed, finished, rejected, take_lease, with_key,
  new_job, owned_update, current_time,
}
use competitor_scout.Jobs.Leases.{after, owned_update_cases}
use competitor_scout.Jobs.Enqueue.{after-enqueue, with_key-append}
use competitor_scout.Jobs.Claims.{after-claim_cases}
use competitor_scout.Jobs.History.{
  Call, enqueues, claims, renews, completes, fails, run, apply, apply-RowMove, apply-Unique,
  after-renew, after-complete, after-fail, after-claim_naive, after-renew_naive,
}
use competitor_scout.Jobs.Safety.{IsConsistent, IsConsistent-keeps}

-- What a call may make of the table.
data TableMove (rows rows' : Jobs) : Type 0 where
  same : rows' ≡ rows → TableMove rows rows'
  changed :
      (k : ℕ) (f : Job → Job)
      → ((j : Job) → (f j).id ≡ j.id)
      → ((j : Job) → (f j).deduplication_key ≡ j.deduplication_key)
      → rows' ≡ put k f rows
      → TableMove rows rows'
  added :
      (id created : ℕ) (job_type key : String) (safe : Value) (t : ℕ)
      → with_key key rows ≡ none
      → rows' ≡ rows ++ new_job id created job_type key safe t ∷ []
      → TableMove rows rows'

owned_update-TableMove :
    (k : ℕ) (owner : String) (t : ℕ) (f : Job → Job) (rows : Jobs)
    → ((j : Job) → (f j).id ≡ j.id)
    → ((j : Job) → (f j).deduplication_key ≡ j.deduplication_key)
    → TableMove rows (after (owned_update k owner t f rows) rows)
owned_update-TableMove k owner t f rows a b = elim (owned_update_cases k owner t f a rows) [
  | inl e ↦ same e
  | inr e ↦ changed k f a b e
]

apply-TableMove : (json : JsonLib) (rows : Jobs) (c : Call) → TableMove rows (apply json rows c)
unfolding apply
apply-TableMove json rows (enqueues id created job_type key payload at) =
    elim (after-enqueue json id created job_type key payload at rows) [
      | inl e ↦ same e
      | inr (t, safe, k, n, e) ↦ added id created job_type key safe t k e
    ]
apply-TableMove json rows (claims owner secs locked (aware t)) =
    elim (after-claim_cases owner secs locked t rows) [
      | inl e ↦ same e
      | inr (k, e) ↦ changed k (take_lease owner (t + seconds secs)) (λ j. refl) (λ j. refl) e
    ]
apply-TableMove json rows (claims owner secs locked (naive t)) =
    same (after-claim_naive owner secs locked t rows)
apply-TableMove json rows (renews k owner secs (aware t)) = elim (after-renew k owner secs t rows) [
  | inl e ↦ same e
  | inr e ↦
      rw e
        (owned_update-TableMove k owner t (renewed (t + seconds secs)) rows (λ j. refl) (λ j. refl))
]
apply-TableMove json rows (renews k owner secs (naive t)) =
    same (after-renew_naive k owner secs t rows)
apply-TableMove json rows (completes k owner (aware t)) =
    rw after-complete (owned_update-TableMove k owner t finished rows (λ j. refl) (λ j. refl))
apply-TableMove json rows (completes k owner (naive t)) =
    same (unfold complete current_time in refl)
apply-TableMove json rows (fails k owner code (aware t)) =
    rw after-fail (owned_update-TableMove k owner t (rejected code) rows (λ j. refl) (λ j. refl))
apply-TableMove json rows (fails k owner code (naive t)) = same (unfold fail current_time in refl)

-- No two jobs have the same deduplication key.
abbrev UniqueKeys : Jobs → Type 0
UniqueKeys [] = Unit
UniqueKeys (j ∷ rows) = (with_key j.deduplication_key rows ≡ none) × UniqueKeys rows

module _ (k : ℕ) (f : Job → Job)
    (keeps : (j : Job) → (f j).deduplication_key ≡ j.deduplication_key) where
  with_key-put :
      (key : String) (rows : Jobs)
      → with_key key (put k f rows)
        ≡ Option.map (λ j. if j.id == k then f j else j) (with_key key rows)
  unfolding with_key
  with_key-put key [] = refl
  with_key-put key (j ∷ rows) = ground (arith, keeps j, with_key-put key rows)

  put-UniqueKeys : (rows : Jobs) → UniqueKeys rows → UniqueKeys (put k f rows)
  put-UniqueKeys [] u = tt
  put-UniqueKeys (j ∷ rows) u =
      (ground (arith, keeps j, with_key-put j.deduplication_key rows), put-UniqueKeys rows u.1)

append-UniqueKeys :
    (rows : Jobs) (j : Job)
    → UniqueKeys rows
    → with_key j.deduplication_key rows ≡ none
    → UniqueKeys (rows ++ j ∷ [])
unfolding with_key
append-UniqueKeys [] j u n = (refl, tt)
append-UniqueKeys (r ∷ rows) j u n = (
  ground (
    arith,
    with_key-append r.deduplication_key rows j,
    eq_iff j.deduplication_key r.deduplication_key,
    eq_iff r.deduplication_key j.deduplication_key,
  ),
  append-UniqueKeys rows j u.1 (ground arith),
)

apply-UniqueKeys :
    (json : JsonLib) (rows : Jobs) (c : Call) → UniqueKeys rows → UniqueKeys (apply json rows c)
apply-UniqueKeys json rows c u = elim (apply-TableMove json rows c) [
  | same e ↦ rw e u
  | changed k f a b e ↦ rw e (put-UniqueKeys k f b rows u)
  | added id created job_type key safe t n e ↦ rw e (append-UniqueKeys rows _ u n)
]

-- With distinct keys, the row with a key is the one that its id finds.
with_key-get :
    (rows : Jobs) (i : ℕ) (j : Job)
    → UniqueKeys rows
    → get i rows ≡ some j
    → with_key j.deduplication_key rows ≡ some j
unfolding with_key
with_key-get [] i j u m = ground arith
with_key-get (r ∷ rows) i j u m =
    ground (arith, with_key-get rows i j, eq_iff r.deduplication_key j.deduplication_key)

module _ (json : JsonLib) where
  run-UniqueKeys : (rows : Jobs) (cs : List Call) → UniqueKeys rows → UniqueKeys (run json rows cs)
  unfolding run
  run-UniqueKeys rows [] u = u
  run-UniqueKeys rows (c ∷ cs) u =
      run-UniqueKeys (apply json rows c) cs (apply-UniqueKeys json rows c u)

  -- In a queue that began empty, two jobs with the same deduplication key are one job.
  pub keys_unique :
      (cs : List Call) (i i' : ℕ) (j j' : Job)
      → get i (run json [] cs) ≡ some j
      → get i' (run json [] cs) ≡ some j'
      → j.deduplication_key ≡ j'.deduplication_key
      → i ≡ i'
  keys_unique cs i i' j j' m m' e =
      let u : UniqueKeys (run json [] cs) = run-UniqueKeys [] cs tt in
      ground (
        arith,
        with_key-get (run json [] cs) i j u m,
        with_key-get (run json [] cs) i' j' u m',
        find-key id_of i (run json [] cs) j m,
        find-key id_of i' (run json [] cs) j' m',
      )

  new_row-IsConsistent :
      (rows : Jobs) (c : Call) (i : ℕ) (j : Job)
      → get i rows ≡ none
      → get i (apply json rows c) ≡ some j
      → IsConsistent j
  new_row-IsConsistent rows c i j n m = elim (apply-TableMove json rows c) [
    | same e ↦ cc (ap (get i) e)
    | changed k f a b e ↦ ground (arith, ap (get i) e, find-update id_of k i f a rows)
    | added id created job_type key safe t q e ↦ ground (
      arith,
      ap (get i) e,
      find-append id_of i rows (new_job id created job_type key safe t ∷ []),
    )
  ]

  apply-IsConsistent :
      (rows : Jobs) (c : Call)
      → Unique id_of rows
      → ((i : ℕ) (j : Job) → get i rows ≡ some j → IsConsistent j)
      → (i : ℕ) (j : Job) → get i (apply json rows c) ≡ some j
      → IsConsistent j
  apply-IsConsistent rows c u all i j' m' = elim (Option-cases (get i rows)) [
    | inl n ↦ new_row-IsConsistent rows c i j' n m'
    | inr (j, m) ↦
        let (j'', m'', v) = apply-RowMove json rows c i j u m in
        let e : j'' ≡ j' = cc (m'', m') in
        subst IsConsistent e (IsConsistent-keeps c j j'' tt v (all i j m))
  ]

  run-IsConsistent :
      (rows : Jobs) (cs : List Call)
      → Unique id_of rows
      → ((i : ℕ) (j : Job) → get i rows ≡ some j → IsConsistent j)
      → (i : ℕ) (j : Job) → get i (run json rows cs) ≡ some j
      → IsConsistent j
  unfolding run
  run-IsConsistent rows [] u all = all
  run-IsConsistent rows (c ∷ cs) u all =
      run-IsConsistent (apply json rows c) cs (apply-Unique json rows c u)
        (apply-IsConsistent rows c u all)

  -- In a queue that began empty, a job has an owner and an expiry exactly while it is leased, and
  -- has been attempted exactly if it is no longer queued.
  pub rows-IsConsistent :
      (cs : List Call) (i : ℕ) (j : Job) → get i (run json [] cs) ≡ some j → IsConsistent j
  rows-IsConsistent cs = run-IsConsistent [] cs tt (λ i j m. cc)

  with_key-apply :
      (rows : Jobs) (c : Call) (key : String) (j : Job)
      → with_key key rows ≡ some j
      → (j' : Job) × (with_key key (apply json rows c) ≡ some j') × (j'.id ≡ j.id)
  with_key-apply rows c key j m = elim (apply-TableMove json rows c) [
    | same e ↦ (j, rw e m, refl)
    | changed k f a b e ↦
        (if j.id == k then f j else j, rw (e, with_key-put k f b key rows, m), ground (arith, a j))
    | added id created job_type key' safe t q e ↦ (j, rw (e, with_key-append key rows _, m), refl)
  ]

  pub with_key-run :
      (rows : Jobs) (cs : List Call) (key : String) (j : Job)
      → with_key key rows ≡ some j
      → (j' : Job) × (with_key key (run json rows cs) ≡ some j') × (j'.id ≡ j.id)
  unfolding run
  with_key-run rows [] key j m = (j, m, refl)
  with_key-run rows (c ∷ cs) key j m =
      let (j₁, m₁, e₁) = with_key-apply rows c key j m in
      let (j₂, m₂, e₂) = with_key-run (apply json rows c) cs key j₁ m₁ in (j₂, m₂, e₂ ∙ e₁)
