-- ===== src/Jobs/History.antt =====
-- The queue under any sequence of calls, by any workers and with any clocks: the transactions of
-- concurrent workers in the order in which they commit.
use competitor_scout.Prelude.{
  ℕ, ◌+◌, String, ◌≡◌, refl, Bool, true, some, arith, Moment, naive, aware, seconds, inl, inr, ◌⊎◌,
  List, [], ◌∷◌,
}
use competitor_scout.Json.{Value, JsonLib}
use competitor_scout.Prelude.Tables.{Unique}
use competitor_scout.Jobs.{
  Job, Jobs, get, id_of, owned_update, renew, complete, fail, renewed, finished, rejected,
  enqueue_in_session, claim, claimable, take_lease, current_time,
}
use competitor_scout.Jobs.Enqueue.{get-after-enqueue, after-enqueue-Unique}
use competitor_scout.Jobs.Claims.{get-after-claim, after-claim-Unique}
use competitor_scout.Jobs.Leases.{after, settled, get-owned_update, owned_update-Unique}

-- A call of `enqueue_in_session` or of a method of `JobRepository`, with all that it reads from
-- outside: the fresh id, the database's and the worker's clock, and the rows locked by others.
pub data Call : Type 0 where
  enqueues : ℕ → ℕ → String → String → Value → Moment → Call
  claims : String → ℕ → (ℕ → Bool) → Moment → Call
  renews : ℕ → String → ℕ → Moment → Call
  completes : ℕ → String → Moment → Call
  fails : ℕ → String → String → Moment → Call

module _ (json : JsonLib) where
  unfoldable pub apply : Jobs → Call → Jobs
  apply rows (enqueues id created job_type key payload at) =
      after (enqueue_in_session json id created job_type key payload at rows) rows
  apply rows (claims owner secs locked now) = after (claim owner secs locked now rows) rows
  apply rows (renews job_id owner secs now) = after (renew job_id owner secs now rows) rows
  apply rows (completes job_id owner now) = after (complete job_id owner now rows) rows
  apply rows (fails job_id owner code now) = after (fail job_id owner code now rows) rows

  unfoldable pub run : Jobs → List Call → Jobs
  run rows [] = rows
  run rows (c ∷ cs) = run (apply rows c) cs

-- What a call may make of a row that is in the table.
abbrev pub RowMove : Call → Job → Job → Type 0
RowMove (enqueues _ _ _ _ _ _) j j' = j' ≡ j
RowMove (claims owner secs locked (aware t)) j j' =
    (j' ≡ j) ⊎ ((claimable locked t j ≡ true) × (j' ≡ take_lease owner (t + seconds secs) j))
RowMove (claims _ _ _ (naive _)) j j' = j' ≡ j
RowMove (renews k owner secs (aware t)) j j' =
    (j' ≡ j) ⊎ (j' ≡ settled k owner t (renewed (t + seconds secs)) j)
RowMove (renews _ _ _ (naive _)) j j' = j' ≡ j
RowMove (completes k owner (aware t)) j j' = j' ≡ settled k owner t finished j
RowMove (completes _ _ (naive _)) j j' = j' ≡ j
RowMove (fails k owner code (aware t)) j j' = j' ≡ settled k owner t (rejected code) j
RowMove (fails _ _ _ (naive _)) j j' = j' ≡ j

pub after-renew :
    (k : ℕ) (owner : String) (secs t : ℕ) (rows : Jobs)
    → (after (renew k owner secs (aware t) rows) rows ≡ rows)
      ⊎ (after (renew k owner secs (aware t) rows) rows
          ≡ after (owned_update k owner t (renewed (t + seconds secs)) rows) rows)
unfolding renew
after-renew k owner secs t rows = ground arith

pub after-complete :
    (k : ℕ) (owner : String) (t : ℕ) (rows : Jobs)
    → after (complete k owner (aware t) rows) rows
      ≡ after (owned_update k owner t finished rows) rows
unfolding complete
after-complete k owner t rows = refl

pub after-fail :
    (k : ℕ) (owner code : String) (t : ℕ) (rows : Jobs)
    → after (fail k owner code (aware t) rows) rows
      ≡ after (owned_update k owner t (rejected code) rows) rows
unfolding fail
after-fail k owner code t rows = refl

pub after-claim_naive :
    (owner : String) (secs : ℕ) (locked : ℕ → Bool) (n : ℕ) (rows : Jobs)
    → after (claim owner secs locked (naive n) rows) rows ≡ rows
unfolding claim
after-claim_naive owner secs locked n rows = ground arith

pub after-renew_naive :
    (k : ℕ) (owner : String) (secs n : ℕ) (rows : Jobs)
    → after (renew k owner secs (naive n) rows) rows ≡ rows
unfolding renew
after-renew_naive k owner secs n rows = ground arith

module _ (json : JsonLib) where
  pub apply-Unique : (rows : Jobs) (c : Call) → Unique id_of rows → Unique id_of (apply json rows c)
  unfolding apply
  apply-Unique rows (enqueues id created job_type key payload at) u =
      after-enqueue-Unique json id created job_type key payload at rows u
  apply-Unique rows (claims owner secs locked (aware t)) u =
      after-claim-Unique owner secs locked t rows u
  apply-Unique rows (claims owner secs locked (naive t)) u =
      rw (after-claim_naive owner secs locked t rows) u
  apply-Unique rows (renews k owner secs (aware t)) u = elim (after-renew k owner secs t rows) [
    | inl e ↦ rw e u
    | inr e ↦ rw e (owned_update-Unique k owner t (renewed (t + seconds secs)) (λ j. refl) rows u)
  ]
  apply-Unique rows (renews k owner secs (naive t)) u = rw (after-renew_naive k owner secs t rows) u
  apply-Unique rows (completes k owner (aware t)) u =
      rw after-complete (owned_update-Unique k owner t finished (λ j. refl) rows u)
  apply-Unique rows (completes k owner (naive t)) u = unfold complete current_time in u
  apply-Unique rows (fails k owner code (aware t)) u =
      rw after-fail (owned_update-Unique k owner t (rejected code) (λ j. refl) rows u)
  apply-Unique rows (fails k owner code (naive t)) u = unfold fail current_time in u

  -- A row of the table stays in it, and moves as its call says.
  pub apply-RowMove :
      (rows : Jobs) (c : Call) (i : ℕ) (j : Job)
      → Unique id_of rows
      → get i rows ≡ some j
      → (j' : Job) × (get i (apply json rows c) ≡ some j') × RowMove c j j'
  unfolding apply
  apply-RowMove rows (enqueues id created job_type key payload at) i j u m =
      (j, get-after-enqueue json id created job_type key payload at rows i j m, refl)
  apply-RowMove rows (claims owner secs locked (aware t)) i j u m =
      elim (get-after-claim owner secs locked t rows i j u m) [
        | inl e ↦ (j, e, inl refl)
        | inr (q, e) ↦ (_, e, inr (q, refl))
      ]
  apply-RowMove rows (claims owner secs locked (naive t)) i j u m =
      (j, rw (after-claim_naive owner secs locked t rows) m, refl)
  apply-RowMove rows (renews k owner secs (aware t)) i j u m =
      elim (after-renew k owner secs t rows) [
        | inl e ↦ (j, rw e m, inl refl)
        | inr e ↦ (
          settled k owner t (renewed (t + seconds secs)) j,
          rw e (get-owned_update k owner t (renewed (t + seconds secs)) (λ j. refl) i j rows m),
          inr refl,
        )
      ]
  apply-RowMove rows (renews k owner secs (naive t)) i j u m =
      (j, rw (after-renew_naive k owner secs t rows) m, refl)
  apply-RowMove rows (completes k owner (aware t)) i j u m =
      (_, rw after-complete (get-owned_update k owner t finished (λ j. refl) i j rows m), refl)
  apply-RowMove rows (completes k owner (naive t)) i j u m =
      (j, unfold complete current_time in m, refl)
  apply-RowMove rows (fails k owner code (aware t)) i j u m =
      (_, rw after-fail (get-owned_update k owner t (rejected code) (λ j. refl) i j rows m), refl)
  apply-RowMove rows (fails k owner code (naive t)) i j u m =
      (j, unfold fail current_time in m, refl)

  pub run-Unique :
      (rows : Jobs) (cs : List Call) → Unique id_of rows → Unique id_of (run json rows cs)
  unfolding run
  run-Unique rows [] u = u
  run-Unique rows (c ∷ cs) u = run-Unique (apply json rows c) cs (apply-Unique rows c u)
