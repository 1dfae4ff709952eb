-- ===== src/Jobs/Claims.antt =====
-- What `JobRepository.claim` takes.
use competitor_scout.Prelude.{
  ℕ, ◌+◌, ◌<◌, String, ◌≡◌, refl, Bool, true, false, Option, none, some, arith, ◌==◌, if◌then◌else◌,
  ap, suc, ltb, ◌≤◌, ◌*◌, aware, seconds, ok, err, Option-cases, inl, inr, ◌⊎◌, Bool-cases,
}
use competitor_scout.Prelude.Tables.{
  Unique, find-update, update-Unique, first_by, first_by-sat, first_by-find, first_by-least,
  first_by-none,
}
use competitor_scout.Prelude.Orders.{ascending₃-IsOrder}
use competitor_scout.Jobs.Leases.{after}
use competitor_scout.Jobs.{
  JobStatus, queued, leased, completed, failed, Job, Jobs, get, put, id_of, claim, claimable,
  claim_order, take_lease, lease_not_positive,
}

-- A row that waits and is due, or whose lease is over.
pub data Due (t : ℕ) (j : Job) : Type 0 where
  waiting : j.status ≡ queued → j.available_at ≤ t → Due t j
  abandoned : {e : ℕ} → j.status ≡ leased → j.lease_expires_at ≡ some e → e ≤ t → Due t j

claimable-Due :
    (locked : ℕ → Bool) (t : ℕ) (j : Job)
    → claimable locked t j ≡ true
    → (locked j.id ≡ false) × Due t j
unfolding claimable
claimable-Due locked t j h = (ground arith, due j.status refl j.lease_expires_at refl)
  where
    due : (s : JobStatus) → j.status ≡ s → (e : Option ℕ) → j.lease_expires_at ≡ e → Due t j
    due queued p e q = waiting p (ground arith)
    due leased p (some e) q = abandoned p q (ground arith)
    due leased p none q = ground arith
    due completed p e q = ground arith
    due failed p e q = ground arith

Due-claimable :
    (locked : ℕ → Bool) (t : ℕ) (j : Job)
    → locked j.id ≡ false
    → Due t j
    → claimable locked t j ≡ true
unfolding claimable
Due-claimable locked t j free (waiting p q) = ground arith
Due-claimable locked t j free (abandoned p e q) = ground arith

-- The order of availability, creation and id.
pub data NotAfter (x y : Job) : Type 0 where
  sooner : x.available_at < y.available_at → NotAfter x y
  older : x.available_at ≡ y.available_at → x.created_at < y.created_at → NotAfter x y
  smaller_id :
      x.available_at ≡ y.available_at → x.created_at ≡ y.created_at → x.id ≤ y.id → NotAfter x y

claim_order-NotAfter : (x y : Job) → claim_order y x ≡ false → NotAfter x y
claim_order-NotAfter x y h = elim (Bool-cases (ltb x.available_at y.available_at)) [
  | inl s ↦ sooner (ground arith)
  | inr s ↦ elim (Bool-cases (ltb x.created_at y.created_at)) [
    | inl o ↦ older (ground arith) (ground arith)
    | inr o ↦ smaller_id (ground arith) (ground arith) (ground arith)
  ]
]

-- A claimed row with the columns that a claim writes as they were.
abbrev pub as_before : Job → Job → Job
as_before row result = record result {
  status = row.status;
  lease_owner = row.lease_owner;
  lease_expires_at = row.lease_expires_at;
  attempt_count = row.attempt_count;
}

module _ (owner : String) (lease_seconds : ℕ) (locked : ℕ → Bool) (t : ℕ) (rows : Jobs) where
  abbrev pub candidate : Option Job
  candidate = first_by claim_order (claimable locked t) rows

  claim-candidate :
      (j : Job)
      → 0 < lease_seconds
      → candidate ≡ some j
      → claim owner lease_seconds locked (aware t) rows
        ≡ ok (
          some (take_lease owner (t + seconds lease_seconds) j),
          put j.id (take_lease owner (t + seconds lease_seconds)) rows,
        )
  unfolding claim
  claim-candidate j positive e = ground arith

  claim-no_candidate :
      0 < lease_seconds
      → candidate ≡ none
      → claim owner lease_seconds locked (aware t) rows ≡ ok (none, rows)
  unfolding claim
  claim-no_candidate positive e = ground arith

  pub claim_refused :
      (lease_seconds == 0) ≡ true
      → claim owner lease_seconds locked (aware t) rows ≡ err lease_not_positive
  unfolding claim
  claim_refused z = ground arith

  -- A claim that returns has a positive lease, and returns what the candidate gives.
  claim_inversion :
      (o : Option Job) (after : Jobs)
      → claim owner lease_seconds locked (aware t) rows ≡ ok (o, after)
      → 0 < lease_seconds
  unfolding claim
  claim_inversion o after h = ground arith

  candidate_of_claim :
      (result : Job) (after : Jobs)
      → claim owner lease_seconds locked (aware t) rows ≡ ok (some result, after)
      → (j : Job) × (candidate ≡ some j)
        × (result ≡ take_lease owner (t + seconds lease_seconds) j)
        × (after ≡ put j.id (take_lease owner (t + seconds lease_seconds)) rows)
  candidate_of_claim result after h =
      let positive = claim_inversion (some result) after h in
      elim (Option-cases candidate) [
        | inl e ↦ cc (claim-no_candidate positive e)
        | inr (j, e) ↦ (j, e, cc (claim-candidate j positive e), cc (claim-candidate j positive e))
      ]

  pub claim_taken :
      (result : Job) (after : Jobs)
      → Unique id_of rows
      → claim owner lease_seconds locked (aware t) rows ≡ ok (some result, after)
      → (row : Job) × (get row.id rows ≡ some row)
        × (claimable locked t row ≡ true)
        × (result ≡ take_lease owner (t + seconds lease_seconds) row)
        × ((k : ℕ) → get k after ≡ (if row.id == k then some result else get k rows))
  claim_taken result after u h =
      let (j, e, r, a) = candidate_of_claim result after h in
      let stored : get j.id rows ≡ some j = first_by-find claim_order _ id_of rows j u e in
      (
        j,
        stored,
        first_by-sat claim_order _ rows j e,
        r,
        λ k. ground (
          arith,
          find-update id_of j.id k (take_lease owner (t + seconds lease_seconds)) (λ x. refl) rows,
        ),
      )

  -- A claim at an aware time that returns a row has found it in the table, not locked, and waiting
  -- and due or leased with the lease over. The row it returns is leased to the worker until the end
  -- of the new lease, has one more attempt than it had, and is otherwise as it was; under its key the
  -- table holds that row, and all other rows are as before.
  pub claim-takes :
      (result : Job) (after : Jobs)
      → Unique id_of rows
      → claim owner lease_seconds locked (aware t) rows ≡ ok (some result, after)
      → (row : Job) × (get row.id rows ≡ some row)
        × (locked row.id ≡ false)
        × Due t row
        × (result.status ≡ leased)
        × (result.lease_owner ≡ some owner)
        × (result.lease_expires_at ≡ some (t + lease_seconds * 1000000))
        × (result.attempt_count ≡ suc row.attempt_count)
        × (as_before row result ≡ row)
        × ((k : ℕ) → get k after ≡ (if row.id == k then some result else get k rows))
  claim-takes result after u h =
      let (row, m, c, r, finds) = claim_taken result after u h in
      let (free, due) = claimable-Due locked t row c in
      (
        row,
        m,
        free,
        due,
        ground (arith, r),
        ground (arith, r),
        ground (arith, r),
        ground (arith, r),
        ap (as_before row) r,
        finds,
      )

  -- A claimed row was available before every other row that is not locked, and is waiting and due or
  -- leased with the lease over; or at the same time and created before it; or both at the same time,
  -- and its id is not above the other's.
  pub claim-first :
      (result : Job) (after : Jobs) (k : ℕ) (other : Job)
      → claim owner lease_seconds locked (aware t) rows ≡ ok (some result, after)
      → get k rows ≡ some other
      → locked other.id ≡ false
      → Due t other
      → NotAfter result other
  claim-first result after k other h m free due =
      let (j, e, r, a) = candidate_of_claim result after h in
      claim_order-NotAfter result other (
        rw r (
          first_by-least claim_order _
            (ascending₃-IsOrder (λ j. j.available_at) (λ j. j.created_at) id_of) id_of rows j k
            other e m (Due-claimable locked t other free due)))

  -- Where some row is not locked, and waiting and due or leased with the lease over, a claim with a
  -- positive lease returns a row.
  pub claim-finds :
      (k : ℕ) (other : Job)
      → 0 < lease_seconds
      → get k rows ≡ some other
      → locked other.id ≡ false
      → Due t other
      → (result : Job) × (after : Jobs) × (claim owner lease_seconds locked (aware t) rows
          ≡ ok (some result, after))
  claim-finds k other positive m free due = elim (Option-cases candidate) [
    | inl e ↦
        let q = Due-claimable locked t other free due in
        cc (first_by-none claim_order _ id_of rows k other e m)
    | inr (j, e) ↦ (_, _, claim-candidate j positive e)
  ]

  -- A claim that returns no row changes nothing.
  pub claim-none_unchanged :
      (after : Jobs)
      → claim owner lease_seconds locked (aware t) rows ≡ ok (none, after)
      → after ≡ rows
  claim-none_unchanged after h =
      let positive = claim_inversion none after h in
      elim (Option-cases candidate) [
        | inl e ↦ cc (claim-no_candidate positive e)
        | inr (j, e) ↦ cc (claim-candidate j positive e)
      ]

  -- The row with a given id after a claim.
  pub get-after-claim :
      (i : ℕ) (j : Job)
      → Unique id_of rows
      → get i rows ≡ some j
      → (get i (after (claim owner lease_seconds locked (aware t) rows) rows) ≡ some j)
        ⊎ ((claimable locked t j ≡ true)
            × (get i (after (claim owner lease_seconds locked (aware t) rows) rows)
                ≡ some (take_lease owner (t + seconds lease_seconds) j)))
  get-after-claim i j u m = elim (Bool-cases (lease_seconds == 0)) [
    | inl z ↦ inl (rw (claim_refused z) m)
    | inr p ↦ elim (Option-cases candidate) [
      | inl e ↦ inl (rw (claim-no_candidate (ground arith) e) m)
      | inr (row, e) ↦
          let stored = first_by-find claim_order _ id_of rows row u e in
          let chosen = first_by-sat claim_order _ rows row e in
          let moved =
            find-update id_of row.id i (take_lease owner (t + seconds lease_seconds)) (λ x. refl)
              rows in
          let done = claim-candidate row (ground arith) e in
          elim (Bool-cases (row.id == i)) [
            | inr n ↦ inl (rw done (ground arith))
            | inl y ↦ inr (ground arith, rw done (ground arith))
          ]
    ]
  ]

  pub after-claim-Unique :
      Unique id_of rows
      → Unique id_of (after (claim owner lease_seconds locked (aware t) rows) rows)
  after-claim-Unique u = elim (Bool-cases (lease_seconds == 0)) [
    | inl z ↦ rw (claim_refused z) u
    | inr p ↦ elim (Option-cases candidate) [
      | inl e ↦ rw (claim-no_candidate (ground arith) e) u
      | inr (row, e) ↦ rw (claim-candidate row (ground arith) e) (
          update-Unique id_of row.id (take_lease owner (t + seconds lease_seconds)) (λ x. refl) rows
            u)
    ]
  ]

  pub after-claim_cases :
      (after (claim owner lease_seconds locked (aware t) rows) rows ≡ rows)
      ⊎ ((k : ℕ) × (after (claim owner lease_seconds locked (aware t) rows) rows
            ≡ put k (take_lease owner (t + seconds lease_seconds)) rows))
  after-claim_cases = elim (Bool-cases (lease_seconds == 0)) [
    | inl z ↦ inl (rw (claim_refused z))
    | inr p ↦ elim (Option-cases candidate) [
      | inl e ↦ inl (rw (claim-no_candidate (ground arith) e))
      | inr (row, e) ↦ inr (row.id, rw (claim-candidate row (ground arith) e))
    ]
  ]
