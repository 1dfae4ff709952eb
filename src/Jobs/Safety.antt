-- ===== src/Jobs/Safety.antt =====
-- What holds of a job over every sequence of calls.
use competitor_scout.Prelude.{
  ℕ, ◌<◌, String, ◌≡◌, ◌≢◌, refl, true, false, Option, none, some, arith, naive, aware, err, ◌⊎◌,
  List, [], ◌∷◌, eq_iff, opt_eq, is_some, All,
}
use competitor_scout.Json.{JsonLib}
use competitor_scout.Prelude.Tables.{Unique}
use competitor_scout.Jobs.{
  JobStatus, queued, leased, completed, failed, Job, Jobs, get, id_of, owned_by, renew, complete,
  fail, lease_not_owned, claimable,
}
use competitor_scout.Jobs.Leases.{lost_lease_refused}
use competitor_scout.Jobs.History.{
  Call, enqueues, claims, renews, completes, fails, run, apply, RowMove, apply-RowMove,
  apply-Unique,
}

module _ (json : JsonLib) where
  -- An invariant of single rows under calls of a kind is an invariant of every sequence of them.
  pub run_row :
      (P : Job → Type 0) (K : Call → Type 0)
      → ((c : Call) (j j' : Job) → K c → RowMove c j j' → P j → P j')
      → (rows : Jobs) (cs : List Call) (i : ℕ) (j : Job) → Unique id_of rows
      → All K cs
      → get i rows ≡ some j
      → P j
      → (j' : Job) × (get i (run json rows cs) ≡ some j') × P j'
  unfolding run
  run_row P K keep rows [] i j u a m h = (j, m, h)
  run_row P K keep rows (c ∷ cs) i j u a m h =
      let (j', m', v) = apply-RowMove json rows c i j u m in
      run_row P K keep (apply json rows c) cs i j' (apply-Unique json rows c u) a.1 m'
        (keep c j j' a.0 v h)

-- A call by a worker other than `owner`, or a claim at a time before `expires`.
abbrev pub ForeignBefore : String → ℕ → Call → Type 0
ForeignBefore owner expires (claims _ _ _ (aware t)) = t < expires
ForeignBefore owner expires (renews _ other _ _) = other ≢ owner
ForeignBefore owner expires (completes _ other _) = other ≢ owner
ForeignBefore owner expires (fails _ other _ _) = other ≢ owner
ForeignBefore owner expires _ = Unit

abbrev Leased : String → ℕ → Job → Type 0
Leased owner expires j =
    (j.status ≡ leased) × (j.lease_owner ≡ some owner) × (j.lease_expires_at ≡ some expires)

foreign_keeps :
    (owner : String) (expires : ℕ) (row : Job) (c : Call) (j j' : Job)
    → ForeignBefore owner expires c
    → RowMove c j j'
    → (j ≡ row) × Leased owner expires j
    → (j' ≡ row) × Leased owner expires j'
unfolding claimable owned_by
foreign_keeps owner expires row (enqueues _ _ _ _ _ _) j j' f v h = rw v h
foreign_keeps owner expires row (claims w secs locked (aware t)) j j' f v h = ground arith
foreign_keeps owner expires row (claims _ _ _ (naive _)) j j' f v h = rw v h
foreign_keeps owner expires row (renews k w secs (aware t)) j j' f v h =
    ground (arith, eq_iff owner w)
foreign_keeps owner expires row (renews _ _ _ (naive _)) j j' f v h = rw v h
foreign_keeps owner expires row (completes k w (aware t)) j j' f v h =
    ground (arith, eq_iff owner w)
foreign_keeps owner expires row (completes _ _ (naive _)) j j' f v h = rw v h
foreign_keeps owner expires row (fails k w code (aware t)) j j' f v h =
    ground (arith, eq_iff owner w)
foreign_keeps owner expires row (fails _ _ _ (naive _)) j j' f v h = rw v h

-- A worker that has not claimed.
abbrev pub NoClaimBy : String → Call → Type 0
NoClaimBy owner (claims other _ _ _) = other ≢ owner
NoClaimBy owner _ = Unit

no_claim_keeps :
    (owner : String) (c : Call) (j j' : Job)
    → NoClaimBy owner c
    → RowMove c j j'
    → opt_eq j.lease_owner owner ≡ false
    → opt_eq j'.lease_owner owner ≡ false
unfolding owned_by
no_claim_keeps owner (enqueues _ _ _ _ _ _) j j' f v h = rw v h
no_claim_keeps owner (claims w secs locked (aware t)) j j' f v h = ground (arith, eq_iff w owner)
no_claim_keeps owner (claims _ _ _ (naive _)) j j' f v h = rw v h
no_claim_keeps owner (renews k w secs (aware t)) j j' f v h = ground arith
no_claim_keeps owner (renews _ _ _ (naive _)) j j' f v h = rw v h
no_claim_keeps owner (completes k w (aware t)) j j' f v h = ground arith
no_claim_keeps owner (completes _ _ (naive _)) j j' f v h = rw v h
no_claim_keeps owner (fails k w code (aware t)) j j' f v h = ground arith
no_claim_keeps owner (fails _ _ _ (naive _)) j j' f v h = rw v h

abbrev pub IsFinal : JobStatus → Type 0
IsFinal s = (s ≡ completed) ⊎ (s ≡ failed)

IsFinal-keeps :
    (row : Job) (c : Call) (j j' : Job)
    → Unit {0}
    → RowMove c j j'
    → (j ≡ row) × IsFinal j.status
    → (j' ≡ row) × IsFinal j'.status
unfolding claimable owned_by
IsFinal-keeps row (enqueues _ _ _ _ _ _) j j' f v h = rw v h
IsFinal-keeps row (claims w secs locked (aware t)) j j' f v h = ground arith
IsFinal-keeps row (claims _ _ _ (naive _)) j j' f v h = rw v h
IsFinal-keeps row (renews k w secs (aware t)) j j' f v h = ground arith
IsFinal-keeps row (renews _ _ _ (naive _)) j j' f v h = rw v h
IsFinal-keeps row (completes k w (aware t)) j j' f v h = ground arith
IsFinal-keeps row (completes _ _ (naive _)) j j' f v h = rw v h
IsFinal-keeps row (fails k w code (aware t)) j j' f v h = ground arith
IsFinal-keeps row (fails _ _ _ (naive _)) j j' f v h = rw v h

-- What a row's columns say together.
abbrev pub LeaseFields : JobStatus → Option String → Option ℕ → ℕ → Type 0
LeaseFields queued owner expires attempts = (owner ≡ none) × (expires ≡ none) × (attempts ≡ 0)
LeaseFields leased owner expires attempts =
    (is_some owner ≡ true) × (is_some expires ≡ true) × (0 < attempts)
LeaseFields _ owner expires attempts = (owner ≡ none) × (expires ≡ none) × (0 < attempts)

abbrev pub IsConsistent : Job → Type 0
IsConsistent j = LeaseFields j.status j.lease_owner j.lease_expires_at j.attempt_count

pub IsConsistent-keeps :
    (c : Call) (j j' : Job) → Unit {0} → RowMove c j j' → IsConsistent j → IsConsistent j'
unfolding claimable owned_by
IsConsistent-keeps (enqueues _ _ _ _ _ _) j j' f v h = rw v h
IsConsistent-keeps (claims w secs locked (aware t)) j j' f v h = ground arith
IsConsistent-keeps (claims _ _ _ (naive _)) j j' f v h = rw v h
IsConsistent-keeps (renews k w secs (aware t)) j j' f v h = ground arith
IsConsistent-keeps (renews _ _ _ (naive _)) j j' f v h = rw v h
IsConsistent-keeps (completes k w (aware t)) j j' f v h = ground arith
IsConsistent-keeps (completes _ _ (naive _)) j j' f v h = rw v h
IsConsistent-keeps (fails k w code (aware t)) j j' f v h = ground arith
IsConsistent-keeps (fails _ _ _ (naive _)) j j' f v h = rw v h

All-Unit : (cs : List Call) → All (λ _. Unit {0}) cs
All-Unit [] = tt
All-Unit (c ∷ cs) = (tt, All-Unit cs)

module _ (json : JsonLib) (rows : Jobs) (cs : List Call) (i : ℕ) (j : Job) where
  -- While a worker holds a lease that has not expired, the row of the job stays exactly as it is
  -- under any enqueues, any claims at times before the expiry, and any calls of other workers.
  pub lease_exclusive :
      (owner : String) (expires : ℕ)
      → Unique id_of rows
      → get i rows ≡ some j
      → (j.status ≡ leased) × (j.lease_owner ≡ some owner) × (j.lease_expires_at ≡ some expires)
      → All (ForeignBefore owner expires) cs
      → get i (run json rows cs) ≡ some j
  lease_exclusive owner expires u m h a =
      let (j', m', v) =
        run_row json (λ r. (r ≡ j) × Leased owner expires r) (ForeignBefore owner expires)
          (foreign_keeps owner expires j) rows cs i j u a m (refl, h) in
      rw m' (rw v.0)

  -- A worker that does not hold the job's lease and does not claim again has every later call on
  -- the job refused, at whatever time it makes it.
  pub stale_worker_fenced :
      (owner : String) (t lease_seconds : ℕ) (code : String)
      → Unique id_of rows
      → get i rows ≡ some j
      → opt_eq j.lease_owner owner ≡ false
      → All (NoClaimBy owner) cs
      → 0 < lease_seconds
      → (renew i owner lease_seconds (aware t) (run json rows cs) ≡ err lease_not_owned)
        × (complete i owner (aware t) (run json rows cs) ≡ err lease_not_owned)
        × (fail i owner code (aware t) (run json rows cs) ≡ err lease_not_owned)
  unfolding owned_by
  stale_worker_fenced owner t lease_seconds code u m h a positive =
      let (j', m', v) =
        run_row json (λ r. opt_eq r.lease_owner owner ≡ false) (NoClaimBy owner)
          (no_claim_keeps owner) rows cs i j u a m h in
      lost_lease_refused i owner t (run json rows cs) j' lease_seconds code positive m'
        (ground arith)

  -- A completed or failed job stays exactly as it is, whatever calls follow.
  pub final_absorbs :
      Unique id_of rows → get i rows ≡ some j → IsFinal j.status → get i (run json rows cs) ≡ some j
  final_absorbs u m h =
      let (j', m', v) =
        run_row json (λ r. (r ≡ j) × IsFinal r.status) (λ _. Unit) (IsFinal-keeps j) rows cs i j u
          (All-Unit cs) m (refl, h) in
      rw m' (rw v.0)
