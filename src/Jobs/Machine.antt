-- ===== src/Jobs/Machine.antt =====
-- The queue of jobs/repository.py as it looks to one job: a machine with four phases.
use competitor_scout.Prelude.{
  ℕ, ◌+◌, String, str_eq, ◌≡◌, Bool, true, false, not, ◌&&◌, Option, none, some, arith, ◌==◌, ltb,
  leb, aware, seconds, ok, err, List, [], ◌∷◌, Result, eq_iff,
}
use competitor_scout.Jobs.{JobStatus, queued, leased, completed, failed, Job, owned_by, claimable}
use competitor_scout.Jobs.History.{Call, claims, renews, completes, fails}

-- A job waits from an instant on, is held by a worker until an instant, is done, or was given up
-- with a code.
pub data Phase : Type 0 where
  waits : ℕ → Phase
  held : String → ℕ → Phase
  done : Phase
  gave_up : String → Phase

-- A worker may take the job.
abbrev pub free : ℕ → Phase → Bool
free t (waits at) = leb at t
free t (held owner until) = leb until t
free t _ = false

abbrev pub holds : String → ℕ → Phase → Bool
holds owner t (held other until) = str_eq other owner && ltb t until
holds owner t _ = false

-- The machine grants a call on the job to its holder alone.
abbrev pub grants : ℕ → Call → Phase → Bool
grants i (renews k owner secs (aware t)) p = k == i && not (secs == 0) && holds owner t p
grants i (completes k owner (aware t)) p = k == i && holds owner t p
grants i (fails k owner code (aware t)) p = k == i && holds owner t p
grants i _ p = false

abbrev pub granted : Call → Phase → Phase
granted (renews k owner secs (aware t)) p = held owner (t + seconds secs)
granted (completes k owner (aware t)) p = done
granted (fails k owner code (aware t)) p = gave_up code
granted _ p = p

-- A step of the machine, with the number of times that the job is taken in it.
pub data Step (i : ℕ) : Call → Phase → ℕ → Phase → Type 0 where
  stays : {c : Call} {p : Phase} → grants i c p ≡ false → Step i c p 0 p
  acts : {c : Call} {p : Phase} → grants i c p ≡ true → Step i c p 0 (granted c p)
  takes :
      {owner : String} {secs t : ℕ} {locked : ℕ → Bool} {p : Phase}
      → locked i ≡ false
      → free t p ≡ true
      → Step i (claims owner secs locked (aware t)) p 1 (held owner (t + seconds secs))

pub data Steps (i : ℕ) : List Call → Phase → ℕ → Phase → Type 0 where
  here : {p : Phase} → Steps i [] p 0 p
  after_step :
      {c : Call} {cs : List Call} {p q r : Phase} {n m : ℕ}
      → Step i c p n q
      → Steps i cs q m r
      → Steps i (c ∷ cs) p (n + m) r

-- A call returned.
abbrev pub is_ok {ℓ} : {E A : Type ℓ} → Result E A → Bool
is_ok (ok a) = true
is_ok (err e) = false

-- The phase of a row, by its columns.
abbrev pub phase : JobStatus → ℕ → Option String → Option ℕ → Option String → Option Phase
phase queued at owner expires code = some (waits at)
phase leased at (some owner) (some expires) code = some (held owner expires)
phase completed at owner expires code = some done
phase failed at owner expires (some code) = some (gave_up code)
phase _ _ _ _ _ = none

unfoldable pub phase_of : Job → Option Phase
phase_of j = phase j.status j.available_at j.lease_owner j.lease_expires_at j.last_error_code

pub owned_by-holds :
    (owner : String) (t : ℕ) (j : Job) (p : Phase)
    → phase_of j ≡ some p
    → owned_by owner t j ≡ holds owner t p
unfolding phase_of owned_by
owned_by-holds owner t j p h = ground arith

pub claimable-free :
    (locked : ℕ → Bool) (t : ℕ) (j : Job) (p : Phase)
    → phase_of j ≡ some p
    → claimable locked t j ≡ (not (locked j.id) && free t p)
unfolding phase_of claimable
claimable-free locked t j p h = ground arith

pub renewed_held :
    (owner : String) (t until : ℕ) (s : JobStatus) (at : ℕ) (o : Option String) (e : Option ℕ)
    (code : Option String) (p : Phase)
    → phase s at o e code ≡ some p
    → holds owner t p ≡ true
    → phase s at o (some until) code ≡ some (held owner until)
renewed_held owner t until leased at (some v) (some e) code p h q = ground (arith, eq_iff v owner)
renewed_held owner t until leased at (some v) none code p h q = ground arith
renewed_held owner t until leased at none e code p h q = ground arith
renewed_held owner t until queued at o e code p h q = ground arith
renewed_held owner t until completed at o e code p h q = ground arith
renewed_held owner t until failed at o e code p h q = ground arith
