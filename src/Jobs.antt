-- ===== src/Jobs.antt =====
-- apps/backend/src/competitor_scout/models/jobs.py and jobs/repository.py: the job queue.
-- The table is the list of its rows. A call is one transaction: it returns its result and the new
-- table, and a call that raises is rolled back. Instants are microseconds of UTC. The column
-- `updated_at` is left out: the database writes it and no code reads it.
pub mod Leases
pub mod Claims
pub mod Enqueue
pub mod History
pub mod Safety
pub mod Keys
pub mod Idempotence
pub mod Machine
pub mod Refinement
pub mod Executor
mod Tests
use competitor_scout.Prelude.{
  ℕ, zero, suc, ◌+◌, String, Bool, true, false, ◌&&◌, ◌||◌, not, Option, none, some, List, [], ◌∷◌,
  ◌++◌, ltb, leb, ◌==◌, if◌then◌else◌, opt_eq, opt_le, opt_gt, str_eq, Moment, naive, aware,
  seconds, Result, ok, err, ◌>>=◌, ◌>>◌, guard, is_some,
}
use competitor_scout.Prelude.Tables.{find, update, first_by}
use competitor_scout.Prelude.Orders.{ascending₃}
use competitor_scout.Json.{Value, object, Fields, JsonLib}

pub data JobStatus : Type 0 where
  queued leased completed failed : JobStatus

pub record Job : Type 0 where
  pub id : ℕ
  pub job_type : String
  pub deduplication_key : String
  pub payload : Value
  pub status : JobStatus
  pub available_at : ℕ
  pub lease_owner : Option String
  pub lease_expires_at : Option ℕ
  pub attempt_count : ℕ
  pub last_error_code : Option String
  pub created_at : ℕ

-- The exceptions: the `ValueError`s by their messages, `LeaseOwnershipError`, the `RuntimeError`
-- of an enqueue that found no row, and the database's violation of the primary key.
pub data JobError : Type 0 where
  payload_not_json payload_not_object naive_available_at naive_clock lease_not_positive : JobError
  lease_not_owned enqueue_unresolved duplicate_id : JobError

abbrev pub Jobs : Type 0
Jobs = List Job

abbrev pub is_queued : JobStatus → Bool
is_queued queued = true
is_queued _ = false

abbrev pub is_leased : JobStatus → Bool
is_leased leased = true
is_leased _ = false

abbrev pub id_of : Job → ℕ
id_of j = j.id

-- SELECT ... WHERE id = k; UPDATE ... WHERE id = k.
abbrev pub get : ℕ → Jobs → Option Job
get = find id_of

abbrev pub put : ℕ → (Job → Job) → Jobs → Jobs
put = update id_of

-- SELECT ... WHERE deduplication_key = key.
unfoldable pub with_key : String → Jobs → Option Job
with_key key [] = none
with_key key (j ∷ rows) = if str_eq j.deduplication_key key then some j else with_key key rows

as_object : Value → Result JobError Value
as_object (object fields) = ok (object fields)
as_object _ = err payload_not_object

unfoldable pub json_safe_payload : JsonLib → Value → Result JobError Value
unfolding as_object
json_safe_payload json payload = elim (json.dumps payload) [
  | none ↦ err payload_not_json
  | some serialized ↦ elim (json.loads serialized) [
    | none ↦ err payload_not_json
    | some decoded ↦ as_object decoded
  ]
]

utc : JobError → Moment → Result JobError ℕ
utc e (naive t) = err e
utc e (aware t) = ok t

-- The columns that an INSERT gives, with the defaults of the others.
abbrev pub new_job : ℕ → ℕ → String → String → Value → ℕ → Job
new_job id created job_type key payload available_at = record {
  id = id;
  job_type = job_type;
  deduplication_key = key;
  payload = payload;
  status = queued;
  available_at = available_at;
  lease_owner = none;
  lease_expires_at = none;
  attempt_count = 0;
  last_error_code = none;
  created_at = created;
}

-- INSERT ... ON CONFLICT (deduplication_key) DO NOTHING RETURNING. A conflict on the primary key
-- is not covered by the clause and raises.
insert_job : Job → Jobs → Result JobError (Option Job × Jobs)
unfolding with_key
insert_job j rows =
    if is_some (with_key j.deduplication_key rows)
    then ok (none, rows)
    else if is_some (get j.id rows)
    then err duplicate_id
    else ok (some j, rows ++ j ∷ [])

resolve : String → Option Job × Jobs → Result JobError (Job × Jobs)
unfolding with_key
resolve key (some j, rows) = ok (j, rows)
resolve key (none, rows) = elim (with_key key rows) [
  | none ↦ err enqueue_unresolved
  | some j ↦ ok (j, rows)
]

-- `id` is the `uuid4` of the new row and `created` the database's clock.
unfoldable pub enqueue_in_session :
    JsonLib → ℕ → ℕ → String → String → Value → Moment → Jobs → Result JobError (Job × Jobs)
unfolding utc json_safe_payload insert_job resolve
enqueue_in_session json id created job_type key payload available_at rows = do
  at ← utc naive_available_at available_at
  safe ← json_safe_payload json payload
  inserted ← insert_job (new_job id created job_type key safe at) rows
  resolve key inserted

-- `JobRepository._current_time`.
current_time : Moment → Result JobError ℕ
unfolding utc
current_time now = utc naive_clock now

-- `JobRepository.enqueue`: the given time, or the clock's.
unfoldable pub enqueue :
    JsonLib
    → Moment
    → ℕ
    → ℕ
    → String
    → String
    → Value
    → Option Moment
    → Jobs
    → Result JobError (Job × Jobs)
unfolding current_time json_safe_payload enqueue_in_session utc
enqueue json now id created job_type key payload available_at rows = do
  safe ← json_safe_payload json payload
  at ← elim available_at [ none ↦ current_time now | some m ↦ utc naive_available_at m ]
  enqueue_in_session json id created job_type key safe (aware at) rows

-- The WHERE clause of `claim`; `locked` tells the rows that other transactions have locked.
unfoldable pub claimable : (ℕ → Bool) → ℕ → Job → Bool
claimable locked now j =
    not (locked j.id)
    && ((is_queued j.status && leb j.available_at now)
        || (is_leased j.status && opt_le j.lease_expires_at now))

abbrev pub claim_order : Job → Job → Bool
claim_order = ascending₃ (λ j. j.available_at) (λ j. j.created_at) id_of

abbrev pub take_lease : String → ℕ → Job → Job
take_lease owner expires j = record j {
  status = leased;
  lease_owner = some owner;
  lease_expires_at = some expires;
  attempt_count = j.attempt_count + 1;
}

lease_row : String → ℕ → Option Job → Jobs → Option Job × Jobs
lease_row owner expires none rows = (none, rows)
lease_row owner expires (some j) rows =
    (some (take_lease owner expires j), put j.id (take_lease owner expires) rows)

-- `lease_seconds` is a natural number: a negative one takes the branch of 0.
unfoldable pub claim : String → ℕ → (ℕ → Bool) → Moment → Jobs → Result JobError (Option Job × Jobs)
unfolding current_time claimable lease_row
claim owner lease_seconds locked now rows = do
  guard (not (lease_seconds == 0)) lease_not_positive
  t ← current_time now
  ok (
      lease_row owner (t + seconds lease_seconds) (first_by claim_order (claimable locked t) rows)
        rows)

-- The WHERE clause of `_owned_update`.
unfoldable pub owned_by : String → ℕ → Job → Bool
owned_by owner now j =
    is_leased j.status && (opt_eq j.lease_owner owner && opt_gt j.lease_expires_at now)

-- UPDATE ... RETURNING, with `one_or_none`: the primary key selects at most one row.
unfoldable pub owned_update : ℕ → String → ℕ → (Job → Job) → Jobs → Result JobError (Job × Jobs)
unfolding owned_by
owned_update job_id owner now values rows = elim (get job_id rows) [
  | none ↦ err lease_not_owned
  | some j ↦
      if owned_by owner now j then ok (values j, put job_id values rows) else err lease_not_owned
]

abbrev pub renewed : ℕ → Job → Job
renewed expires j = record j { lease_expires_at = some expires }

abbrev pub finished : Job → Job
finished j = record j { status = completed; lease_owner = none; lease_expires_at = none }

abbrev pub rejected : String → Job → Job
rejected error_code j = record j {
  status = failed;
  lease_owner = none;
  lease_expires_at = none;
  last_error_code = some error_code;
}

unfoldable pub renew : ℕ → String → ℕ → Moment → Jobs → Result JobError (Job × Jobs)
unfolding current_time owned_update
renew job_id owner lease_seconds now rows = do
  guard (not (lease_seconds == 0)) lease_not_positive
  t ← current_time now
  owned_update job_id owner t (renewed (t + seconds lease_seconds)) rows

unfoldable pub complete : ℕ → String → Moment → Jobs → Result JobError (Job × Jobs)
unfolding current_time owned_update
complete job_id owner now rows = do t ← current_time now; owned_update job_id owner t finished rows

unfoldable pub fail : ℕ → String → String → Moment → Jobs → Result JobError (Job × Jobs)
unfolding current_time owned_update
fail job_id owner error_code now rows = do
  t ← current_time now
  owned_update job_id owner t (rejected error_code) rows
