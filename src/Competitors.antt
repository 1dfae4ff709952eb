-- ===== src/Competitors.antt =====
-- apps/backend/src/competitor_scout/services/competitors.py, with the routes of api/competitors.py
-- that change state and the tables of models/intelligence.py: competitors and their sources.
-- A call is one transaction on the two tables; a call that raises is rolled back. The column
-- `updated_at` is left out: the database writes it and no code reads it.
pub mod Domains
pub mod Sources
pub mod Routes
pub mod Invariant
pub mod Selection
pub mod Activation
pub mod Serving
pub mod Requests
pub mod Capacity
pub mod Limits
pub mod Quota
mod Tests
use competitor_scout.Prelude.{
  ℕ, ◌≡◌, Bool, true, false, not, ◌&&◌, ◌||◌, List, [], ◌∷◌, ◌++◌, Option, none, some, ◌==◌, leb,
  if◌then◌else◌, Result, ok, err, ◌>>=◌, ◌>>◌, guard, is_some, any, count,
}
use competitor_scout.Prelude.Tables.{find, update}
use competitor_scout.Prelude.Texts.{Text, text_eq}

pub data CompetitorStatus : Type 0 where
  discovering active paused deleted : CompetitorStatus

pub data SourceCategory : Type 0 where
  homepage pricing product features changelog documentation blog careers other : SourceCategory

pub data ApprovalStatus : Type 0 where
  suggested approved rejected : ApprovalStatus

pub record Competitor : Type 0 where
  pub id : ℕ
  pub user_id : ℕ
  pub name : Text
  pub primary_domain : Text
  pub description : Text
  pub status : CompetitorStatus
  pub daily_run_time_local : ℕ
  pub created_at : ℕ
  pub deleted_at : Option ℕ
  pub starting_snapshot_requested_at : Option ℕ

pub record MonitoredSource : Type 0 where
  pub id : ℕ
  pub competitor_id : ℕ
  pub url : Text
  pub normalized_url : Text
  pub source_category : SourceCategory
  pub title : Text
  pub discovery_reason : Text
  pub approval_status : ApprovalStatus
  pub created_at : ℕ

pub record Tables : Type 0 where
  pub competitors : List Competitor
  pub sources : List MonitoredSource

-- The exceptions of the module, the 404 of the routes, and the database's refusals.
pub data CompetitorError : Type 0 where
  invalid_domain duplicate_competitor limit_reached activation_not_allowed : CompetitorError
  source_not_allowed source_unresolved not_found integrity_error : CompetitorError

abbrev pub Call : Type 0 → Type 0
Call = Result CompetitorError

abbrev pub is_active : CompetitorStatus → Bool
is_active active = true
is_active _ = false

abbrev pub is_deleted : CompetitorStatus → Bool
is_deleted deleted = true
is_deleted _ = false

abbrev pub is_approved : ApprovalStatus → Bool
is_approved approved = true
is_approved _ = false

abbrev pub is_suggested : ApprovalStatus → Bool
is_suggested suggested = true
is_suggested _ = false

abbrev pub competitor_id_of : Competitor → ℕ
competitor_id_of c = c.id

abbrev pub source_id_of : MonitoredSource → ℕ
source_id_of s = s.id

abbrev pub get_competitor : ℕ → List Competitor → Option Competitor
get_competitor = find competitor_id_of

abbrev pub get_source : ℕ → List MonitoredSource → Option MonitoredSource
get_source = find source_id_of

abbrev pub put_competitor : ℕ → (Competitor → Competitor) → Tables → Tables
put_competitor i f db = record db { competitors = update competitor_id_of i f db.competitors }

-- The approved sources of a competitor, of which the code asks only whether there is one.
abbrev pub approved_of : ℕ → MonitoredSource → Bool
approved_of i s = s.competitor_id == i && is_approved s.approval_status

abbrev pub has_approved : ℕ → List MonitoredSource → Bool
has_approved i = any (approved_of i)

-- The competitors that a user has, deleted ones aside.
abbrev pub live_of : ℕ → Competitor → Bool
live_of user c = c.user_id == user && not (is_deleted c.status)

abbrev pub live_with_domain : ℕ → Text → Competitor → Bool
live_with_domain user domain c = live_of user c && text_eq c.primary_domain domain

unfoldable pub ensure_competitor_capacity : ℕ → ℕ → Call (Unit {0})
ensure_competitor_capacity active_count limit = guard (not (leb limit active_count)) limit_reached

-- The INSERT of `db.add` and `flush`, under the primary key and the partial unique index on the
-- owner and the domain of the rows that are not deleted.
unfoldable pub insert_competitor : Competitor → Tables → Call Tables
insert_competitor c db =
    if is_some (get_competitor c.id db.competitors)
      || any (live_with_domain c.user_id c.primary_domain) db.competitors
    then err integrity_error
    else ok (record db { competitors = db.competitors ++ c ∷ [] })

abbrev pub new_competitor : ℕ → ℕ → ℕ → Text → Text → Text → ℕ → Competitor
new_competitor id created user name domain description time = record {
  id = id;
  user_id = user;
  name = name;
  primary_domain = domain;
  description = description;
  status = discovering;
  daily_run_time_local = time;
  created_at = created;
  deleted_at = none;
  starting_snapshot_requested_at = none;
}

-- `create_competitor`, after `normalize_primary_domain` has given the domain. `id` and `created`
-- are the fresh key and the database's clock. The advisory lock makes the calls for one user
-- follow one another, as the calls here do.
unfoldable pub create_with_domain :
    ℕ → ℕ → ℕ → Text → Text → Text → ℕ → ℕ → Tables → Call (Competitor × Tables)
unfolding ensure_competitor_capacity insert_competitor
create_with_domain id created user name domain description time limit db = do
  guard (not (any (live_with_domain user domain) db.competitors)) duplicate_competitor
  ensure_competitor_capacity (count (live_of user) db.competitors) limit
  db' ← insert_competitor (new_competitor id created user name domain description time) db
  ok (new_competitor id created user name domain description time, db')

-- `owned_competitor`.
unfoldable pub owned_competitor : ℕ → ℕ → Bool → Tables → Option Competitor
owned_competitor user i include_deleted db = elim (get_competitor i db.competitors) [
  | none ↦ none
  | some c ↦
      if c.user_id == user && (include_deleted || not (is_deleted c.status)) then some c else none
]

-- `soft_delete_competitor`, at the time `now`.
unfoldable pub soft_delete_competitor : ℕ → Competitor → Tables → Tables
soft_delete_competitor now c =
    put_competitor c.id (λ r. record r { status = deleted; deleted_at = some now })

-- The code takes no lock: this is the call when no other transaction runs.
unfoldable pub update_competitor_status : Competitor → CompetitorStatus → Tables → Call Tables
update_competitor_status c status db =
    if is_active status && not (is_active c.status) && not (has_approved c.id db.sources)
    then err activation_not_allowed
    else ok (put_competitor c.id (λ r. record r { status = status }) db)
