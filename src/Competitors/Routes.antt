-- ===== src/Competitors/Routes.antt =====
-- The routes of apps/backend/src/competitor_scout/api/competitors.py that change competitors and
-- sources, each with its look-up of the competitor that the user owns. A sequence of them is
-- one request after another: all but the creation of a competitor take no lock, and requests that
-- overlap are not modelled.
use competitor_scout.Prelude.{
  ℕ, Bool, true, false, List, [], ◌∷◌, Option, none, some, ok, err, ◌>>=◌,
}
use competitor_scout.Prelude.Texts.{Text}
use competitor_scout.Urls.{UrlLib}
use competitor_scout.Competitors.{
  Competitor, CompetitorStatus, active, paused, ApprovalStatus, approved, rejected, Tables, Call,
  not_found, put_competitor, create_with_domain, owned_competitor, soft_delete_competitor,
  update_competitor_status,
}
use competitor_scout.Competitors.Domains.{normalize_primary_domain}
use competitor_scout.Competitors.Sources.{
  update_source_approval, create_manual_source, select_monitoring_sources,
}

-- The fields that an update gives; the schema admits no status but active and paused.
pub record CompetitorUpdate : Type 0 where
  pub new_name : Option Text
  pub new_description : Option Text
  pub new_time : Option ℕ
  pub new_status : Option Bool

-- A request with what its transaction takes from outside: fresh keys and times. `start_monitoring`
-- is the one without the initial scan; `update` has the user, the competitor and the fields, `approval`
-- the user, the competitor, the source and whether it is approved.
pub data Request : Type 0 where
  create : ℕ → ℕ → ℕ → Text → Text → Text → ℕ → Request
  update : ℕ → ℕ → CompetitorUpdate → Request
  delete : ℕ → ℕ → ℕ → Request
  add_source : ℕ → ℕ → ℕ → ℕ → Text → Request
  approval : ℕ → ℕ → ℕ → Bool → Request
  start_monitoring : ℕ → ℕ → ℕ → List ℕ → Request

abbrev pub or_default {ℓ} : {A : Type ℓ} → Option A → A → A
or_default none a = a
or_default (some b) a = b

abbrev pub set_fields : CompetitorUpdate → Competitor → Competitor
set_fields u r = record r {
  name = or_default u.new_name r.name;
  description = or_default u.new_description r.description;
  daily_run_time_local = or_default u.new_time r.daily_run_time_local;
}

abbrev pub requested_status : Bool → CompetitorStatus
requested_status true = active
requested_status false = paused

-- `update_competitor_route`, for the competitor that was found.
unfoldable pub update_fields : Competitor → CompetitorUpdate → Tables → Call Tables
update_fields c u db = do
  db' ← elim u.new_status [
    | none ↦ ok db
    | some s ↦ update_competitor_status c (requested_status s) db
  ]
  ok (put_competitor c.id (set_fields u) db')

-- `competitor.starting_snapshot_requested_at or requested_at`.
abbrev pub request_snapshot : ℕ → Competitor → Competitor
request_snapshot now r = record r {
  starting_snapshot_requested_at = some (or_default r.starting_snapshot_requested_at now);
}

abbrev pub decision : Bool → ApprovalStatus
decision true = approved
decision false = rejected

abbrev pub or_not_found : Option Tables → Call Tables
or_not_found none = err not_found
or_not_found (some db) = ok db

module _ (lib : UrlLib) (validator : Text → Option Text) (title_of : Text → Text) (limit : ℕ) where
  -- A route on a competitor that must belong to the user and not be deleted.
  abbrev pub on_owned : ℕ → ℕ → Tables → (Competitor → Call Tables) → Call Tables
  on_owned user i db act = elim (owned_competitor user i false db) [
    | none ↦ err not_found
    | some c ↦ act c
  ]

  abbrev create_competitor_route : ℕ → ℕ → ℕ → Text → Text → Text → ℕ → Tables → Call Tables
  create_competitor_route id now user name domain description time db = do
    host ← normalize_primary_domain lib domain
    created ← create_with_domain id now user name host description time limit db
    ok created.1

  abbrev update_competitor_route : ℕ → ℕ → CompetitorUpdate → Tables → Call Tables
  update_competitor_route user i u db = on_owned user i db λ c. update_fields c u db

  abbrev delete_competitor_route : ℕ → ℕ → ℕ → Tables → Call Tables
  delete_competitor_route user i now db =
      on_owned user i db λ c. ok (soft_delete_competitor now c db)

  abbrev create_source_route : ℕ → ℕ → ℕ → ℕ → Text → Tables → Call Tables
  create_source_route user i id now url db =
      on_owned user i db λ c. create_manual_source lib validator title_of id now c url db

  abbrev update_source_approval_route : ℕ → ℕ → ℕ → Bool → Tables → Call Tables
  update_source_approval_route user i source_id approves db = on_owned user i db λ c. do
    found ← update_source_approval lib validator c source_id (decision approves) db
    or_not_found found

  abbrev start_monitoring_route : ℕ → ℕ → ℕ → List ℕ → Tables → Call Tables
  start_monitoring_route user i now ids db = on_owned user i db λ c. do
    db' ← select_monitoring_sources lib validator c ids db
    ok (put_competitor c.id (request_snapshot now) db')

  unfoldable pub handle : Request → Tables → Call Tables
  unfolding update_fields
  handle (create id now user name domain description time) db =
      create_competitor_route id now user name domain description time db
  handle (update user i u) db = update_competitor_route user i u db
  handle (delete user i now) db = delete_competitor_route user i now db
  handle (add_source user i id now url) db = create_source_route user i id now url db
  handle (approval user i source_id approves) db =
      update_source_approval_route user i source_id approves db
  handle (start_monitoring user i now ids) db = start_monitoring_route user i now ids db

  -- A request that raises is rolled back.
  abbrev pub settle : Call Tables → Tables → Tables
  settle (ok db') db = db'
  settle (err e) db = db

  unfoldable pub serve : Tables → List Request → Tables
  serve db [] = db
  serve db (r ∷ rs) = serve (settle (handle r db) db) rs
