-- ===== src/Auth/Accounts.antt =====
-- `upsert_google_user` of services/auth.py: the account of a Google identity.
use competitor_scout.Prelude.{
  ℕ, ◌*◌, Bool, not, ◌&&◌, ◌||◌, List, [], ◌∷◌, ◌++◌, Option, none, some, leb, if◌then◌else◌, ok,
  err, ◌>>=◌, ◌>>◌, guard, is_some, any, count,
}
use competitor_scout.Prelude.Tables.{find, update}
use competitor_scout.Prelude.Texts.{Text, str, text_eq, strip}
use competitor_scout.Auth.{
  AuthLib, User, OAuthIdentity, AuthTables, Call, capacity_reached, account_disabled, empty_email,
  integrity_error, user_id_of, get_user,
}

pub record GoogleIdentity : Type 0 where
  pub subject : Text
  pub google_email : Text
  pub name : Text
  pub picture : Option Text

-- The first row that a test selects: the unique columns leave at most one.
unfoldable pub first {ℓ} : {A : Type ℓ} → (A → Bool) → List A → Option A
first p [] = none
first p (x ∷ xs) = let rest = first p xs in if p x then some x else rest

abbrev pub google : Text
google = str "google"

abbrev pub has_subject : Text → OAuthIdentity → Bool
has_subject subject i = text_eq i.provider google && text_eq i.provider_subject subject

abbrev pub has_email : Text → User → Bool
has_email email u = text_eq u.email email

abbrev pub is_enabled : User → Bool
is_enabled u = not (is_some u.disabled_at)

abbrev pub log_in : GoogleIdentity → ℕ → User → User
log_in g now u = record u {
  display_name = g.name;
  avatar_url = g.picture;
  last_login_at = some now;
}

abbrev pub identity_id_of : OAuthIdentity → ℕ
identity_id_of i = i.id

-- INSERT of a user, under the primary key and the unique index on the email.
unfoldable pub insert_user : User → AuthTables → Call AuthTables
insert_user u db =
    if is_some (get_user u.id db.users) || any (has_email u.email) db.users
    then err integrity_error
    else ok (record db { users = db.users ++ u ∷ [] })

-- INSERT of an identity, under the primary key and the unique provider and subject.
unfoldable pub insert_identity : OAuthIdentity → AuthTables → Call AuthTables
insert_identity i db =
    if is_some (find identity_id_of i.id db.identities)
      || any (has_subject i.provider_subject) db.identities
    then err integrity_error
    else ok (record db { identities = db.identities ++ i ∷ [] })

-- What a registration needs beside the identity: fresh keys and the two clocks.
pub record Fresh : Type 0 where
  pub user_key : ℕ
  pub identity_key : ℕ
  pub clock : ℕ
  pub now : ℕ

module _ (lib : AuthLib) where
  unfoldable pub normalize_email : Text → Call Text
  normalize_email value =
      if text_eq (lib.casefold (strip value)) []
      then err empty_email
      else ok (lib.casefold (strip value))

  abbrev pub new_user : Fresh → GoogleIdentity → Text → User
  new_user fresh g email = record {
    id = fresh.user_key;
    email = email;
    display_name = g.name;
    avatar_url = g.picture;
    timezone = str "UTC";
    default_daily_run_time_local = 8 * 60;
    created_at = fresh.clock;
    last_login_at = none;
    disabled_at = none;
  }

  abbrev pub new_identity : Fresh → GoogleIdentity → ℕ → OAuthIdentity
  new_identity fresh g user = record {
    id = fresh.identity_key;
    user_id = user;
    provider = google;
    provider_subject = g.subject;
    created_at = fresh.clock;
  }

  -- The last lines: the profile of the user that was found or made.
  unfoldable pub update_profile : Fresh → GoogleIdentity → User → AuthTables → User × AuthTables
  update_profile fresh g u db = (
    log_in g fresh.now u,
    record db { users = update user_id_of u.id (log_in g fresh.now) db.users },
  )

  unfoldable pub link_identity :
      Fresh → GoogleIdentity → User → AuthTables → Call (User × AuthTables)
  unfolding insert_identity update_profile
  link_identity fresh g u db = do
    guard (is_enabled u) account_disabled
    db' ← insert_identity (new_identity fresh g u.id) db
    ok (update_profile fresh g u db')

  unfoldable pub register :
      ℕ → Fresh → GoogleIdentity → Text → AuthTables → Call (User × AuthTables)
  unfolding insert_user link_identity
  register max_active_users fresh g email db = do
    guard (not (leb max_active_users (count is_enabled db.users))) capacity_reached
    db' ← insert_user (new_user fresh g email) db
    link_identity fresh g (new_user fresh g email) db'

  abbrev pub known_email : ℕ → Fresh → GoogleIdentity → AuthTables → Text → Call (User × AuthTables)
  known_email max_active_users fresh g db email = elim (first (has_email email) db.users) [
    | none ↦ register max_active_users fresh g email db
    | some u ↦ link_identity fresh g u db
  ]

  -- The user of an identity is there, by the foreign key.
  abbrev pub known_identity :
      Fresh → GoogleIdentity → Option User → AuthTables → Call (User × AuthTables)
  known_identity fresh g none db = err integrity_error
  known_identity fresh g (some u) db = do
    guard (is_enabled u) account_disabled
    ok (update_profile fresh g u db)

  -- The advisory lock makes the calls follow one another, as the calls here do.
  unfoldable pub upsert_google_user :
      ℕ → Fresh → GoogleIdentity → AuthTables → Call (User × AuthTables)
  unfolding normalize_email register link_identity update_profile
  upsert_google_user max_active_users fresh g db =
      elim (first (has_subject g.subject) db.identities) [
        | none ↦ do
          email ← normalize_email g.google_email
          known_email max_active_users fresh g db email
        | some i ↦ known_identity fresh g (get_user i.user_id db.users) db
      ]
