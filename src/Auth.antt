-- ===== src/Auth.antt =====
-- apps/backend/src/competitor_scout/services/auth.py, security/csrf.py, the logout of api/auth.py and
-- the tables of models/auth.py: sessions, the accounts behind them, and CSRF tokens. The digests, the
-- parser and printer of UUIDs and `casefold` are the fields of an `AuthLib`.
pub mod Accounts
pub mod OAuth
pub mod Resolving
pub mod History
pub mod Keeping
pub mod Sessions
pub mod Registration
mod Tests
use competitor_scout.Prelude.{
  ℕ, ◌+◌, ◌*◌, ◌≡◌, Bool, true, false, not, ◌&&◌, ◌||◌, List, [], ◌∷◌, ◌++◌, Option, none, some,
  ◌==◌, leb, if◌then◌else◌, Result, ok, err, ◌>>=◌, ◌>>◌, guard, is_some, seconds,
}
use competitor_scout.Prelude.Tables.{find, update}
use competitor_scout.Prelude.Texts.{Text, str, text_eq}

pub record AuthLib : Type 0 where
  pub sha256 : Text → Text
  pub hmac : Text → Text → Text
  pub parse_uuid : Text → Option ℕ
  pub show_uuid : ℕ → Text
  pub casefold : Text → Text

pub record User : Type 0 where
  pub id : ℕ
  pub email : Text
  pub display_name : Text
  pub avatar_url : Option Text
  pub timezone : Text
  pub default_daily_run_time_local : ℕ
  pub created_at : ℕ
  pub last_login_at : Option ℕ
  pub disabled_at : Option ℕ

pub record OAuthIdentity : Type 0 where
  pub id : ℕ
  pub user_id : ℕ
  pub provider : Text
  pub provider_subject : Text
  pub created_at : ℕ

pub record Session : Type 0 where
  pub id : ℕ
  pub user_id : ℕ
  pub secret_hash : Text
  pub expires_at : ℕ
  pub created_at : ℕ
  pub last_seen_at : ℕ
  pub revoked_at : Option ℕ

pub record AuthTables : Type 0 where
  pub users : List User
  pub identities : List OAuthIdentity
  pub sessions : List Session

pub data AuthError : Type 0 where
  capacity_reached account_disabled empty_email integrity_error : AuthError
  unauthenticated csrf_failed : AuthError

abbrev pub Call : Type 0 → Type 0
Call = Result AuthError

abbrev pub user_id_of : User → ℕ
user_id_of u = u.id

abbrev pub session_id_of : Session → ℕ
session_id_of s = s.id

abbrev pub get_user : ℕ → List User → Option User
get_user = find user_id_of

abbrev pub get_session : ℕ → List Session → Option Session
get_session = find session_id_of

abbrev pub put_session : ℕ → (Session → Session) → AuthTables → AuthTables
put_session i f db = record db { sessions = update session_id_of i f db.sessions }

-- SESSION_ABSOLUTE_LIFETIME and SESSION_IDLE_LIFETIME: 30 days and 7 days.
abbrev pub absolute_lifetime : ℕ
absolute_lifetime = seconds (30 * 86400)

abbrev pub idle_lifetime : ℕ
idle_lifetime = seconds (7 * 86400)

-- `value.split(".", 1)`, for a text with exactly one dot.
abbrev cons_first : ℕ → Option (Text × Text) → Option (Text × Text)
cons_first c none = none
cons_first c (some (a, b)) = some (c ∷ a, b)

abbrev has_dot : Text → Bool
has_dot [] = false
has_dot (c ∷ s) = c == b'.' || has_dot s

unfoldable pub split_once : Text → Option (Text × Text)
split_once [] = none
split_once (c ∷ s) =
    let rest = split_once s in
    if c == b'.' then (if has_dot s then none else some ([], s)) else cons_first c rest

pub record AuthenticatedSession : Type 0 where
  pub session : Session
  pub user : User
  pub cookie_secret : Text

-- The test of a session and its user at a time.
unfoldable pub session_alive : ℕ → Session → User → Bool
session_alive now s u = not (
    is_some s.revoked_at
    || (is_some u.disabled_at
        || (leb s.expires_at now || leb (s.last_seen_at + idle_lifetime) now)))

abbrev pub touch : ℕ → Session → Session
touch now s = record s { last_seen_at = now }

abbrev pub authenticated :
    Option (AuthenticatedSession × AuthTables) → Call (AuthenticatedSession × AuthTables)
authenticated none = err unauthenticated
authenticated (some r) = ok r

abbrev pub revoke : ℕ → Session → Session
revoke now s = record s { revoked_at = some now }

module _ (lib : AuthLib) where
  -- The id and the secret, if neither is missing and the id is a UUID.
  abbrev pub cookie_parts : Option (Text × Text) → Option (ℕ × Text)
  cookie_parts none = none
  cookie_parts (some (raw_id, [])) = none
  cookie_parts (some (raw_id, c ∷ secret)) = elim (lib.parse_uuid raw_id) [
    | none ↦ none
    | some i ↦ some (i, c ∷ secret)
  ]

  unfoldable pub parse_session_cookie : Option Text → Option (ℕ × Text)
  unfolding split_once
  parse_session_cookie none = none
  parse_session_cookie (some value) = cookie_parts (split_once value)

  abbrev pub new_session : ℕ → ℕ → ℕ → ℕ → Text → Session
  new_session id clock now user secret = record {
    id = id;
    user_id = user;
    secret_hash = lib.sha256 secret;
    expires_at = now + absolute_lifetime;
    created_at = clock;
    last_seen_at = now;
    revoked_at = none;
  }

  -- `id`, `secret` and `clock` are the fresh key, the fresh secret and the database's clock.
  unfoldable pub create_session : ℕ → ℕ → Text → ℕ → User → AuthTables → Call (Session × AuthTables)
  create_session id clock secret now user db =
      if is_some (get_session id db.sessions)
      then err integrity_error
      else ok (
        new_session id clock now user.id secret,
        record db { sessions = db.sessions ++ new_session id clock now user.id secret ∷ [] },
      )

  abbrev pub resolve_row :
      ℕ → Text → Session → Option User → AuthTables → Option (AuthenticatedSession × AuthTables)
  resolve_row now secret s none db = none
  resolve_row now secret s (some u) db =
      if text_eq s.secret_hash (lib.sha256 secret) && session_alive now s u
      then some (
        record { session = touch now s; user = u; cookie_secret = secret },
        put_session s.id (touch now) db,
      )
      else none

  -- The user of a session is there, by the foreign key.
  unfoldable pub resolve_session :
      Option Text → ℕ → AuthTables → Option (AuthenticatedSession × AuthTables)
  unfolding session_alive parse_session_cookie
  resolve_session cookie now db = elim (parse_session_cookie cookie) [
    | none ↦ none
    | some (i, secret) ↦ elim (get_session i db.sessions) [
      | none ↦ none
      | some s ↦ resolve_row now secret s (get_user s.user_id db.users) db
    ]
  ]

  unfoldable pub csrf_token : ℕ → Text → Text → Text
  csrf_token session_id cookie_secret signing_secret =
      lib.hmac signing_secret (lib.show_uuid session_id ++ b'.' ∷ cookie_secret)

  unfoldable pub csrf_valid : ℕ → Text → Text → Text → Bool
  unfolding csrf_token
  csrf_valid session_id cookie_secret supplied signing_secret =
      text_eq (csrf_token session_id cookie_secret signing_secret) supplied

  abbrev pub supplied_valid : ℕ → Text → Option Text → Text → Bool
  supplied_valid i secret none signing_secret = false
  supplied_valid i secret (some supplied) signing_secret =
      csrf_valid i secret supplied signing_secret

  -- The logout route, behind `authenticated_session` and `require_csrf` of api/deps.py.
  unfoldable pub logout : Text → Option Text → Option Text → ℕ → AuthTables → Call AuthTables
  unfolding resolve_session csrf_valid
  logout signing_secret cookie supplied now db = do
    auth ← authenticated (resolve_session cookie now db)
    guard (supplied_valid auth.0.session.id auth.0.cookie_secret supplied signing_secret)
        csrf_failed
    ok (put_session auth.0.session.id (revoke now) auth.1)
