-- ===== src/Auth/History.antt =====
-- The requests that change sessions, in the order in which they commit.
use competitor_scout.Prelude.{ℕ, List, [], ◌∷◌, Option, none, some, ok, err, ◌>>=◌}
use competitor_scout.Prelude.Tables.{}
use competitor_scout.Prelude.Texts.{Text}
use competitor_scout.Auth.{
  AuthLib, AuthTables, Call, create_session, resolve_session, logout, AuthenticatedSession,
}
use competitor_scout.Auth.Accounts.{GoogleIdentity, Fresh, upsert_google_user}

pub data Event : Type 0 where
  sign_in : Fresh → GoogleIdentity → ℕ → Text → ℕ → Event
  request : Option Text → ℕ → Event
  sign_out : Option Text → Option Text → ℕ → Event

module _ (lib : AuthLib) (max_active_users : ℕ) (signing_secret : Text) where
  -- `google_callback` of api/auth.py, once the state and the nonce are accepted.
  unfoldable pub google_callback :
      Fresh → GoogleIdentity → ℕ → Text → ℕ → AuthTables → Call AuthTables
  unfolding upsert_google_user create_session
  google_callback fresh g id secret now db = do
    account ← upsert_google_user lib max_active_users fresh g db
    session ← create_session lib id fresh.clock secret now account.0 account.1
    ok session.1

  abbrev pub settle : Call AuthTables → AuthTables → AuthTables
  settle (ok db') db = db'
  settle (err e) db = db

  abbrev pub resolved : Option (AuthenticatedSession × AuthTables) → AuthTables → AuthTables
  resolved none db = db
  resolved (some r) db = r.1

  unfoldable pub step : Event → AuthTables → AuthTables
  unfolding google_callback
  step (sign_in fresh g id secret now) db = settle (google_callback fresh g id secret now db) db
  step (request cookie now) db = resolved (resolve_session lib cookie now db) db
  step (sign_out cookie supplied now) db =
      settle (logout lib signing_secret cookie supplied now db) db

  unfoldable pub run : List Event → AuthTables → AuthTables
  unfolding step
  run [] db = db
  run (e ∷ es) db = run es (step e db)
