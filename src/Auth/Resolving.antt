-- ===== src/Auth/Resolving.antt =====
-- What a successful `resolve_session` has checked.
use competitor_scout.Prelude.{
  ℕ, ◌+◌, ◌≡◌, ◌&&◌, Option, none, some, arith, Option-cases, Bool-cases, inl, inr, ◌<◌,
}
use competitor_scout.Prelude.Texts.{Text, text_eq, text_eq_iff}
use competitor_scout.Auth.{
  AuthLib, User, Session, AuthTables, get_session, get_user, put_session, resolve_session,
  AuthenticatedSession, touch, parse_session_cookie, session_alive, idle_lifetime,
}

module _ (lib : AuthLib) (cookie : Option Text) (now : ℕ) (db : AuthTables) where
  -- The session of the cookie, with its secret, its user, and its lifetimes not over; the result has
  -- the session as seen now, and so has the table.
  pub record Resolved (r : AuthenticatedSession × AuthTables) : Type 0 where
    pub id : ℕ
    pub secret : Text
    pub session : Session
    pub user : User
    pub parsed : parse_session_cookie lib cookie ≡ some (id, secret)
    pub stored : get_session id db.sessions ≡ some session
    pub owner : get_user session.user_id db.users ≡ some user
    pub same_secret : session.secret_hash ≡ lib.sha256 secret
    pub not_revoked : session.revoked_at ≡ none
    pub not_disabled : user.disabled_at ≡ none
    pub not_expired : now < session.expires_at
    pub not_idle : now < session.last_seen_at + idle_lifetime
    pub result : r ≡ (
      record { session = touch now session; user = user; cookie_secret = secret },
      put_session session.id (touch now) db,
    )

  -- A cookie is accepted only for a stored session whose secret it has, that is not revoked, whose
  -- user is not disabled, before its expiry and within the idle lifetime of its last use; the table
  -- then has this time as the last use.
  pub resolve_sound :
      (r : AuthenticatedSession × AuthTables)
      → resolve_session lib cookie now db ≡ some r
      → Resolved r
  unfolding resolve_session session_alive
  resolve_sound r h = elim (Option-cases (parse_session_cookie lib cookie)) [
    | inl n ↦ ground arith
    | inr ((k, secret), p) ↦ elim (Option-cases (get_session k db.sessions)) [
      | inl n ↦ ground arith
      | inr (t, q) ↦ elim (Option-cases (get_user t.user_id db.users)) [
        | inl n ↦ ground arith
        | inr (u, o) ↦
            elim (Bool-cases (text_eq t.secret_hash (lib.sha256 secret) && session_alive now t u)) [
              | inr e ↦ ground arith
              | inl e ↦ record {
                id = k;
                secret = secret;
                session = t;
                user = u;
                parsed = p;
                stored = q;
                owner = o;
                same_secret = (text_eq_iff t.secret_hash (lib.sha256 secret)).0 (ground arith);
                not_revoked = ground arith;
                not_disabled = ground arith;
                not_expired = ground arith;
                not_idle = ground arith;
                result = ground arith;
              }
            ]
      ]
    ]
  ]
