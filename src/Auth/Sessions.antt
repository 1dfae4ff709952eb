-- ===== src/Auth/Sessions.antt =====
-- When a session is over for good.
use competitor_scout.Prelude.{
  ℕ, ◌+◌, ◌≡◌, refl, true, ◌||◌, List, [], ◌∷◌, Option, none, some, leb, ok, is_some, arith,
  Option-cases, inl, inr, bind_inversion, guard_inversion, ◌≤◌, ap, ◌∙◌,
}
use mathlib.Core.Path.{subst}
use competitor_scout.Prelude.Tables.{update, find-update, find-append, find-key}
use competitor_scout.Prelude.Texts.{Text}
use competitor_scout.Auth.{
  AuthLib, User, Session, AuthTables, get_session, session_id_of, create_session, resolve_session,
  logout, touch, revoke, parse_session_cookie, absolute_lifetime, authenticated, supplied_valid,
  csrf_failed, new_session,
}
use competitor_scout.Auth.Resolving.{resolve_sound}
use competitor_scout.Auth.History.{Event, run}
use competitor_scout.Auth.Keeping.{run-Kept}

module _ (lib : AuthLib) (max_active_users : ℕ) (signing_secret : Text) where
  updated_twice :
      (s : Session) (i now : ℕ) (rows : List Session)
      → s.id ≡ i
      → get_session i rows ≡ some s
      → get_session i
          (update session_id_of s.id (revoke now) (update session_id_of s.id (touch now) rows))
        ≡ some (revoke now (touch now s))
  updated_twice s i now rows k m = ground (
    arith,
    find-update session_id_of s.id i (revoke now) (λ x. refl)
        (update session_id_of s.id (touch now) rows),
    find-update session_id_of s.id i (touch now) (λ x. refl) rows,
  )

  -- No cookie of a session that is revoked or expired is accepted.
  dead_refused :
      (cookie : Option Text) (i : ℕ) (secret : Text) (s : Session) (now : ℕ) (db : AuthTables)
      → parse_session_cookie lib cookie ≡ some (i, secret)
      → get_session i db.sessions ≡ some s
      → (is_some s.revoked_at || leb s.expires_at now) ≡ true
      → resolve_session lib cookie now db ≡ none
  dead_refused cookie i secret s now db p m d =
      elim (Option-cases (resolve_session lib cookie now db)) [
        | inl n ↦ n
        | inr (r, h) ↦
            let v = resolve_sound lib cookie now db r h in
            let k : v.id ≡ i = ground (arith, v.parsed) in
            let same : get_session v.id db.sessions ≡ some s = rw k m in
            ground (arith, v.stored, v.not_revoked, v.not_expired)
      ]

  -- A logout that succeeds ends its session: after any requests, and at any time, no cookie with the
  -- id of that session is accepted.
  pub signed_out :
      (cookie supplied : Option Text) (i : ℕ) (secret : Text) (now : ℕ) (db db' : AuthTables)
      → parse_session_cookie lib cookie ≡ some (i, secret)
      → logout lib signing_secret cookie supplied now db ≡ ok db'
      → (es : List Event) (cookie' : Option Text) (secret' : Text) (now' : ℕ)
      → parse_session_cookie lib cookie' ≡ some (i, secret')
      → resolve_session lib cookie' now' (run lib max_active_users signing_secret es db') ≡ none
  unfolding logout
  signed_out cookie supplied i secret now db db' p h es cookie' secret' now' p' =
      let (auth, e, h₁) =
        bind_inversion (authenticated (resolve_session lib cookie now db)) _ db' h in
      let (c, h₂) =
        guard_inversion
          (supplied_valid lib auth.0.session.id auth.0.cookie_secret supplied signing_secret)
          csrf_failed _ db' h₁ in
      let v = resolve_sound lib cookie now db auth (ground arith) in
      let named : v.id ≡ i = ground (arith, v.parsed) in
      let k : v.session.id ≡ i =
        find-key session_id_of v.id db.sessions v.session v.stored ∙ named in
      let q : db'.sessions
          ≡ update session_id_of v.session.id (revoke now)
              (update session_id_of v.session.id (touch now) db.sessions) =
        ground (arith, v.result) in
      let stored : get_session i db'.sessions ≡ some (revoke now (touch now v.session)) =
        ap (λ (rows : List Session). get_session i rows) q
        ∙ (updated_twice v.session i now db.sessions k
            (subst (λ j. get_session j db.sessions ≡ some v.session) named v.stored)) in
      let (t, n, l) =
        run-Kept lib max_active_users signing_secret es i (revoke now (touch now v.session)) db'
          stored in
      dead_refused cookie' i secret' t now' (run lib max_active_users signing_secret es db') p' n
        (ground (arith, l.still_revoked refl))

  -- A session is accepted only within its absolute lifetime: 30 days after it was made, whatever
  -- requests came in between, no cookie with its id is accepted.
  pub session_ends :
      (id clock : ℕ) (secret : Text) (now : ℕ) (u : User) (s : Session) (db db' : AuthTables)
      → create_session lib id clock secret now u db ≡ ok (s, db')
      → (es : List Event) (cookie : Option Text) (secret' : Text) (later : ℕ)
      → now + absolute_lifetime ≤ later
      → parse_session_cookie lib cookie ≡ some (id, secret')
      → resolve_session lib cookie later (run lib max_active_users signing_secret es db') ≡ none
  unfolding create_session
  session_ends id clock secret now u s db db' h es cookie secret' later over p =
      let n = new_session lib id clock now u.id secret in
      let stored : get_session id db'.sessions ≡ some n =
        ground (arith, find-append session_id_of id db.sessions (n ∷ [])) in
      let (t, m, l) = run-Kept lib max_active_users signing_secret es id n db' stored in
      dead_refused cookie id secret' t later (run lib max_active_users signing_secret es db') p m
        (ground (arith, l.same_expiry))
