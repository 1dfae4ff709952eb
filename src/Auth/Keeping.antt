-- ===== src/Auth/Keeping.antt =====
-- What the requests leave of a session that is stored.
use competitor_scout.Prelude.{
  ℕ, ◌≡◌, refl, true, not, List, [], ◌∷◌, Option, none, some, ◌==◌, leb, ok, err, is_some, arith,
  Option-cases, Bool-cases, inl, inr, bind_inversion, guard_inversion, count,
}
use mathlib.Core.Path.{subst}
use competitor_scout.Prelude.Tables.{find-update, find-append}
use competitor_scout.Prelude.Texts.{Text}
use competitor_scout.Auth.{
  AuthLib, User, Session, AuthTables, Call, get_session, session_id_of, put_session, create_session,
  resolve_session, logout, AuthenticatedSession, touch, revoke, get_user, authenticated,
  supplied_valid, csrf_failed, new_session, account_disabled, capacity_reached,
}
use competitor_scout.Auth.Resolving.{resolve_sound}
use competitor_scout.Auth.Accounts.{
  GoogleIdentity, Fresh, upsert_google_user, known_email, link_identity, register, first,
  has_subject, has_email, insert_user, insert_identity, update_profile, normalize_email, new_user,
  new_identity, is_enabled,
}
use competitor_scout.Auth.History.{
  Event, sign_in, request, sign_out, google_callback, settle, resolved, step, run,
}

module _ (lib : AuthLib) (max_active_users : ℕ) (signing_secret : Text) where
  -- A session keeps its owner, its secret and its expiry, and once it is revoked it stays so.
  pub record Later (s s' : Session) : Type 0 where
    pub same_user : s'.user_id ≡ s.user_id
    pub same_secret : s'.secret_hash ≡ s.secret_hash
    pub same_expiry : s'.expires_at ≡ s.expires_at
    pub still_revoked : is_some s.revoked_at ≡ true → is_some s'.revoked_at ≡ true

  Later-refl : (s : Session) → Later s s
  Later-refl s = record {
    same_user = refl;
    same_secret = refl;
    same_expiry = refl;
    still_revoked = λ r. r;
  }

  Later-trans : (s t u : Session) → Later s t → Later t u → Later s u
  Later-trans s t u a b = record {
    same_user = ground (arith, a.same_user, b.same_user);
    same_secret = ground (arith, a.same_secret, b.same_secret);
    same_expiry = ground (arith, a.same_expiry, b.same_expiry);
    still_revoked = λ r. b.still_revoked (a.still_revoked r);
  }

  abbrev pub Kept : ℕ → Session → List Session → Type 0
  Kept i s rows = (s' : Session) × (get_session i rows ≡ some s') × Later s s'

  put_session-Kept :
      (i k : ℕ) (s : Session) (f : Session → Session) (db : AuthTables)
      → ((t : Session) → (f t).id ≡ t.id)
      → ((t : Session) → Later t (f t))
      → get_session i db.sessions ≡ some s
      → Kept i s (put_session k f db).sessions
  put_session-Kept i k s f db ki later m = elim (Bool-cases (k == i)) [
    | inl e ↦ (f s, ground (arith, find-update session_id_of k i f ki db.sessions), later s)
    | inr e ↦ (s, ground (arith, find-update session_id_of k i f ki db.sessions), Later-refl s)
  ]

  touch-Later : (now : ℕ) (t : Session) → Later t (touch now t)
  touch-Later now t = record {
    same_user = refl;
    same_secret = refl;
    same_expiry = refl;
    still_revoked = λ r. r;
  }

  revoke-Later : (now : ℕ) (t : Session) → Later t (revoke now t)
  revoke-Later now t = record {
    same_user = refl;
    same_secret = refl;
    same_expiry = refl;
    still_revoked = λ r. refl;
  }

  resolve-Kept :
      (i : ℕ) (s : Session) (cookie : Option Text) (now : ℕ) (db : AuthTables)
      (r : AuthenticatedSession × AuthTables)
      → get_session i db.sessions ≡ some s
      → resolve_session lib cookie now db ≡ some r
      → Kept i s r.1.sessions
  resolve-Kept i s cookie now db r m h =
      let v = resolve_sound lib cookie now db r h in
      subst (Kept i s) (ground (arith, v.result))
        (put_session-Kept i v.session.id s (touch now) db (λ x. refl) (touch-Later now) m)

  Kept-trans :
      (i : ℕ) (s : Session) (db db' : List Session)
      → Kept i s db
      → ((t : Session) → get_session i db ≡ some t → Kept i t db')
      → Kept i s db'
  Kept-trans i s db db' (t, m, l) k = let (u, n, o) = k t m in (u, n, Later-trans s t u l o)

  logout-Kept :
      (i : ℕ) (s : Session) (cookie supplied : Option Text) (now : ℕ) (db db' : AuthTables)
      → get_session i db.sessions ≡ some s
      → logout lib signing_secret cookie supplied now db ≡ ok db'
      → Kept i s db'.sessions
  unfolding logout
  logout-Kept i s cookie supplied now db db' m h =
      let (auth, e, h₁) =
        bind_inversion (authenticated (resolve_session lib cookie now db)) _ db' h in
      let (c, h₂) =
        guard_inversion
          (supplied_valid lib auth.0.session.id auth.0.cookie_secret supplied signing_secret)
          csrf_failed _ db' h₁ in
      subst (Kept i s) (ground arith) (
        Kept-trans i s auth.1.sessions (put_session auth.0.session.id (revoke now) auth.1).sessions
          (resolve-Kept i s cookie now db auth m (ground arith))
          (λ t n.
            put_session-Kept i auth.0.session.id t (revoke now) auth.1 (λ x. refl)
              (revoke-Later now) n))

  link_sessions :
      (fresh : Fresh) (g : GoogleIdentity) (u : User) (db : AuthTables) (r : User × AuthTables)
      → link_identity lib fresh g u db ≡ ok r
      → r.1.sessions ≡ db.sessions
  unfolding link_identity insert_identity update_profile
  link_sessions fresh g u db r h =
      let (c, h₁) = guard_inversion (is_enabled u) account_disabled _ r h in
      let (db', e, h₂) =
        bind_inversion (insert_identity (new_identity lib fresh g u.id) db) _ r h₁ in
      ground arith

  register_sessions :
      (fresh : Fresh) (g : GoogleIdentity) (email : Text) (db : AuthTables) (r : User × AuthTables)
      → register lib max_active_users fresh g email db ≡ ok r
      → r.1.sessions ≡ db.sessions
  unfolding register insert_user
  register_sessions fresh g email db r h =
      let (c, h₁) =
        guard_inversion (not (leb max_active_users (count is_enabled db.users))) capacity_reached _
          r h in
      let (db', e, h₂) = bind_inversion (insert_user (new_user lib fresh g email) db) _ r h₁ in
      ground (arith, link_sessions fresh g (new_user lib fresh g email) db' r h₂)

  upsert_sessions :
      (fresh : Fresh) (g : GoogleIdentity) (db : AuthTables) (r : User × AuthTables)
      → upsert_google_user lib max_active_users fresh g db ≡ ok r
      → r.1.sessions ≡ db.sessions
  unfolding upsert_google_user update_profile
  upsert_sessions fresh g db r h =
      elim (Option-cases (first (has_subject g.subject) db.identities)) [
        | inr (i, m) ↦ elim (Option-cases (get_user i.user_id db.users)) [
          | inl n ↦ ground arith
          | inr (u, n) ↦ elim (Bool-cases (is_enabled u)) [
            | inl e ↦ ground arith
            | inr e ↦ ground arith
          ]
        ]
        | inl n ↦
            let (email, e, h₁) =
              bind_inversion (normalize_email lib g.google_email)
                (known_email lib max_active_users fresh g db) r (ground arith) in
            elim (Option-cases (first (has_email email) db.users)) [
              | inl o ↦ register_sessions fresh g email db r (ground arith)
              | inr (u, o) ↦ link_sessions fresh g u db r (ground arith)
            ]
      ]

  callback-Kept :
      (i : ℕ) (s : Session) (fresh : Fresh) (g : GoogleIdentity) (id : ℕ) (secret : Text) (now : ℕ)
      (db db' : AuthTables)
      → get_session i db.sessions ≡ some s
      → google_callback lib max_active_users signing_secret fresh g id secret now db ≡ ok db'
      → Kept i s db'.sessions
  unfolding google_callback create_session
  callback-Kept i s fresh g id secret now db db' m h =
      let (account, e, h₁) =
        bind_inversion (upsert_google_user lib max_active_users fresh g db) _ db' h in
      let (session, f, h₂) =
        bind_inversion (create_session lib id fresh.clock secret now account.0 account.1) _ db'
          h₁ in
      (
        s,
        ground (
          arith,
          upsert_sessions fresh g db account e,
          find-append session_id_of i account.1.sessions
              (new_session lib id fresh.clock now account.0.id secret ∷ []),
        ),
        Later-refl s,
      )

  -- A stored session is still stored after any requests, with the same owner, secret and expiry, and
  -- revoked if it was.
  pub run-Kept :
      (es : List Event) (i : ℕ) (s : Session) (db : AuthTables)
      → get_session i db.sessions ≡ some s
      → Kept i s (run lib max_active_users signing_secret es db).sessions
  unfolding run step
  run-Kept [] i s db m = (s, m, Later-refl s)
  run-Kept (e ∷ es) i s db m =
      let (t, n, l) = step-Kept e in
      let (u, o, k) = run-Kept es i t (step lib max_active_users signing_secret e db) n in
      (u, o, Later-trans s t u l k)
    where
      settle-Kept :
          (c : Call AuthTables)
          → ((db' : AuthTables) → c ≡ ok db' → Kept i s db'.sessions)
          → Kept i s (settle lib max_active_users signing_secret c db).sessions
      settle-Kept (ok db') k = k db' refl
      settle-Kept (err x) k = (s, m, Later-refl s)

      resolved-Kept :
          (o : Option (AuthenticatedSession × AuthTables))
          → ((r : AuthenticatedSession × AuthTables) → o ≡ some r → Kept i s r.1.sessions)
          → Kept i s (resolved lib max_active_users signing_secret o db).sessions
      resolved-Kept none k = (s, m, Later-refl s)
      resolved-Kept (some r) k = k r refl

      step-Kept : (e : Event) → Kept i s (step lib max_active_users signing_secret e db).sessions
      step-Kept (sign_in fresh g id secret now) =
          settle-Kept (google_callback lib max_active_users signing_secret fresh g id secret now db)
            (λ db' q. callback-Kept i s fresh g id secret now db db' m q)
      step-Kept (request cookie now) =
          resolved-Kept (resolve_session lib cookie now db)
            (λ r q. resolve-Kept i s cookie now db r m q)
      step-Kept (sign_out cookie supplied now) =
          settle-Kept (logout lib signing_secret cookie supplied now db)
            (λ db' q. logout-Kept i s cookie supplied now db db' m q)
