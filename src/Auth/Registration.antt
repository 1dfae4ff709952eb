-- ===== src/Auth/Registration.antt =====
-- What holds of the accounts after any requests.
use competitor_scout.Prelude.{
  ℕ, ◌≡◌, refl, Bool, false, not, List, [], ◌∷◌, ◌++◌, Option, none, some, leb, ok, err, arith,
  Option-cases, Bool-cases, inl, inr, bind_inversion, guard_inversion, ◌≤◌, ◌<◌, any, count,
}
use mathlib.Core.Path.{subst}
use competitor_scout.Prelude.Tables.{update, Unique, update-Unique, append-Unique}
use competitor_scout.Prelude.Counts.{count-append, count-none, count-update_le}
use competitor_scout.Prelude.Texts.{Text, text_eq_iff}
use competitor_scout.Auth.{
  AuthLib, User, OAuthIdentity, AuthTables, Call, get_user, user_id_of, AuthenticatedSession,
  resolve_session, create_session, logout, account_disabled, capacity_reached, authenticated,
  supplied_valid, csrf_failed,
}
use competitor_scout.Auth.Accounts.{
  GoogleIdentity, Fresh, upsert_google_user, known_email, link_identity, register, first,
  has_subject, has_email, insert_user, insert_identity, update_profile, normalize_email, new_user,
  new_identity, is_enabled, log_in, google, identity_id_of,
}
use competitor_scout.Auth.Resolving.{resolve_sound}
use competitor_scout.Auth.History.{
  Event, sign_in, request, sign_out, step, run, settle, resolved, google_callback,
}

-- No more enabled accounts than the limit, one account for each email, and one identity for each
-- Google subject.
pub record Accounts (limit : ℕ) (users : List User) (identities : List OAuthIdentity) : Type 0 where
  pub ids : Unique user_id_of users
  pub within : count is_enabled users ≤ limit
  pub one_per_email : (email : Text) → count (has_email email) users ≤ 1
  pub one_per_subject : (subject : Text) → count (has_subject subject) identities ≤ 1

first-none : {A : Type 0} (p : A → Bool) (xs : List A) → first p xs ≡ none → any p xs ≡ false
unfolding first
first-none p [] h = refl
first-none p (x ∷ xs) h = ground (arith, first-none p xs)

module _ (limit : ℕ) where
  log_in-Accounts :
      (i : ℕ) (g : GoogleIdentity) (now : ℕ) (users : List User) (identities : List OAuthIdentity)
      → Accounts limit users identities
      → Accounts limit (update user_id_of i (log_in g now) users) identities
  log_in-Accounts i g now users identities v = record {
    ids = update-Unique user_id_of i (log_in g now) (λ u. refl) users v.ids;
    within = omega (
      arith,
      count-update_le user_id_of is_enabled i (log_in g now) users v.ids (λ u m h. h),
      v.within,
    );
    one_per_email = λ e. omega (
      arith,
      count-update_le user_id_of (has_email e) i (log_in g now) users v.ids (λ u m h. h),
      v.one_per_email e,
    );
    one_per_subject = v.one_per_subject;
  }

  identity-Accounts :
      (i : OAuthIdentity) (users : List User) (identities : List OAuthIdentity)
      → i.provider ≡ google
      → any (has_subject i.provider_subject) identities ≡ false
      → Accounts limit users identities
      → Accounts limit users (identities ++ i ∷ [])
  identity-Accounts i users identities p fresh v = record {
    ids = v.ids;
    within = v.within;
    one_per_email = v.one_per_email;
    one_per_subject = λ s. elim (Bool-cases (has_subject s i)) [
      | inr e ↦
          ground
            (arith, count-append identity_id_of (has_subject s) identities i, v.one_per_subject s)
      | inl e ↦
          let q : i.provider_subject ≡ s = (text_eq_iff i.provider_subject s).0 (ground arith) in
          let free : any (has_subject s) identities ≡ false =
            subst (λ t. any (has_subject t) identities ≡ false) q fresh in
          ground (
            arith,
            count-append identity_id_of (has_subject s) identities i,
            count-none identity_id_of (has_subject s) identities free,
          )
    ];
  }

  user-Accounts :
      (u : User) (users : List User) (identities : List OAuthIdentity)
      → get_user u.id users ≡ none
      → any (has_email u.email) users ≡ false
      → count is_enabled users < limit
      → Accounts limit users identities
      → Accounts limit (users ++ u ∷ []) identities
  user-Accounts u users identities absent fresh room v = record {
    ids = append-Unique user_id_of users u v.ids absent;
    within = ground (arith, count-append user_id_of is_enabled users u);
    one_per_email = λ e. elim (Bool-cases (has_email e u)) [
      | inr n ↦ ground (arith, count-append user_id_of (has_email e) users u, v.one_per_email e)
      | inl n ↦
          let q : u.email ≡ e = (text_eq_iff u.email e).0 n in
          let free : any (has_email e) users ≡ false =
            subst (λ t. any (has_email t) users ≡ false) q fresh in
          ground (
            arith,
            count-append user_id_of (has_email e) users u,
            count-none user_id_of (has_email e) users free,
          )
    ];
    one_per_subject = v.one_per_subject;
  }

  module _ (lib : AuthLib) where
    link-Accounts :
        (fresh : Fresh) (g : GoogleIdentity) (u : User) (db : AuthTables) (r : User × AuthTables)
        → Accounts limit db.users db.identities
        → link_identity lib fresh g u db ≡ ok r
        → Accounts limit r.1.users r.1.identities
    unfolding link_identity insert_identity update_profile
    link-Accounts fresh g u db r v h =
        let (c, h₁) = guard_inversion (is_enabled u) account_disabled _ r h in
        let n = new_identity lib fresh g u.id in
        let (db', e, h₂) = bind_inversion (insert_identity n db) _ r h₁ in
        let free : any (has_subject g.subject) db.identities ≡ false = ground arith in
        let qi : r.1.identities ≡ db.identities ++ n ∷ [] = ground arith in
        let qu : r.1.users ≡ update user_id_of u.id (log_in g fresh.now) db.users = ground arith in
        rw (qi, qu)
          (log_in-Accounts u.id g fresh.now db.users (db.identities ++ n ∷ [])
            (identity-Accounts n db.users db.identities refl free v))

    register-Accounts :
        (fresh : Fresh) (g : GoogleIdentity) (email : Text) (db : AuthTables)
        (r : User × AuthTables)
        → Accounts limit db.users db.identities
        → register lib limit fresh g email db ≡ ok r
        → Accounts limit r.1.users r.1.identities
    unfolding register insert_user
    register-Accounts fresh g email db r v h =
        let (c, h₁) =
          guard_inversion (not (leb limit (count is_enabled db.users))) capacity_reached _ r h in
        let n = new_user lib fresh g email in
        let (db', e, h₂) = bind_inversion (insert_user n db) _ r h₁ in
        let w : Accounts limit (db.users ++ n ∷ []) db.identities =
          user-Accounts n db.users db.identities (ground arith) (ground arith) (ground arith) v in
        let qi : db.identities ≡ db'.identities = ground arith in
        let qu : db.users ++ n ∷ [] ≡ db'.users = ground arith in
        link-Accounts fresh g n db' r
          (subst (λ is. Accounts limit db'.users is) qi
            (subst (λ us. Accounts limit us db.identities) qu w))
          h₂

    upsert-Accounts :
        (fresh : Fresh) (g : GoogleIdentity) (db : AuthTables) (r : User × AuthTables)
        → Accounts limit db.users db.identities
        → upsert_google_user lib limit fresh g db ≡ ok r
        → Accounts limit r.1.users r.1.identities
    unfolding upsert_google_user update_profile
    upsert-Accounts fresh g db r v h =
        elim (Option-cases (first (has_subject g.subject) db.identities)) [
          | inr (i, m) ↦ elim (Option-cases (get_user i.user_id db.users)) [
            | inl n ↦ ground arith
            | inr (u, n) ↦ elim (Bool-cases (is_enabled u)) [
              | inr e ↦ ground arith
              | inl e ↦
                  let qi : r.1.identities ≡ db.identities = ground arith in
                  let qu : r.1.users ≡ update user_id_of u.id (log_in g fresh.now) db.users =
                    ground arith in
                  rw (qi, qu) (log_in-Accounts u.id g fresh.now db.users db.identities v)
            ]
          ]
          | inl n ↦
              let (email, e, h₁) =
                bind_inversion (normalize_email lib g.google_email)
                  (known_email lib limit fresh g db) r (ground arith) in
              elim (Option-cases (first (has_email email) db.users)) [
                | inl o ↦ register-Accounts fresh g email db r v (ground arith)
                | inr (u, o) ↦ link-Accounts fresh g u db r v (ground arith)
              ]
        ]

    abbrev Fine : AuthTables → Type 0
    Fine t = Accounts limit t.users t.identities

    module _ (signing_secret : Text) where
      -- Whatever requests are served, no more accounts than the limit are enabled, no two have one
      -- email, and no Google subject has two identities.
      pub run-Accounts :
          (es : List Event) (db : AuthTables)
          → Accounts limit db.users db.identities
          → let after = run lib limit signing_secret es db in
            Accounts limit after.users after.identities
      unfolding run step google_callback create_session logout
      run-Accounts [] db v = v
      run-Accounts (e ∷ es) db v =
          run-Accounts es (step lib limit signing_secret e db) (step-Accounts e)
        where
          settled :
              (c : Call AuthTables)
              → ((t : AuthTables) → c ≡ ok t → Fine t)
              → Fine (settle lib limit signing_secret c db)
          settled (ok t) k = k t refl
          settled (err x) k = v

          touched :
              (o : Option (AuthenticatedSession × AuthTables))
              → ((r : AuthenticatedSession × AuthTables) → o ≡ some r → Fine r.1)
              → Fine (resolved lib limit signing_secret o db)
          touched none k = v
          touched (some r) k = k r refl

          resolve_keeps :
              (cookie : Option Text) (now : ℕ) (r : AuthenticatedSession × AuthTables)
              → resolve_session lib cookie now db ≡ some r
              → (r.1.users ≡ db.users) × (r.1.identities ≡ db.identities)
          resolve_keeps cookie now r h =
              let w = resolve_sound lib cookie now db r h in
              (ground (arith, w.result), ground (arith, w.result))

          step-Accounts : (e : Event) → Fine (step lib limit signing_secret e db)
          step-Accounts (sign_in fresh g id secret now) =
              settled (google_callback lib limit signing_secret fresh g id secret now db) (λ t h.
                let (account, k, h₁) =
                  bind_inversion (upsert_google_user lib limit fresh g db) _ t h in
                let (session, f, h₂) =
                  bind_inversion (create_session lib id fresh.clock secret now account.0 account.1)
                    _ t h₁ in
                let qu : t.users ≡ account.1.users = ground arith in
                let qi : t.identities ≡ account.1.identities = ground arith in
                rw (qu, qi) (upsert-Accounts fresh g db account v k))
          step-Accounts (request cookie now) =
              touched (resolve_session lib cookie now db)
                (λ r h. let (qu, qi) = resolve_keeps cookie now r h in rw (qu, qi) v)
          step-Accounts (sign_out cookie supplied now) =
              settled (logout lib signing_secret cookie supplied now db) (λ t h.
                let (auth, k, h₁) =
                  bind_inversion (authenticated (resolve_session lib cookie now db)) _ t h in
                let (c, h₂) =
                  guard_inversion
                    (supplied_valid lib auth.0.session.id auth.0.cookie_secret supplied
                      signing_secret)
                    csrf_failed _ t h₁ in
                let (pu, pi) = resolve_keeps cookie now auth (ground arith) in
                let qu : t.users ≡ db.users = ground arith in
                let qi : t.identities ≡ db.identities = ground arith in rw (qu, qi) v)
