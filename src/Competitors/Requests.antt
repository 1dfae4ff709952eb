-- ===== src/Competitors/Requests.antt =====
-- Every route keeps the invariant: an active competitor has an approved source, and approved
-- sources are in the scope of their competitor.
use competitor_scout.Prelude.{
  ℕ, ◌≡◌, refl, sym, Bool, false, not, List, [], ◌∷◌, Option, none, some, arith, Option-cases, inl,
  inr, any, ap, ◌∙◌, ok, err, bind_inversion, guard_inversion, ◌>>=◌, count,
}
use mathlib.Core.Path.{subst}
use competitor_scout.Prelude.Tables.{find-key}
use competitor_scout.Prelude.Texts.{Text}
use competitor_scout.Urls.{UrlLib}
use competitor_scout.Competitors.{
  Competitor, Tables, deleted, Call, ApprovalStatus, get_competitor, competitor_id_of,
  put_competitor, create_with_domain, new_competitor, insert_competitor, owned_competitor,
  soft_delete_competitor, update_competitor_status, ensure_competitor_capacity, live_with_domain,
  live_of, duplicate_competitor,
}
use competitor_scout.Competitors.Domains.{normalize_primary_domain}
use competitor_scout.Competitors.Sources.{
  update_source_approval, create_manual_source, select_monitoring_sources,
}
use competitor_scout.Competitors.Invariant.{Inv, put_competitor-Inv, add_competitor-Inv}
use competitor_scout.Competitors.Serving.{
  approval-Inv, create_manual_source-Inv, select-Inv, update_status-Inv,
}
use competitor_scout.Competitors.Routes.{
  Request, create, update, delete, add_source, approval, start_monitoring, handle, serve, settle,
  update_fields, set_fields, request_snapshot, requested_status, decision, CompetitorUpdate,
  or_not_found, on_owned,
}

owned_stored :
    (user i : ℕ) (gone : Bool) (db : Tables) (c : Competitor)
    → owned_competitor user i gone db ≡ some c
    → get_competitor c.id db.competitors ≡ some c
unfolding owned_competitor
owned_stored user i gone db c h = elim (Option-cases (get_competitor i db.competitors)) [
  | inl n ↦ ground arith
  | inr (r, m) ↦
      let q : r ≡ c = ground arith in
      let k : c.id ≡ i =
        ap (λ (x : Competitor). x.id) (sym q) ∙ find-key competitor_id_of i db.competitors r m in
      subst (λ j. get_competitor j db.competitors ≡ some c) (sym k) (ground arith)
]

module _ (lib : UrlLib) where
  create-Inv :
      (id created user : ℕ) (name domain description : Text) (time limit : ℕ) (db db' : Tables)
      (c : Competitor)
      → Inv lib db
      → create_with_domain id created user name domain description time limit db ≡ ok (c, db')
      → Inv lib db'
  unfolding create_with_domain insert_competitor
  create-Inv id created user name domain description time limit db db' c v h =
      let n = new_competitor id created user name domain description time in
      let (g, h₁) =
        guard_inversion (not (any (live_with_domain user domain) db.competitors))
          duplicate_competitor _ (c, db') h in
      let (u, e, h₂) =
        bind_inversion (ensure_competitor_capacity (count (live_of user) db.competitors) limit) _
          (c, db') h₁ in
      let (w, f, h₃) = bind_inversion (insert_competitor n db) _ (c, db') h₂ in
      subst (Inv lib) (ground arith) (add_competitor-Inv lib db n v (ground arith) refl)

  update_fields-Inv :
      (c : Competitor) (u : CompetitorUpdate) (db db' : Tables)
      → Inv lib db
      → get_competitor c.id db.competitors ≡ some c
      → update_fields c u db ≡ ok db'
      → Inv lib db'
  unfolding update_fields
  update_fields-Inv c u db db' v stored h = elim (Option-cases u.new_status) [
    | inl n ↦ subst (Inv lib) (ground arith) (set-Inv db v)
    | inr (s, m) ↦
        let (w, f, g) =
          bind_inversion (update_competitor_status c (requested_status s) db)
            (λ d. ok (put_competitor c.id (set_fields u) d)) db' (ground arith) in
        subst (Inv lib) (ground arith)
          (set-Inv w (update_status-Inv lib (λ _. none) c db v stored (requested_status s) w f))
  ]
    where
      set-Inv : (d : Tables) → Inv lib d → Inv lib (put_competitor c.id (set_fields u) d)
      set-Inv d w =
          put_competitor-Inv lib c.id (set_fields u) (λ r. refl) (λ r. refl) d w
            (λ r m a. w.active_has_source c.id r m a)

  delete-Inv :
      (now : ℕ) (c : Competitor) (db : Tables)
      → Inv lib db
      → Inv lib (soft_delete_competitor now c db)
  unfolding soft_delete_competitor
  delete-Inv now c db v =
      put_competitor-Inv lib c.id (λ r. record r { status = deleted; deleted_at = some now })
        (λ r. refl) (λ r. refl) db v (λ r m a. cc)

  snapshot-Inv :
      (now : ℕ) (c : Competitor) (db : Tables)
      → Inv lib db
      → Inv lib (put_competitor c.id (request_snapshot now) db)
  snapshot-Inv now c db v =
      put_competitor-Inv lib c.id (request_snapshot now) (λ r. refl) (λ r. refl) db v
        (λ r m a. v.active_has_source c.id r m a)

  -- Requests that raise leave the tables as they were.
  module _ (validator : Text → Option Text) (title_of : Text → Text) (limit : ℕ) where
    owned-Inv :
        (user i : ℕ) (db db' : Tables) (act : Competitor → Call Tables)
        → ((c : Competitor)
            → get_competitor c.id db.competitors ≡ some c
            → act c ≡ ok db'
            → Inv lib db')
        → on_owned lib validator title_of limit user i db act ≡ ok db'
        → Inv lib db'
    owned-Inv user i db db' act k h = elim (Option-cases (owned_competitor user i false db)) [
      | inl n ↦ ground arith
      | inr (c, m) ↦ k c (owned_stored user i false db c m) (ground arith)
    ]

    approve-Inv :
        (c : Competitor) (source_id : ℕ) (status : ApprovalStatus) (db db' : Tables)
        → Inv lib db
        → get_competitor c.id db.competitors ≡ some c
        → (update_source_approval lib validator c source_id status db >>= or_not_found) ≡ ok db'
        → Inv lib db'
    approve-Inv c source_id status db db' v m h =
        let (found, f, g) =
          bind_inversion (update_source_approval lib validator c source_id status db) or_not_found
            db' h in
        elim (Option-cases found) [
          | inl n ↦ ground arith
          | inr (w, e) ↦
              subst (Inv lib) (ground arith)
                (approval-Inv lib validator c db v m source_id status w (f ∙ ap ok e))
        ]

    monitor-Inv :
        (c : Competitor) (now : ℕ) (ids : List ℕ) (db db' : Tables)
        → Inv lib db
        → get_competitor c.id db.competitors ≡ some c
        → (do
          w ← select_monitoring_sources lib validator c ids db
          ok (put_competitor c.id (request_snapshot now) w))
          ≡ ok db'
        → Inv lib db'
    monitor-Inv c now ids db db' v m h =
        let (w, f, g) = bind_inversion (select_monitoring_sources lib validator c ids db) _ db' h in
        subst (Inv lib) (ground arith)
          (snapshot-Inv now c w (select-Inv lib validator c db v m ids w f))

    handle-Inv :
        (r : Request) (db db' : Tables)
        → Inv lib db
        → handle lib validator title_of limit r db ≡ ok db'
        → Inv lib db'
    unfolding handle
    handle-Inv (create id now user name domain description time) db db' v h =
        let (host, e, h₁) = bind_inversion (normalize_primary_domain lib domain) _ db' h in
        let ((c, w), f, h₂) =
          bind_inversion (create_with_domain id now user name host description time limit db) _ db'
            h₁ in
        subst (Inv lib) (ground arith)
          (create-Inv id now user name host description time limit db w c v f)
    handle-Inv (update user i u) db db' v h =
        owned-Inv user i db db' (λ c. update_fields c u db)
          (λ c m g. update_fields-Inv c u db db' v m g) h
    handle-Inv (delete user i now) db db' v h =
        owned-Inv user i db db' (λ c. ok (soft_delete_competitor now c db))
          (λ c m g. subst (Inv lib) (ground arith) (delete-Inv now c db v)) h
    handle-Inv (add_source user i id now url) db db' v h =
        owned-Inv user i db db' (λ c. create_manual_source lib validator title_of id now c url db)
          (λ c m g. create_manual_source-Inv lib validator c db v m title_of id now url db' g) h
    handle-Inv (approval user i source_id approves) db db' v h =
        owned-Inv user i db db' _ (λ c. approve-Inv c source_id (decision approves) db db' v) h
    handle-Inv (start_monitoring user i now ids) db db' v h =
        owned-Inv user i db db' _ (λ c. monitor-Inv c now ids db db' v) h

    -- Whatever requests are served one after another, and whether they succeed or raise, every
    -- active competitor has an approved source, every source belongs to a stored competitor, and the
    -- URL of an approved source is the normalized one and in the scope of its competitor's domain, if
    -- this was so before.
    pub serve-Inv :
        (db : Tables) (rs : List Request)
        → Inv lib db
        → Inv lib (serve lib validator title_of limit db rs)
    unfolding serve
    serve-Inv db [] v = v
    serve-Inv db (r ∷ rs) v =
        serve-Inv
          (settle lib validator title_of limit (handle lib validator title_of limit r db) db) rs
          (settled-Inv (handle lib validator title_of limit r db) refl)
      where
        settled-Inv :
            (m : Call Tables)
            → handle lib validator title_of limit r db ≡ m
            → Inv lib (settle lib validator title_of limit m db)
        settled-Inv (ok w) e = handle-Inv r db w v e
        settled-Inv (err x) e = v
