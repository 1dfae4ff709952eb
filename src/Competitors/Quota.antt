-- ===== src/Competitors/Quota.antt =====
-- Every route keeps the limit on competitors and their domains.
use competitor_scout.Prelude.{
  ℕ, ◌≡◌, refl, false, List, [], ◌∷◌, Option, some, arith, Option-cases, inl, inr, ok, err,
  bind_inversion, ap, ◌∙◌, ◌>>=◌,
}
use mathlib.Core.Path.{subst}
use competitor_scout.Prelude.Texts.{Text}
use competitor_scout.Urls.{UrlLib}
use competitor_scout.Competitors.{
  Competitor, Tables, Call, ApprovalStatus, get_competitor, create_with_domain, owned_competitor,
  soft_delete_competitor, is_deleted, put_competitor,
}
use competitor_scout.Competitors.Domains.{normalize_primary_domain}
use competitor_scout.Competitors.Sources.{
  update_source_approval, create_manual_source, select_monitoring_sources,
}
use competitor_scout.Competitors.Routes.{
  Request, create, update, delete, add_source, approval, start_monitoring, handle, serve, settle,
  update_fields, request_snapshot, decision, or_not_found, on_owned,
}
use competitor_scout.Competitors.Capacity.{Capacity, put-Capacity, create-Capacity}
use competitor_scout.Competitors.Limits.{
  live_stored, approval-Capacity, create_manual_source-Capacity, select-Capacity,
  update_fields-Capacity, delete-Capacity,
}

module _ (lib : UrlLib) (limit : ℕ) where
  module _ (validator : Text → Option Text) (title_of : Text → Text) where
    owned-Capacity :
        (user i : ℕ) (db db' : Tables) (act : Competitor → Call Tables)
        → ((c : Competitor)
            → get_competitor c.id db.competitors ≡ some c
            → is_deleted c.status ≡ false
            → act c ≡ ok db'
            → Capacity limit db'.competitors)
        → on_owned lib validator title_of limit user i db act ≡ ok db'
        → Capacity limit db'.competitors
    owned-Capacity user i db db' act k h = elim (Option-cases (owned_competitor user i false db)) [
      | inl n ↦ ground arith
      | inr (c, m) ↦
          let (stored, live) = live_stored user i db c m in k c stored live (ground arith)
    ]

    approve-Capacity :
        (c : Competitor) (source_id : ℕ) (status : ApprovalStatus) (db db' : Tables)
        → Capacity limit db.competitors
        → get_competitor c.id db.competitors ≡ some c
        → is_deleted c.status ≡ false
        → (update_source_approval lib validator c source_id status db >>= or_not_found) ≡ ok db'
        → Capacity limit db'.competitors
    approve-Capacity c source_id status db db' v m l h =
        let (found, f, g) =
          bind_inversion (update_source_approval lib validator c source_id status db) or_not_found
            db' h in
        elim (Option-cases found) [
          | inl n ↦ ground arith
          | inr (w, e) ↦
              subst (Capacity limit) (ground arith)
                (approval-Capacity lib limit validator c db m l v source_id status w (f ∙ ap ok e))
        ]

    monitor-Capacity :
        (c : Competitor) (now : ℕ) (ids : List ℕ) (db db' : Tables)
        → Capacity limit db.competitors
        → get_competitor c.id db.competitors ≡ some c
        → is_deleted c.status ≡ false
        → (do
          w ← select_monitoring_sources lib validator c ids db
          ok (put_competitor c.id (request_snapshot now) w))
          ≡ ok db'
        → Capacity limit db'.competitors
    monitor-Capacity c now ids db db' v m l h =
        let (w, f, g) = bind_inversion (select_monitoring_sources lib validator c ids db) _ db' h in
        subst (Capacity limit) (ground arith) (
          put-Capacity limit c.id (request_snapshot now) (λ r. refl) (λ r. refl) (λ r. refl)
            w.competitors (λ r n q. q) (select-Capacity lib limit validator c db m l v ids w f))

    handle-Capacity :
        (r : Request) (db db' : Tables)
        → Capacity limit db.competitors
        → handle lib validator title_of limit r db ≡ ok db'
        → Capacity limit db'.competitors
    unfolding handle
    handle-Capacity (create id now user name domain description time) db db' v h =
        let (host, e, h₁) = bind_inversion (normalize_primary_domain lib domain) _ db' h in
        let ((c, w), f, h₂) =
          bind_inversion (create_with_domain id now user name host description time limit db) _ db'
            h₁ in
        subst (Capacity limit) (ground arith)
          (create-Capacity limit id now user name host description time db w c f v)
    handle-Capacity (update user i u) db db' v h =
        owned-Capacity user i db db' (λ c. update_fields c u db)
          (λ c m l. update_fields-Capacity lib limit validator c db m l v u db') h
    handle-Capacity (delete user i now) db db' v h =
        owned-Capacity user i db db' (λ c. ok (soft_delete_competitor now c db))
          (λ c m l g.
            subst (Capacity limit) (ground arith)
              (delete-Capacity lib limit validator c db m l v now))
          h
    handle-Capacity (add_source user i id now url) db db' v h =
        owned-Capacity user i db db'
          (λ c. create_manual_source lib validator title_of id now c url db)
          (λ c m l.
            create_manual_source-Capacity lib limit validator c db m l v title_of id now url db')
          h
    handle-Capacity (approval user i source_id approves) db db' v h =
        owned-Capacity user i db db' _
          (λ c. approve-Capacity c source_id (decision approves) db db' v) h
    handle-Capacity (start_monitoring user i now ids) db db' v h =
        owned-Capacity user i db db' _ (λ c. monitor-Capacity c now ids db db' v) h

    -- Whatever requests are served one after another, a user never has more live competitors than
    -- the limit, nor two live competitors with the same domain, if this was so before.
    pub serve-Capacity :
        (db : Tables) (rs : List Request)
        → Capacity limit db.competitors
        → Capacity limit (serve lib validator title_of limit db rs).competitors
    unfolding serve
    serve-Capacity db [] v = v
    serve-Capacity db (r ∷ rs) v =
        serve-Capacity
          (settle lib validator title_of limit (handle lib validator title_of limit r db) db) rs
          (settled-Capacity (handle lib validator title_of limit r db) refl)
      where
        settled-Capacity :
            (m : Call Tables)
            → handle lib validator title_of limit r db ≡ m
            → Capacity limit (settle lib validator title_of limit m db).competitors
        settled-Capacity (ok w) e = handle-Capacity r db w v e
        settled-Capacity (err x) e = v
