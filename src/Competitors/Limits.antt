-- ===== src/Competitors/Limits.antt =====
-- The calls on a competitor of a user keep the limit on competitors and their domains.
use competitor_scout.Prelude.{
  ℕ, ◌≡◌, refl, sym, false, not, ◌&&◌, List, Option, some, ◌==◌, arith, Option-cases, Bool-cases,
  inl, inr, any, ap, ◌∙◌, ok, bind_inversion, guard_inversion,
}
use mathlib.Core.Path.{subst}
use competitor_scout.Prelude.Tables.{find-key}
use competitor_scout.Prelude.Texts.{Text}
use competitor_scout.Urls.{UrlLib}
use competitor_scout.Competitors.{
  Competitor, MonitoredSource, Tables, active, discovering, deleted, ApprovalStatus, approved,
  rejected, suggested, is_active, get_competitor, get_source, competitor_id_of, put_competitor,
  has_approved, owned_competitor, soft_delete_competitor, update_competitor_status,
  activation_not_allowed, source_unresolved, is_deleted,
}
use competitor_scout.Competitors.Sources.{
  select_each, allowed_url, approve, reject, owns_all, is_empty, put_source, flush, demote, decide,
  update_source_approval, insert_source, manual_source, create_manual_source,
  select_monitoring_sources, same_url,
}
use competitor_scout.Competitors.Routes.{
  update_fields, set_fields, requested_status, CompetitorUpdate,
}
use competitor_scout.Competitors.Capacity.{Capacity, put-Capacity, status-Capacity}

-- The competitor of a route is stored and not deleted.
pub live_stored :
    (user i : ℕ) (db : Tables) (c : Competitor)
    → owned_competitor user i false db ≡ some c
    → (get_competitor c.id db.competitors ≡ some c) × (is_deleted c.status ≡ false)
unfolding owned_competitor
live_stored user i db c h = elim (Option-cases (get_competitor i db.competitors)) [
  | inl n ↦ ground arith
  | inr (r, m) ↦
      let q : r ≡ c = ground arith in
      let k : c.id ≡ i =
        ap (λ (x : Competitor). x.id) (sym q) ∙ find-key competitor_id_of i db.competitors r m in
      (
        subst (λ j. get_competitor j db.competitors ≡ some c) (sym k) (ground arith),
        subst (λ (x : Competitor). is_deleted x.status ≡ false) q (ground arith),
      )
]

module _ (lib : UrlLib) (limit : ℕ) where
  module _ (validator : Text → Option Text) (c : Competitor) (db : Tables)
      (stored : get_competitor c.id db.competitors ≡ some c) (live : is_deleted c.status ≡ false)
      (v : Capacity limit db.competitors) where
    pub approval-Capacity :
        (k : ℕ) (status : ApprovalStatus) (db' : Tables)
        → update_source_approval lib validator c k status db ≡ ok (some db')
        → Capacity limit db'.competitors
    unfolding update_source_approval decide demote
    approval-Capacity k status db' h = elim (Option-cases (get_source k db.sources)) [
      | inl n ↦ ground arith
      | inr (s, m) ↦ elim (Bool-cases (s.competitor_id == c.id)) [
        | inr e ↦ ground arith
        | inl e ↦
            let (w, f, g) =
              bind_inversion (decide lib validator c s status db) (λ d. ok (some d)) (some db')
                (ground arith) in
            subst (Capacity limit) (ground arith) (decided s status w f)
      ]
    ]
      where
        demoted :
            (t : Tables)
            → t.competitors ≡ db.competitors
            → Capacity limit (demote lib validator c t).competitors
        demoted t q = elim (Bool-cases (not (has_approved c.id t.sources) && is_active c.status)) [
          | inl e ↦ rw (e, q) (status-Capacity limit c discovering db.competitors stored live v)
          | inr e ↦ rw (e, q) v
        ]

        decided :
            (s : MonitoredSource) (status : ApprovalStatus) (w : Tables)
            → decide lib validator c s status db ≡ ok w
            → Capacity limit w.competitors
        decided s approved w f =
            let (url, e, h₁) =
              bind_inversion (allowed_url lib validator s.url c.primary_domain) _ w f in
            let (rows, g, h₂) =
              bind_inversion (flush (put_source s.id (approve url) db.sources))
                (λ r. ok (record db { sources = r })) w h₁ in
            let q : w.competitors ≡ db.competitors = ground arith in rw q v
        decided s rejected w f =
            subst (Capacity limit) (ground arith)
              (demoted (record db { sources = put_source s.id reject db.sources }) refl)
        decided s suggested w f =
            subst (Capacity limit) (ground arith)
              (demoted (record db { sources = put_source s.id reject db.sources }) refl)

    pub create_manual_source-Capacity :
        (title_of : Text → Text) (id created : ℕ) (url : Text) (db' : Tables)
        → create_manual_source lib validator title_of id created c url db ≡ ok db'
        → Capacity limit db'.competitors
    unfolding create_manual_source insert_source
    create_manual_source-Capacity title_of id created url db' h =
        let (n, e, h₁) = bind_inversion (allowed_url lib validator url c.primary_domain) _ db' h in
        let (w, f, h₂) =
          bind_inversion
            (insert_source lib validator
              (manual_source lib validator id created c.id n (title_of n)) db)
            _ db' h₁ in
        let (g, h₃) =
          guard_inversion (any (same_url c.id n) w.sources) source_unresolved (ok w) db' h₂ in
        let q : w.competitors ≡ db.competitors = ground arith in
        let q' : db'.competitors ≡ db.competitors = ground arith in rw q' v

    pub select-Capacity :
        (ids : List ℕ) (db' : Tables)
        → select_monitoring_sources lib validator c ids db ≡ ok db'
        → Capacity limit db'.competitors
    unfolding select_monitoring_sources
    select-Capacity ids db' h =
        let (g, h₁) =
          guard_inversion
            (not (is_empty lib validator ids) && owns_all lib validator c ids db.sources)
            activation_not_allowed _ db' h in
        let (rows, e, h₂) = bind_inversion (select_each lib validator c ids db.sources) _ db' h₁ in
        let (rows', f, h₃) = bind_inversion (flush rows) _ db' h₂ in
        subst (Capacity limit) (ground arith)
          (status-Capacity limit c active db.competitors stored live v)

    pub update_fields-Capacity :
        (u : CompetitorUpdate) (db' : Tables)
        → update_fields c u db ≡ ok db'
        → Capacity limit db'.competitors
    unfolding update_fields update_competitor_status
    update_fields-Capacity u db' h = elim (Option-cases u.new_status) [
      | inl n ↦ subst (Capacity limit) (ground arith) (set-Capacity db v)
      | inr (s, m) ↦
          let (w, f, g) =
            bind_inversion (update_competitor_status c (requested_status s) db)
              (λ d. ok (put_competitor c.id (set_fields u) d)) db' (ground arith) in
          subst (Capacity limit) (ground arith) (
            set-Capacity w (
              subst (Capacity limit) (ground arith)
                (status-Capacity limit c (requested_status s) db.competitors stored live v)))
    ]
      where
        set-Capacity :
            (d : Tables)
            → Capacity limit d.competitors
            → Capacity limit (put_competitor c.id (set_fields u) d).competitors
        set-Capacity d =
            put-Capacity limit c.id (set_fields u) (λ r. refl) (λ r. refl) (λ r. refl) d.competitors
              (λ r n q. q)

    pub delete-Capacity : (now : ℕ) → Capacity limit (soft_delete_competitor now c db).competitors
    unfolding soft_delete_competitor
    delete-Capacity now =
        put-Capacity limit c.id (λ r. record r { status = deleted; deleted_at = some now })
          (λ r. refl) (λ r. refl) (λ r. refl) db.competitors (λ r m a. cc) v
