-- ===== src/Competitors/Serving.antt =====
-- The calls of services/competitors.py that change the sources or the status of a competitor keep
-- the invariant.
use competitor_scout.Prelude.{
  ℕ, ◌≡◌, refl, sym, true, false, not, ◌&&◌, List, [], ◌∷◌, ◌++◌, Option, none, some, ◌==◌, arith,
  Option-cases, Bool-cases, inl, inr, any, ==_iff, ok, bind_inversion, guard_inversion,
}
use mathlib.Core.Path.{subst}
use competitor_scout.Prelude.Tables.{find-key, find-append, append-Unique, any-append}
use competitor_scout.Prelude.Texts.{Text}
use competitor_scout.Urls.{UrlLib}
use competitor_scout.Competitors.{
  Competitor, MonitoredSource, Tables, CompetitorStatus, active, ApprovalStatus, approved, rejected,
  suggested, is_active, is_approved, get_competitor, get_source, source_id_of, has_approved,
  approved_of, update_competitor_status, activation_not_allowed, source_unresolved,
}
use competitor_scout.Competitors.Sources.{
  select_each, allowed_url, approve, owns_all, is_empty, put_source, flush, decide,
  update_source_approval, insert_source, manual_source, create_manual_source,
  select_monitoring_sources, same_url,
}
use competitor_scout.Competitors.Invariant.{SourceOk, Inv, put_competitor-Inv, sources-Inv}
use competitor_scout.Competitors.Selection.{
  allowed_url_sound, Round, kept, rejects, approves, select_each-get, select_each-Unique,
  select_each-approved, select_each-selected,
}
use competitor_scout.Competitors.Activation.{flush_inversion, approve-Inv, reject-Inv}

module _ (lib : UrlLib) (validator : Text → Option Text) where
  module _ (c : Competitor) (db : Tables) (v : Inv lib db)
      (stored : get_competitor c.id db.competitors ≡ some c) where
    decide-Inv :
        (s : MonitoredSource) (status : ApprovalStatus) (db' : Tables)
        → get_source s.id db.sources ≡ some s
        → s.competitor_id ≡ c.id
        → decide lib validator c s status db ≡ ok db'
        → Inv lib db'
    unfolding decide
    decide-Inv s approved db' m o h =
        let (url, e, h₁) =
          bind_inversion (allowed_url lib validator s.url c.primary_domain) _ db' h in
        let (rows, f, h₂) =
          bind_inversion (flush (put_source s.id (approve url) db.sources))
            (λ r. ok (record db { sources = r })) db' h₁ in
        let q : record db { sources = put_source s.id (approve url) db.sources } ≡ db' =
          ground (arith, flush_inversion (put_source s.id (approve url) db.sources) rows f) in
        subst (Inv lib) q (
          approve-Inv lib validator c db v stored s url m o
            (allowed_url_sound lib validator s.url c.primary_domain url e).1)
    decide-Inv s rejected db' m o h =
        subst (Inv lib) (ground arith) (reject-Inv lib validator c db v stored s m o)
    decide-Inv s suggested db' m o h =
        subst (Inv lib) (ground arith) (reject-Inv lib validator c db v stored s m o)

    pub approval-Inv :
        (k : ℕ) (status : ApprovalStatus) (db' : Tables)
        → update_source_approval lib validator c k status db ≡ ok (some db')
        → Inv lib db'
    unfolding update_source_approval
    approval-Inv k status db' h = elim (Option-cases (get_source k db.sources)) [
      | inl n ↦ ground arith
      | inr (s, m) ↦ elim (Bool-cases (s.competitor_id == c.id)) [
        | inr e ↦ ground arith
        | inl e ↦
            let (w, f, g) =
              bind_inversion (decide lib validator c s status db) (λ d. ok (some d)) (some db')
                (ground arith) in
            subst (Inv lib) (ground arith) (
              decide-Inv s status w
                (subst (λ j. get_source j db.sources ≡ some s)
                  (sym (find-key source_id_of k db.sources s m)) m)
                ((==_iff s.competitor_id c.id).0 e) f)
      ]
    ]

    -- A new source is only suggested.
    suggested-Inv :
        (s : MonitoredSource)
        → s.competitor_id ≡ c.id
        → is_approved s.approval_status ≡ false
        → get_source s.id db.sources ≡ none
        → Inv lib (record db { sources = db.sources ++ s ∷ [] })
    suggested-Inv s o a n =
        sources-Inv lib db (db.sources ++ s ∷ []) v
          (append-Unique source_id_of db.sources s v.source_ids n)
          (λ i r m b. ground (
            arith,
            any-append source_id_of (approved_of i) db.sources (s ∷ []),
            v.active_has_source i r m b,
          ))
          rows_ok
      where
        rows_ok :
            (k : ℕ) (t : MonitoredSource)
            → get_source k (db.sources ++ s ∷ []) ≡ some t
            → SourceOk lib db.competitors t
        rows_ok k t m = elim (Option-cases (get_source k db.sources)) [
          | inr (t', e) ↦
              v.sources_ok k t (ground (arith, find-append source_id_of k db.sources (s ∷ [])))
          | inl e ↦
              let q : s ≡ t = ground (arith, find-append source_id_of k db.sources (s ∷ [])) in
              subst (SourceOk lib db.competitors) q
                (record { owner = c; owned = rw o stored; in_scope = λ b. cc })
        ]

    insert_source-Inv :
        (id created : ℕ) (url title : Text) (db' : Tables)
        → insert_source lib validator (manual_source lib validator id created c.id url title) db
          ≡ ok db'
        → Inv lib db'
    unfolding insert_source
    insert_source-Inv id created url title db' h =
        elim (Bool-cases (any (same_url c.id url) db.sources)) [
          | inl e ↦ subst (Inv lib) (ground arith) v
          | inr e ↦ elim (Option-cases (get_source id db.sources)) [
            | inr (s, m) ↦ ground arith
            | inl n ↦
                subst (Inv lib) (ground arith) (
                  suggested-Inv (manual_source lib validator id created c.id url title) refl refl n)
          ]
        ]

    pub create_manual_source-Inv :
        (title_of : Text → Text) (id created : ℕ) (url : Text) (db' : Tables)
        → create_manual_source lib validator title_of id created c url db ≡ ok db'
        → Inv lib db'
    unfolding create_manual_source
    create_manual_source-Inv title_of id created url db' h =
        let (n, e, h₁) = bind_inversion (allowed_url lib validator url c.primary_domain) _ db' h in
        let (w, f, h₂) =
          bind_inversion
            (insert_source lib validator
              (manual_source lib validator id created c.id n (title_of n)) db)
            _ db' h₁ in
        let (g, h₃) =
          guard_inversion (any (same_url c.id n) w.sources) source_unresolved (ok w) db' h₂ in
        subst (Inv lib) (ground arith) (insert_source-Inv id created n (title_of n) w f)

    -- The selection approves a source of the competitor, which then may be active.
    pub select-Inv :
        (ids : List ℕ) (db' : Tables)
        → select_monitoring_sources lib validator c ids db ≡ ok db'
        → Inv lib db'
    unfolding select_monitoring_sources
    select-Inv ids db' h =
        let (g, h₁) =
          guard_inversion
            (not (is_empty lib validator ids) && owns_all lib validator c ids db.sources)
            activation_not_allowed _ db' h in
        let (rows, e, h₂) = bind_inversion (select_each lib validator c ids db.sources) _ db' h₁ in
        let (rows', f, h₃) = bind_inversion (flush rows) _ db' h₂ in
        let q : rows' ≡ rows = flush_inversion rows rows' f in
        subst (Inv lib) (ground arith) (
          put_competitor-Inv lib c.id (λ r. record r { status = active }) (λ r. refl) (λ r. refl)
            (record db { sources = rows }) (selected-Inv ids rows e)
            (λ r m a. has_selected ids rows g e))
      where
        has_selected :
            (ids : List ℕ) (rows : List MonitoredSource)
            → (not (is_empty lib validator ids) && owns_all lib validator c ids db.sources) ≡ true
            → select_each lib validator c ids db.sources ≡ ok rows
            → has_approved c.id rows ≡ true
        has_selected [] rows g e = ground arith
        has_selected (i ∷ is) rows g e =
            select_each-selected lib validator c (i ∷ is) db.sources rows i e (ground arith)
              (ground arith)

        round_ok :
            (ids : List ℕ) (s t : MonitoredSource)
            → SourceOk lib db.competitors s
            → Round lib validator c ids s t
            → SourceOk lib db.competitors t
        round_ok ids s t w (kept e) = subst (SourceOk lib db.competitors) (sym e) w
        round_ok ids s t w (rejects o q e m) =
            subst (SourceOk lib db.competitors) (sym e)
              (record { owner = w.owner; owned = w.owned; in_scope = λ b. cc })
        round_ok ids s t w (approves url o x d e) =
            subst (SourceOk lib db.competitors) (sym e) (record {
              owner = c;
              owned = rw ((==_iff s.competitor_id c.id).0 o) stored;
              in_scope = λ _. (d, refl);
            })

        selected-Inv :
            (ids : List ℕ) (rows : List MonitoredSource)
            → select_each lib validator c ids db.sources ≡ ok rows
            → Inv lib (record db { sources = rows })
        selected-Inv ids rows e =
            sources-Inv lib db rows v
              (select_each-Unique lib validator c ids db.sources rows e v.source_ids)
              (λ i r m a.
                select_each-approved lib validator c ids db.sources rows i e
                  (v.active_has_source i r m a))
              (λ k t m.
                let (s, n, r) = select_each-get lib validator c ids db.sources rows k t e m in
                round_ok ids s t (v.sources_ok k s n) r)

    pub update_status-Inv :
        (status : CompetitorStatus) (db' : Tables)
        → update_competitor_status c status db ≡ ok db'
        → Inv lib db'
    unfolding update_competitor_status
    update_status-Inv status db' h = subst (Inv lib) (ground arith) (
        put_competitor-Inv lib c.id (λ r. record r { status = status }) (λ r. refl) (λ r. refl) db v
          (λ r m a. elim (Bool-cases (has_approved c.id db.sources)) [
            | inl e ↦ e
            | inr e ↦ elim (Bool-cases (is_active c.status)) [
              | inl b ↦ v.active_has_source c.id c stored b
              | inr b ↦ ground arith
            ]
          ]))
