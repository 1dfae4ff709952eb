-- ===== src/Competitors/Activation.antt =====
-- `update_source_approval` of services/competitors.py and the invariant: an approval, and a
-- rejection with the demotion of the competitor.
use competitor_scout.Prelude.{
  ℕ, ◌≡◌, ◌≢◌, refl, sym, true, false, List, Option, some, ◌==◌, arith, Bool-cases, inl, inr, ap,
  ◌∙◌, ==_iff, ok,
}
use mathlib.Core.Path.{subst}
use competitor_scout.Prelude.Tables.{
  Unique, find-update, update-Unique, any-update_mono, any-update_same,
}
use competitor_scout.Prelude.Texts.{Text}
use competitor_scout.Urls.{UrlLib, same_registrable_domain}
use competitor_scout.Competitors.{
  Competitor, MonitoredSource, Tables, discovering, is_active, get_competitor, get_source,
  competitor_id_of, source_id_of, put_competitor, has_approved, approved_of,
}
use competitor_scout.Competitors.Sources.{approve, reject, put_source, flush, demote}
use competitor_scout.Competitors.Invariant.{SourceOk, Inv, put_competitor-Inv, sources-Inv}
use competitor_scout.Competitors.Routes.{}

pub flush_inversion : (rows rows' : List MonitoredSource) → flush rows ≡ ok rows' → rows' ≡ rows
unfolding flush
flush_inversion rows rows' h = ground arith

module _ (lib : UrlLib) (validator : Text → Option Text) where
  module _ (c : Competitor) (db : Tables) (v : Inv lib db)
      (stored : get_competitor c.id db.competitors ≡ some c) where
    -- The approval of a source, with an allowed URL.
    pub approve-Inv :
        (s : MonitoredSource) (url : Text)
        → get_source s.id db.sources ≡ some s
        → s.competitor_id ≡ c.id
        → same_registrable_domain lib url c.primary_domain ≡ true
        → Inv lib (record db { sources = put_source s.id (approve url) db.sources })
    approve-Inv s url m o d =
        sources-Inv lib db (put_source s.id (approve url) db.sources) v
          (update-Unique source_id_of s.id (approve url) (λ r. refl) db.sources v.source_ids)
          (λ i r n a.
            any-update_mono source_id_of (approved_of i) s.id (approve url) (λ x h. ground arith)
              db.sources (v.active_has_source i r n a))
          rows_ok
      where
        rows_ok :
            (k : ℕ) (t : MonitoredSource)
            → get_source k (put_source s.id (approve url) db.sources) ≡ some t
            → SourceOk lib db.competitors t
        rows_ok k t n = elim (Bool-cases (s.id == k)) [
          | inr e ↦
              v.sources_ok k t (
                ground
                  (arith, find-update source_id_of s.id k (approve url) (λ r. refl) db.sources))
          | inl e ↦
              let q : approve url s ≡ t = ground (
                arith,
                find-update source_id_of s.id k (approve url) (λ r. refl) db.sources,
                ap (λ (n : ℕ). get_source n db.sources) ((==_iff s.id k).0 e),
              ) in
              subst (SourceOk lib db.competitors) q
                (record { owner = c; owned = rw o stored; in_scope = λ _. (d, refl) })
        ]

    module _ (s : MonitoredSource) (m : get_source s.id db.sources ≡ some s)
        (o : s.competitor_id ≡ c.id) where
      abbrev pub rejected_rows : List MonitoredSource
      rejected_rows = put_source s.id reject db.sources

      rejected_rows-Unique : Unique source_id_of rejected_rows
      rejected_rows-Unique =
          update-Unique source_id_of s.id reject (λ r. refl) db.sources v.source_ids

      -- Other competitors keep their approved sources.
      others_approved :
          (i : ℕ) → i ≢ c.id → has_approved i rejected_rows ≡ has_approved i db.sources
      others_approved i n =
          any-update_same source_id_of (approved_of i) s.id reject db.sources s v.source_ids m
            (ground arith)

      rejected_rows_ok :
          (competitors : List Competitor)
          → ((k : ℕ) (t : MonitoredSource)
              → get_source k db.sources ≡ some t
              → SourceOk lib competitors t)
          → (k : ℕ) (t : MonitoredSource) → get_source k rejected_rows ≡ some t
          → SourceOk lib competitors t
      rejected_rows_ok competitors fine k t n = elim (Bool-cases (s.id == k)) [
        | inr e ↦
            fine k t (ground (arith, find-update source_id_of s.id k reject (λ r. refl) db.sources))
        | inl e ↦
            let q : reject s ≡ t = ground (
              arith,
              find-update source_id_of s.id k reject (λ r. refl) db.sources,
              ap (λ (n : ℕ). get_source n db.sources) ((==_iff s.id k).0 e),
            ) in
            let w = fine s.id s m in
            subst (SourceOk lib competitors) q
              (record { owner = w.owner; owned = w.owned; in_scope = λ a. cc })
      ]

      demoted : Tables
      demoted = put_competitor c.id (λ r. record r { status = discovering }) db

      demoted-Inv : Inv lib demoted
      unfolding demoted
      demoted-Inv =
          put_competitor-Inv lib c.id (λ r. record r { status = discovering }) (λ r. refl)
            (λ r. refl) db v (λ r n a. cc)

      demoted_active :
          (i : ℕ) (r : Competitor)
          → get_competitor i demoted.competitors ≡ some r
          → is_active r.status ≡ true
          → i ≢ c.id
      unfolding demoted
      demoted_active i r n a e = ground (
        arith,
        find-update competitor_id_of c.id i (λ r. record r { status = discovering }) (λ r. refl)
            db.competitors,
        ap (λ (n : ℕ). get_competitor n db.competitors) e,
      )

      -- The rejection of a source, with the demotion of a competitor that has no other.
      pub reject-Inv : Inv lib (demote lib validator c (record db { sources = rejected_rows }))
      unfolding demote demoted
      reject-Inv = elim (Bool-cases (has_approved c.id rejected_rows)) [
        | inl a ↦ rw a (
            sources-Inv lib db rejected_rows v rejected_rows-Unique (kept_with a)
              (rejected_rows_ok db.competitors v.sources_ok))
        | inr a ↦ elim (Bool-cases (is_active c.status)) [
          | inr b ↦
              rw (a, b)
                (sources-Inv lib db rejected_rows v rejected_rows-Unique (kept_inactive b)
                  (rejected_rows_ok db.competitors v.sources_ok))
          | inl b ↦
              rw (a, b)
                (sources-Inv lib demoted rejected_rows demoted-Inv rejected_rows-Unique kept_others
                  (rejected_rows_ok demoted.competitors demoted-Inv.sources_ok))
        ]
      ]
        where
          kept_with :
              has_approved c.id rejected_rows ≡ true
              → (i : ℕ) (r : Competitor) → get_competitor i db.competitors ≡ some r
              → is_active r.status ≡ true
              → has_approved i rejected_rows ≡ true
          kept_with a i r n b = elim (Bool-cases (i == c.id)) [
            | inl e ↦ subst (λ j. has_approved j rejected_rows ≡ true) (sym ((==_iff i c.id).0 e)) a
            | inr e ↦ others_approved i (ground arith) ∙ v.active_has_source i r n b
          ]

          kept_inactive :
              is_active c.status ≡ false
              → (i : ℕ) (r : Competitor) → get_competitor i db.competitors ≡ some r
              → is_active r.status ≡ true
              → has_approved i rejected_rows ≡ true
          kept_inactive q i r n b = elim (Bool-cases (i == c.id)) [
            | inl e ↦
                ground
                  (arith, ap (λ (j : ℕ). get_competitor j db.competitors) ((==_iff i c.id).0 e))
            | inr e ↦ others_approved i (ground arith) ∙ v.active_has_source i r n b
          ]

          kept_others :
              (i : ℕ) (r : Competitor)
              → get_competitor i demoted.competitors ≡ some r
              → is_active r.status ≡ true
              → has_approved i rejected_rows ≡ true
          kept_others i r n b =
              others_approved i (demoted_active i r n b) ∙ demoted-Inv.active_has_source i r n b
