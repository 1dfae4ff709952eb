-- ===== src/Competitors/Selection.antt =====
-- What the loop of `select_monitoring_sources` does to the sources.
use competitor_scout.Prelude.{
  ℕ, ◌≡◌, true, false, ◌&&◌, List, [], ◌∷◌, Option, none, some, ◌==◌, arith, Bool-cases, inl, inr,
  any, ok, bind_inversion, guard_inversion,
}
use mathlib.Core.Path.{subst}
use competitor_scout.Prelude.Tables.{Unique}
use competitor_scout.Prelude.Texts.{Text}
use competitor_scout.Urls.{UrlLib, same_registrable_domain, from_option}
use competitor_scout.Competitors.{
  Competitor, MonitoredSource, is_suggested, get_source, source_id_of, has_approved, approved_of,
  source_not_allowed,
}
use competitor_scout.Competitors.Sources.{
  select_one, select_each, allowed_url, approve, reject, owned_by, mem_id,
}

module _ (lib : UrlLib) (validator : Text → Option Text) where
  -- An allowed URL is what the validator gave, in the scope of the domain.
  pub allowed_url_sound :
      (url domain u : Text)
      → allowed_url lib validator url domain ≡ ok u
      → (validator url ≡ some u) × (same_registrable_domain lib u domain ≡ true)
  unfolding allowed_url
  allowed_url_sound url domain u h =
      let (n, e, h₁) = bind_inversion (from_option source_not_allowed (validator url)) _ u h in
      let (g, h₂) = guard_inversion (same_registrable_domain lib n domain) _ _ u h₁ in
      (ground arith, ground arith)

  module _ (c : Competitor) (selected : List ℕ) where
    -- What a round makes of a source.
    pub data Round (s s' : MonitoredSource) : Type 0 where
      kept : s' ≡ s → Round s s'
      rejects :
          owned_by lib validator c s ≡ true
          → is_suggested s.approval_status ≡ true
          → s' ≡ reject s
          → mem_id lib validator s.id selected ≡ false
          → Round s s'
      approves :
          (url : Text)
          → owned_by lib validator c s ≡ true
          → validator s.url ≡ some url
          → same_registrable_domain lib url c.primary_domain ≡ true
          → s' ≡ approve url s
          → Round s s'

    select_one-Round :
        (s s' : MonitoredSource) → select_one lib validator c selected s ≡ ok s' → Round s s'
    unfolding select_one
    select_one-Round s s' h = elim (Bool-cases (owned_by lib validator c s)) [
      | inr o ↦ kept (ground arith)
      | inl o ↦ elim (Bool-cases (mem_id lib validator s.id selected)) [
        | inr m ↦ elim (Bool-cases (is_suggested s.approval_status)) [
          | inl q ↦ rejects o q (ground arith) m
          | inr q ↦ kept (ground arith)
        ]
        | inl m ↦
            let (url, e, h₁) =
              bind_inversion (allowed_url lib validator s.url c.primary_domain)
                (λ u. ok (approve u s)) s' (ground arith) in
            let (v, d) = allowed_url_sound s.url c.primary_domain url e in
            approves url o v d (ground arith)
      ]
    ]

    select_one_selected :
        (s s' : MonitoredSource)
        → owned_by lib validator c s ≡ true
        → mem_id lib validator s.id selected ≡ true
        → select_one lib validator c selected s ≡ ok s'
        → approved_of c.id s' ≡ true
    unfolding select_one
    select_one_selected s s' o m h =
        let (url, e, h₁) =
          bind_inversion (allowed_url lib validator s.url c.primary_domain) (λ u. ok (approve u s))
            s' (ground arith) in
        ground arith

    cons_inversion :
        (s : MonitoredSource) (rows rows' : List MonitoredSource)
        → select_each lib validator c selected (s ∷ rows) ≡ ok rows'
        → (s' : MonitoredSource) × (rest : List MonitoredSource) × (select_one lib validator c
              selected s
            ≡ ok s')
          × (select_each lib validator c selected rows ≡ ok rest)
          × (rows' ≡ s' ∷ rest)
    unfolding select_each
    cons_inversion s rows rows' h =
        let (s', e, h₁) = bind_inversion (select_one lib validator c selected s) _ rows' h in
        let (rest, f, h₂) = bind_inversion (select_each lib validator c selected rows) _ rows' h₁ in
        (s', rest, e, f, ground arith)

    Round-id : (s s' : MonitoredSource) → Round s s' → s'.id ≡ s.id
    Round-id s s' (kept e) = ground arith
    Round-id s s' (rejects o q e m) = ground arith
    Round-id s s' (approves url o v d e) = ground arith

    Round-approved :
        (i : ℕ) (s s' : MonitoredSource)
        → Round s s'
        → approved_of i s ≡ true
        → approved_of i s' ≡ true
    Round-approved i s s' (kept e) h = ground arith
    Round-approved i s s' (rejects o q e m) h = ground arith
    Round-approved i s s' (approves url o v d e) h = ground arith

    -- A row after the loop comes from the row with its key.
    pub select_each-get :
        (rows rows' : List MonitoredSource) (k : ℕ) (s' : MonitoredSource)
        → select_each lib validator c selected rows ≡ ok rows'
        → get_source k rows' ≡ some s'
        → (s : MonitoredSource) × (get_source k rows ≡ some s) × Round s s'
    unfolding select_each
    select_each-get [] rows' k s' h m = ground arith
    select_each-get (s ∷ rows) rows' k s' h m =
        let (t, rest, e, f, g) = cons_inversion s rows rows' h in
        let r = select_one-Round s t e in
        elim (Bool-cases (t.id == k)) [
          | inl p ↦
              let q : t ≡ s' = ground arith in
              (s, ground (arith, Round-id s t r), subst (Round s) q r)
          | inr p ↦
              let (o, n, v) = select_each-get rows rest k s' f (ground arith) in
              (o, ground (arith, Round-id s t r), v)
        ]

    pub select_each-none :
        (rows rows' : List MonitoredSource) (k : ℕ)
        → select_each lib validator c selected rows ≡ ok rows'
        → get_source k rows ≡ none
        → get_source k rows' ≡ none
    unfolding select_each
    select_each-none [] rows' k h m = ground arith
    select_each-none (s ∷ rows) rows' k h m =
        let (t, rest, e, f, g) = cons_inversion s rows rows' h in
        ground (arith, Round-id s t (select_one-Round s t e), select_each-none rows rest k f)

    pub select_each-Unique :
        (rows rows' : List MonitoredSource)
        → select_each lib validator c selected rows ≡ ok rows'
        → Unique source_id_of rows
        → Unique source_id_of rows'
    unfolding select_each
    select_each-Unique [] rows' h u = rw (empty) tt
      where
        empty : rows' ≡ []
        empty = ground arith
    select_each-Unique (s ∷ rows) rows' h u =
        let (t, rest, e, f, g) = cons_inversion s rows rows' h in
        let i = Round-id s t (select_one-Round s t e) in
        rw g (rw i (select_each-none rows rest s.id f u.0), select_each-Unique rows rest f u.1)

    pub select_each-approved :
        (rows rows' : List MonitoredSource) (i : ℕ)
        → select_each lib validator c selected rows ≡ ok rows'
        → has_approved i rows ≡ true
        → has_approved i rows' ≡ true
    unfolding select_each
    select_each-approved [] rows' i h a = ground arith
    select_each-approved (s ∷ rows) rows' i h a =
        let (t, rest, e, f, g) = cons_inversion s rows rows' h in
        ground
          (arith, Round-approved i s t (select_one-Round s t e), select_each-approved rows rest i f)

    -- A selected source of the competitor is approved by the loop.
    pub select_each-selected :
        (rows rows' : List MonitoredSource) (k : ℕ)
        → select_each lib validator c selected rows ≡ ok rows'
        → any (λ s. owned_by lib validator c s && s.id == k) rows ≡ true
        → mem_id lib validator k selected ≡ true
        → has_approved c.id rows' ≡ true
    unfolding select_each
    select_each-selected [] rows' k h a m = ground arith
    select_each-selected (s ∷ rows) rows' k h a m =
        let (t, rest, e, f, g) = cons_inversion s rows rows' h in
        elim (Bool-cases (owned_by lib validator c s && s.id == k)) [
          | inl p ↦
              let q : s.id ≡ k = ground arith in
              ground (arith, select_one_selected s t (ground arith) (rw q m) e)
          | inr p ↦ ground (arith, select_each-selected rows rest k f)
        ]
