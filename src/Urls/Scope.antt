-- ===== src/Urls/Scope.antt =====
-- What `same_registrable_domain` answers.
use competitor_scout.Prelude.{
  ◌≡◌, refl, sym, true, ◌||◌, ◌++◌, Option, none, some, ◌⊎◌, inl, inr, is_some, arith, Bool-cases,
  ◌↔◌, Option-cases,
}
use competitor_scout.Prelude.Texts.{Text, str, text_eq_iff, text_eq_refl, ends_with}
use competitor_scout.Urls.{
  Address, UrlLib, same_registrable_domain, hostname_from_domain_or_url, registrable_domain,
  same_scope, same_address,
}

-- A host in the scope of another: the same address, or names with the same registrable domain, or
-- below a name that has no registrable domain.
abbrev pub InScope : UrlLib → Text → Text → Type 0
InScope lib s c =
    ((a : Address) × (b : Address) × (lib.ip_address s ≡ some a)
      × (lib.ip_address c ≡ some b)
      × (a.version ≡ b.version)
      × (a.compressed ≡ b.compressed))
    ⊎ ((lib.ip_address s ≡ none)
        × (lib.ip_address c ≡ none)
        × (((d : Text) × (registrable_domain lib c ≡ some d) × (registrable_domain lib s ≡ some d))
            ⊎ ((registrable_domain lib c ≡ none)
                × ((s ≡ c) ⊎ (ends_with s (str "." ++ c) ≡ true)))))

module _ (lib : UrlLib) where
  same_address_sound :
      (s c : Text)
      → same_address lib (lib.ip_address s) (lib.ip_address c) ≡ true
      → (a : Address) × (b : Address) × (lib.ip_address s ≡ some a)
        × (lib.ip_address c ≡ some b)
        × (a.version ≡ b.version)
        × (a.compressed ≡ b.compressed)
  same_address_sound s c h = go (lib.ip_address s) (lib.ip_address c) refl refl
    where
      go :
          (o p : Option Address)
          → lib.ip_address s ≡ o
          → lib.ip_address c ≡ p
          → (a : Address) × (b : Address) × (lib.ip_address s ≡ some a)
            × (lib.ip_address c ≡ some b)
            × (a.version ≡ b.version)
            × (a.compressed ≡ b.compressed)
      go (some a) (some b) e f =
          (a, b, e, f, ground arith, ground (arith, text_eq_iff a.compressed b.compressed))
      go none p e f = ground arith
      go (some a) none e f = ground arith

  same_scope_sound : (s c : Text) → same_scope lib s c ≡ true → InScope lib s c
  unfolding same_scope
  same_scope_sound s c h =
      elim (Bool-cases (is_some (lib.ip_address s) || is_some (lib.ip_address c))) [
        | inl p ↦ inl (same_address_sound s c (ground arith))
        | inr p ↦ elim (Option-cases (registrable_domain lib c)) [
          | inl n ↦ inr (ground arith, ground arith, inr (n, ground (arith, text_eq_iff s c)))
          | inr (d, e) ↦ elim (Option-cases (registrable_domain lib s)) [
            | inl n ↦ ground arith
            | inr (d', e') ↦
                inr (ground arith, ground arith, inl (d, e, ground (arith, text_eq_iff d' d)))
          ]
        ]
      ]

  same_registrable_domain_sound :
      (source competitor : Text)
      → same_registrable_domain lib source competitor ≡ true
      → (s : Text) × (c : Text) × (hostname_from_domain_or_url lib source ≡ some s)
        × (hostname_from_domain_or_url lib competitor ≡ some c)
        × InScope lib s c
  unfolding same_registrable_domain
  same_registrable_domain_sound source competitor h =
      go (hostname_from_domain_or_url lib source) (hostname_from_domain_or_url lib competitor) refl
        refl
    where
      go :
          (o p : Option Text)
          → hostname_from_domain_or_url lib source ≡ o
          → hostname_from_domain_or_url lib competitor ≡ p
          → (s : Text) × (c : Text) × (hostname_from_domain_or_url lib source ≡ some s)
            × (hostname_from_domain_or_url lib competitor ≡ some c)
            × InScope lib s c
      go (some s) (some c) e f = (s, c, e, f, same_scope_sound s c (ground arith))
      go none p e f = ground arith
      go (some s) none e f = ground arith

  same_scope_complete : (s c : Text) → InScope lib s c → same_scope lib s c ≡ true
  unfolding same_scope
  same_scope_complete s c (inl (a, b, e, f, v, w)) =
      ground (arith, text_eq_iff a.compressed b.compressed)
  same_scope_complete s c (inr (n, m, inl (d, e, f))) = ground (arith, text_eq_refl d)
  same_scope_complete s c (inr (n, m, inr (e, inl f))) = ground (arith, text_eq_iff s c)
  same_scope_complete s c (inr (n, m, inr (e, inr f))) = ground arith

  same_registrable_domain_complete :
      (source competitor s c : Text)
      → hostname_from_domain_or_url lib source ≡ some s
      → hostname_from_domain_or_url lib competitor ≡ some c
      → InScope lib s c
      → same_registrable_domain lib source competitor ≡ true
  unfolding same_registrable_domain
  same_registrable_domain_complete source competitor s c e f i =
      rw (e, f) (same_scope_complete s c i)

  -- A source is accepted exactly if it and the competitor have hosts, and the first host is in the
  -- scope of the second.
  pub same_registrable_domain_iff :
      (source competitor : Text)
      → (same_registrable_domain lib source competitor ≡ true) ↔ (
          (s : Text) × (c : Text) × (hostname_from_domain_or_url lib source ≡ some s)
          × (hostname_from_domain_or_url lib competitor ≡ some c)
          × InScope lib s c)
  same_registrable_domain_iff source competitor = (
    same_registrable_domain_sound source competitor,
    λ (s, c, e, f, i). same_registrable_domain_complete source competitor s c e f i,
  )

  -- Between hosts with registrable domains the test does not depend on which is the competitor.
  pub same_registrable_domain_comm :
      (source competitor s c d : Text)
      → hostname_from_domain_or_url lib source ≡ some s
      → hostname_from_domain_or_url lib competitor ≡ some c
      → registrable_domain lib c ≡ some d
      → same_registrable_domain lib source competitor ≡ true
      → same_registrable_domain lib competitor source ≡ true
  unfolding same_registrable_domain
  same_registrable_domain_comm source competitor s c d e f r h =
      rw (f, e) (same_scope_complete c s (flip (same_scope_sound s c (ground arith))))
    where
      flip : InScope lib s c → InScope lib c s
      flip (inl (a, b, e, f, v, w)) = inl (b, a, f, e, sym v, sym w)
      flip (inr (n, m, inl (d, e, f))) = inr (m, n, inl (d, f, e))
      flip (inr (n, m, inr (e, g))) = cc
