-- ===== src/Urls/Safety.antt =====
-- What an accepted source URL guarantees.
use competitor_scout.Prelude.{
  ◌≡◌, refl, true, false, not, ◌||◌, List, [], ◌∷◌, Option, none, some, ◌⊎◌, inl, inr, ok, is_some,
  arith, All, bind_inversion, guard_inversion, Bool-cases, ◌≢◌,
}
use competitor_scout.Prelude.Texts.{Text, str, text_eq, text_eq_iff, strip, contains, has_space}
use competitor_scout.Urls.{
  Port, no_port, bad_port, port, UrlParts, Address, UrlLib, is_public_address, check_port,
  parse_url, canonical_host, check_addresses, check_resolved, check_host, is_localhost,
  canonical_netloc, validate_public_https_url, from_option, opt_public, no_hostname, UrlError,
}

-- Every address at which the host is reached is public: the literal one, or all of the resolver's,
-- of which there is at least one.
abbrev pub PublicHost : UrlLib → (Text → Option (List Text)) → Text → Option Address → Type 0
PublicHost lib resolver hostname (some a) = is_public_address a ≡ true
PublicHost lib resolver hostname none =
    (values : List Text) × (resolver hostname ≡ some values)
    × (values ≢ [])
    × All (λ v. opt_public lib (lib.ip_address v) ≡ true) values

-- What the parts of an accepted URL are.
pub record Accepted (lib : UrlLib) (value : Text) : Type 0 where
  pub parsed : UrlParts
  pub raw : Text
  pub host : Text
  pub literal : Option Address
  pub parses : lib.urlsplit (strip value) ≡ some parsed
  pub printable : (contains (strip value) (str "\\") ≡ false) × (has_space (strip value) ≡ false)
  pub https : lib.casefold parsed.scheme ≡ str "https"
  pub anonymous : (parsed.username ≡ none) × (parsed.password ≡ none)
  pub named : parsed.hostname ≡ some raw
  pub standard_port : (parsed.url_port ≡ no_port) ⊎ (parsed.url_port ≡ port 443)
  pub canonical : canonical_host lib raw ≡ ok (host, literal)
  pub remote : is_localhost lib host ≡ false

module _ (lib : UrlLib) where
  check_addresses_sound :
      (values : List Text)
      → check_addresses lib values ≡ ok tt
      → All (λ v. opt_public lib (lib.ip_address v) ≡ true) values
  unfolding check_addresses
  check_addresses_sound [] h = tt
  check_addresses_sound (v ∷ rest) h = elim (Bool-cases (opt_public lib (lib.ip_address v))) [
    | inl p ↦ (p, check_addresses_sound rest (ground arith))
    | inr p ↦ ground arith
  ]

  check_resolved_sound :
      (o : Option (List Text))
      → check_resolved lib o ≡ ok tt
      → (values : List Text) × (o ≡ some values)
        × (values ≢ [])
        × All (λ v. opt_public lib (lib.ip_address v) ≡ true) values
  unfolding check_resolved
  check_resolved_sound none h = cc
  check_resolved_sound (some []) h = cc
  check_resolved_sound (some (v ∷ rest)) h =
      (v ∷ rest, refl, λ e. cc, check_addresses_sound (v ∷ rest) h)

  check_host_sound :
      (resolver : Text → Option (List Text)) (host : Text) (literal : Option Address)
      → check_host lib resolver host literal ≡ ok tt
      → PublicHost lib resolver host literal
  unfolding check_host
  check_host_sound resolver host (some a) h = ground arith
  check_host_sound resolver host none h = check_resolved_sound (resolver host) h

  check_port_sound : (p : Port) → check_port p ≡ ok tt → (p ≡ no_port) ⊎ (p ≡ port 443)
  unfolding check_port
  check_port_sound no_port h = inl refl
  check_port_sound bad_port h = cc
  check_port_sound (port n) h = inr (ground arith)

  parse_url_sound :
      (value : Text) (parsed : UrlParts)
      → parse_url lib value ≡ ok parsed
      → (lib.urlsplit (strip value) ≡ some parsed)
        × (contains (strip value) (str "\\") ≡ false)
        × (has_space (strip value) ≡ false)
  unfolding parse_url
  parse_url_sound value parsed h = (ground arith, ground arith, ground arith)

  named_sound :
      (o : Option Text) (raw : Text)
      → from_option {E = UrlError} no_hostname o ≡ ok raw
      → o ≡ some raw
  named_sound o raw h = ground arith

  absent : (o p : Option Text) → not (is_some o || is_some p) ≡ true → (o ≡ none) × (p ≡ none)
  absent o p h = ground arith

  -- An accepted URL has a scheme that is HTTPS, no credentials, no port but 443, a host that is not
  -- localhost or below it, and is reached at public addresses only; the result is the HTTPS URL of
  -- that host and the path, without query and fragment.
  pub validate_sound :
      (resolver : Text → Option (List Text)) (value url : Text)
      → validate_public_https_url lib resolver value ≡ ok url
      → (a : Accepted lib value) × PublicHost lib resolver a.host a.literal
        × (url ≡ lib.urlunsplit (str "https") (canonical_netloc lib a.host a.literal) a.parsed.path)
  unfolding validate_public_https_url
  validate_sound resolver value url h =
      let (parsed, p₁, h₁) = bind_inversion (parse_url lib value) _ url h in
      let (p₂, h₂) =
        guard_inversion (text_eq (lib.casefold parsed.scheme) (str "https")) _ _ url h₁ in
      let (p₃, h₃) =
        guard_inversion (not (is_some parsed.username || is_some parsed.password)) _ _ url h₂ in
      let (raw, p₄, h₄) = bind_inversion (from_option no_hostname parsed.hostname) _ url h₃ in
      let (u, p₅, h₅) = bind_inversion (check_port parsed.url_port) _ url h₄ in
      let (host, p₆, h₆) = bind_inversion (canonical_host lib raw) _ url h₅ in
      let (p₇, h₇) = guard_inversion (not (is_localhost lib host.0)) _ _ url h₆ in
      let (v, p₈, h₈) = bind_inversion (check_host lib resolver host.0 host.1) _ url h₇ in
      (
        record {
          parsed = parsed;
          raw = raw;
          host = host.0;
          literal = host.1;
          parses = (parse_url_sound value parsed p₁).0;
          printable = ((parse_url_sound value parsed p₁).1, (parse_url_sound value parsed p₁).2);
          https = (text_eq_iff (lib.casefold parsed.scheme) (str "https")).0 p₂;
          anonymous = absent parsed.username parsed.password p₃;
          named = named_sound parsed.hostname raw p₄;
          standard_port = check_port_sound parsed.url_port p₅;
          canonical = p₆;
          remote = ground arith;
        },
        check_host_sound resolver host.0 host.1 p₈,
        ground arith,
      )
