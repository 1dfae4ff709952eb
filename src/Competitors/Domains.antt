-- ===== src/Competitors/Domains.antt =====
-- `normalize_primary_domain` of services/competitors.py.
use competitor_scout.Prelude.{
  ℕ, ◌≡◌, Bool, true, false, not, ◌&&◌, ◌||◌, List, [], ◌∷◌, ◌++◌, none, ◌==◌, leb, if◌then◌else◌,
  ok, ◌>>=◌, ◌>>◌, guard, is_some, all, length, arith, ◌≤◌, bind_inversion, guard_inversion,
}
use competitor_scout.Prelude.Texts.{Text, str, text_eq, strip, contains, has_space, drop_end}
use competitor_scout.Urls.{Port, no_port, bad_port, port, UrlLib, from_option, is_dot}
use competitor_scout.Competitors.{Call, invalid_domain}

-- `hostname.split(".")`.
abbrev add_char : ℕ → List Text → List Text
add_char c [] = (c ∷ []) ∷ []
add_char c (l ∷ ls) = (c ∷ l) ∷ ls

unfoldable pub labels : Text → List Text
labels [] = [] ∷ []
labels (c ∷ s) = let rest = labels s in if is_dot c then [] ∷ rest else add_char c rest

abbrev pub is_alnum : ℕ → Bool
is_alnum c = (leb b'a' c && leb c b'z') || (leb b'0' c && leb c b'9')

abbrev pub is_label_char : ℕ → Bool
is_label_char c = is_alnum c || c == b'-'

unfoldable pub last_alnum : ℕ → Text → Bool
last_alnum c [] = is_alnum c
last_alnum c (d ∷ s) = last_alnum d s

-- `re.compile(r"[a-z0-9](?:[a-z0-9-]{0,61}[a-z0-9])?").fullmatch(label)`.
unfoldable pub is_label : Text → Bool
unfolding last_alnum
is_label [] = false
is_label (c ∷ s) = is_alnum c && (all is_label_char s && (last_alnum c s && leb (length s) 62))

-- The port of a domain: none, or the default of the scheme that is written out.
unfoldable pub port_allowed : Bool → Bool → Port → Bool
port_allowed has_scheme https no_port = true
port_allowed has_scheme https bad_port = false
port_allowed has_scheme https (port n) = has_scheme && n == (if https then 443 else 80)

module _ (lib : UrlLib) where
  -- The final checks on the host name.
  unfoldable pub check_domain : Text → Call Text
  unfolding is_label labels
  check_domain hostname = do
    guard (not (is_some (lib.ip_address hostname))) invalid_domain
    guard
        (not (text_eq hostname (str "localhost"))
          && (leb (length hostname) 253
              && (leb 2 (length (labels hostname)) && all is_label (labels hostname))))
        invalid_domain
    ok hostname

  unfoldable pub normalize_primary_domain : Text → Call Text
  unfolding check_domain port_allowed
  normalize_primary_domain value =
      let stripped = strip value in
      let has_scheme = contains stripped (str "://") in
      do
        guard (not (text_eq stripped [] || (contains stripped (str "\\") || has_space stripped)))
            invalid_domain
        parsed ←
            from_option invalid_domain
              (lib.urlsplit (if has_scheme then stripped else str "//" ++ stripped))
        let https = text_eq (lib.casefold parsed.scheme) (str "https")
        guard (not has_scheme || (https || text_eq (lib.casefold parsed.scheme) (str "http")))
            invalid_domain
        guard (not (is_some parsed.username || is_some parsed.password)) invalid_domain
        raw ← from_option invalid_domain parsed.hostname
        guard (port_allowed has_scheme https parsed.url_port) invalid_domain
        hostname ← from_option invalid_domain (lib.idna (drop_end is_dot raw))
        check_domain hostname

  -- What the database holds as a primary domain.
  pub record IsDomain (hostname : Text) : Type 0 where
    pub no_address : lib.ip_address hostname ≡ none
    pub bounded : length hostname ≤ 253
    pub dotted : 2 ≤ length (labels hostname)
    pub labelled : all is_label (labels hostname) ≡ true

  check_domain-IsDomain : (hostname d : Text) → check_domain hostname ≡ ok d → IsDomain d
  unfolding check_domain
  check_domain-IsDomain hostname d h = record {
    no_address = ground arith;
    bounded = ground arith;
    dotted = ground arith;
    labelled = ground arith;
  }

  -- A domain that is accepted is no address, has at most 253 characters and at least two labels,
  -- and each label is of the form that DNS allows in lower case.
  pub normalize-IsDomain : (value d : Text) → normalize_primary_domain value ≡ ok d → IsDomain d
  unfolding normalize_primary_domain
  normalize-IsDomain value d h =
      let stripped : Text = strip value in
      let has_scheme : Bool = contains stripped (str "://") in
      let (_, h₁) =
        guard_inversion
          (not (text_eq stripped [] || (contains stripped (str "\\") || has_space stripped))) _ _ d
          h in
      let (parsed, _, h₂) =
        bind_inversion
          (from_option invalid_domain
            (lib.urlsplit (if has_scheme then stripped else str "//" ++ stripped)))
          _ d h₁ in
      let https : Bool = text_eq (lib.casefold parsed.scheme) (str "https") in
      let (_, h₃) =
        guard_inversion
          (not has_scheme || (https || text_eq (lib.casefold parsed.scheme) (str "http"))) _ _ d
          h₂ in
      let (_, h₄) =
        guard_inversion (not (is_some parsed.username || is_some parsed.password)) _ _ d h₃ in
      let (raw, _, h₅) = bind_inversion (from_option invalid_domain parsed.hostname) _ d h₄ in
      let (_, h₆) = guard_inversion (port_allowed has_scheme https parsed.url_port) _ _ d h₅ in
      let (hostname, _, h₇) =
        bind_inversion (from_option invalid_domain (lib.idna (drop_end is_dot raw))) _ d h₆ in
      check_domain-IsDomain hostname d h₇
