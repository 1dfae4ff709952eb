-- ===== src/Urls.antt =====
-- apps/backend/src/competitor_scout/security/urls.py: which URLs the program accepts as sources.
-- The URL and address parsers, the IDNA codec, the public-suffix list and the resolver are not the
-- program's: they are the fields of a `UrlLib` and the argument `resolver`.
pub mod Safety
pub mod Scope
mod Tests
use competitor_scout.Prelude.{
  ℕ, ◌+◌, ◌≡◌, Bool, true, false, not, ◌&&◌, ◌||◌, List, [], ◌∷◌, ◌++◌, Option, none, some, ◌==◌,
  if◌then◌else◌, Result, ok, err, ◌>>=◌, ◌>>◌, guard, is_some, zero, suc,
}
use competitor_scout.Prelude.Texts.{
  Text, str, text_eq, strip, ends_with, drop_end, has_space, contains,
}

-- `SplitResult.port`: absent, a number, or a property that raises `ValueError`.
pub data Port : Type 0 where
  no_port bad_port : Port
  port : ℕ → Port

-- `urlsplit` of a text: its components.
pub record UrlParts : Type 0 where
  pub scheme : Text
  pub username : Option Text
  pub password : Option Text
  pub hostname : Option Text
  pub url_port : Port
  pub path : Text

-- `ipaddress.IPv4Address | ipaddress.IPv6Address`, by its properties.
pub record Address : Type 0 where
  pub version : ℕ
  pub compressed : Text
  pub is_global : Bool
  pub is_link_local : Bool
  pub is_loopback : Bool
  pub is_multicast : Bool
  pub is_private : Bool
  pub is_reserved : Bool
  pub is_unspecified : Bool

-- `none` is the exception that the code catches: `ValueError` of `urlsplit` and `ip_address`,
-- `UnicodeError` of the IDNA codec. `idna` is `.encode("idna").decode("ascii").casefold()`, and
-- `top_domain` is `tldextract`'s `top_domain_under_public_suffix`, empty where there is none.
pub record UrlLib : Type 0 where
  pub urlsplit : Text → Option UrlParts
  pub urlunsplit : Text → Text → Text → Text
  pub casefold : Text → Text
  pub idna : Text → Option Text
  pub ip_address : Text → Option Address
  pub top_domain : Text → Text

-- The `UnsafeSourceUrl`s, by their messages.
pub data UrlError : Type 0 where
  malformed not_https has_credentials no_hostname bad_hostname bad_url_port wrong_port : UrlError
  not_public unresolved no_address private_address : UrlError

abbrev pub Checked : Type 0 → Type 0
Checked = Result UrlError

pub is_public_address : Address → Bool
is_public_address a =
    a.is_global
    && not (
        a.is_link_local
        || (a.is_loopback
            || (a.is_multicast || (a.is_private || (a.is_reserved || a.is_unspecified)))))

abbrev pub is_dot : ℕ → Bool
is_dot c = c == b'.'

abbrev pub from_option {ℓ} : {A : Type ℓ} → {E : Type ℓ} → E → Option A → Result E A
from_option e none = err e
from_option e (some a) = ok a

-- `port not in (None, 443)`, after the access to `port`.
pub check_port : Port → Checked (Unit {0})
check_port no_port = ok tt
check_port bad_port = err bad_url_port
check_port (port n) = guard (n == 443) wrong_port

module _ (lib : UrlLib) where
  pub parse_url : Text → Checked UrlParts
  parse_url value =
      let stripped = strip value in
      if text_eq stripped [] || (contains stripped (str "\\") || has_space stripped)
      then err malformed
      else from_option malformed (lib.urlsplit stripped)

  pub normalized_hostname : Text → Checked Text
  unfolding drop_end
  normalized_hostname hostname =
      let unqualified = drop_end is_dot hostname in
      if text_eq unqualified []
      then err no_hostname
      else from_option bad_hostname (lib.idna unqualified)

  abbrev pub host_and_address : Text → Option Address → Text × Option Address
  host_and_address normalized none = (normalized, none)
  host_and_address normalized (some a) = (a.compressed, some a)

  pub canonical_host : Text → Checked (Text × Option Address)
  unfolding normalized_hostname
  canonical_host hostname = do
    normalized ← normalized_hostname hostname
    ok (host_and_address normalized (lib.ip_address normalized))

  abbrev pub opt_public : Option Address → Bool
  opt_public none = false
  opt_public (some a) = is_public_address a

  -- The loop over the resolved addresses.
  pub check_addresses : List Text → Checked (Unit {0})
  check_addresses [] = ok tt
  check_addresses (value ∷ rest) =
      let later = check_addresses rest in
      if opt_public (lib.ip_address value) then later else err private_address

  -- What the resolver gave; `none` is an OSError, TimeoutError, TypeError or ValueError.
  pub check_resolved : Option (List Text) → Checked (Unit {0})
  unfolding check_addresses
  check_resolved none = err unresolved
  check_resolved (some []) = err no_address
  check_resolved (some (value ∷ rest)) = check_addresses (value ∷ rest)

  -- A literal address is checked itself; a name is resolved, and all its addresses are checked.
  pub check_host : (Text → Option (List Text)) → Text → Option Address → Checked (Unit {0})
  unfolding check_resolved
  check_host resolver hostname (some a) = guard (is_public_address a) not_public
  check_host resolver hostname none = check_resolved (resolver hostname)

  abbrev pub is_localhost : Text → Bool
  is_localhost hostname =
      text_eq hostname (str "localhost") || ends_with hostname (str ".localhost")

  abbrev pub canonical_netloc : Text → Option Address → Text
  canonical_netloc hostname none = hostname
  canonical_netloc hostname (some a) =
      if a.version == 6 then str "[" ++ (hostname ++ str "]") else hostname

  pub validate_public_https_url : (Text → Option (List Text)) → Text → Checked Text
  unfolding parse_url canonical_host check_host check_port
  validate_public_https_url resolver value = do
    parsed ← parse_url value
    guard (text_eq (lib.casefold parsed.scheme) (str "https")) not_https
    guard (not (is_some parsed.username || is_some parsed.password)) has_credentials
    raw ← from_option no_hostname parsed.hostname
    check_port parsed.url_port
    host ← canonical_host raw
    guard (not (is_localhost host.0)) not_public
    check_host resolver host.0 host.1
    ok (lib.urlunsplit (str "https") (canonical_netloc host.0 host.1) parsed.path)

  abbrev none_on_error : Checked (Text × Option Address) → Option Text
  none_on_error (ok (hostname, _)) = some hostname
  none_on_error (err _) = none

  -- The host of the parts, unless they carry credentials.
  abbrev host_of_parts : Option UrlParts → Option Text
  host_of_parts none = none
  host_of_parts (some parsed) =
      if is_some parsed.username || is_some parsed.password
      then none
      else elim parsed.hostname [ none ↦ none | some h ↦ none_on_error (canonical_host h) ]

  pub hostname_from_domain_or_url : Text → Option Text
  unfolding canonical_host contains
  hostname_from_domain_or_url value =
      let stripped = strip value in
      if text_eq stripped []
      then none
      else host_of_parts
          (lib.urlsplit (if contains stripped (str "://") then stripped else str "//" ++ stripped))

  -- `none` where there is no registrable domain.
  pub registrable_domain : Text → Option Text
  registrable_domain hostname =
      if is_some (lib.ip_address hostname) || text_eq (lib.top_domain hostname) []
      then none
      else some (lib.top_domain hostname)

  abbrev opt_text_eq : Option Text → Text → Bool
  opt_text_eq none t = false
  opt_text_eq (some s) t = text_eq s t

  abbrev same_address : Option Address → Option Address → Bool
  same_address (some a) (some b) = a.version == b.version && text_eq a.compressed b.compressed
  same_address _ _ = false

  abbrev within_domain : Text → Text → Option Text → Bool
  within_domain source competitor (some registrable) =
      opt_text_eq (registrable_domain source) registrable
  within_domain source competitor none =
      text_eq source competitor || ends_with source (str "." ++ competitor)

  pub same_scope : Text → Text → Bool
  unfolding registrable_domain
  same_scope source competitor =
      if is_some (lib.ip_address source) || is_some (lib.ip_address competitor)
      then same_address (lib.ip_address source) (lib.ip_address competitor)
      else within_domain source competitor (registrable_domain competitor)

  abbrev both_hosts : Option Text → Option Text → Bool
  both_hosts (some source) (some competitor) = same_scope source competitor
  both_hosts _ _ = false

  unfoldable pub same_registrable_domain : Text → Text → Bool
  unfolding hostname_from_domain_or_url same_scope
  same_registrable_domain source_url competitor_domain =
      both_hosts (hostname_from_domain_or_url source_url)
        (hostname_from_domain_or_url competitor_domain)
