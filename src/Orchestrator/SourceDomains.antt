-- ===== src/Orchestrator/SourceDomains.antt =====
-- `public_source_domain` of services/findings.py, which `_persist_evidence` of agents/orchestrator.py
-- calls. The parsers and the IDNA codec are those of a `UrlLib`.
use competitor_scout.Prelude.{
  Bool, true, false, not, ◌||◌, ◌==◌, Option, none, some, Result, ok, ◌>>=◌, ◌>>◌, guard, is_some,
}
use competitor_scout.Prelude.Texts.{Text, str, text_eq, strip, ends_with, drop_end, contains}
use competitor_scout.Urls.{
  UrlLib, Address, Port, no_port, bad_port, port, from_option, is_dot, is_localhost,
}

-- A PublicationValidationError, by its message, or the ValueError of `_domain_normalize`.
pub data SourceUrlError : Type 0 where
  source_url_invalid not_public_https invalid_domain : SourceUrlError

-- `parsed.port`, whose ValueError is caught.
abbrev pub readable_port : Port → Bool
readable_port bad_port = false
readable_port _ = true

-- `port in (None, 443)`.
abbrev pub allowed_port : Port → Bool
allowed_port no_port = true
allowed_port (port n) = n == 443
allowed_port bad_port = false

module _ (lib : UrlLib) where
  abbrev pub domain_normalize : Text → Result SourceUrlError Text
  domain_normalize value = from_option invalid_domain (lib.idna (drop_end is_dot (strip value)))

  -- The domain, or the compressed form of a literal address.
  abbrev pub public_host : Text → Option Address → Result SourceUrlError Text
  public_host domain none = do guard (contains domain (str ".")) not_public_https; ok domain
  public_host domain (some address) = do
    guard address.is_global not_public_https
    ok address.compressed

  unfoldable pub public_source_domain : Text → Result SourceUrlError Text
  unfolding contains drop_end ends_with
  public_source_domain source_url = do
    parsed ← from_option source_url_invalid (lib.urlsplit source_url)
    guard (readable_port parsed.url_port) source_url_invalid
    guard (text_eq (lib.casefold parsed.scheme) (str "https")) not_public_https
    hostname ← from_option not_public_https parsed.hostname
    guard (not (is_some parsed.username || is_some parsed.password)) not_public_https
    guard (allowed_port parsed.url_port) not_public_https
    domain ← domain_normalize hostname
    guard (not (is_localhost lib domain)) not_public_https
    public_host domain (lib.ip_address domain)
