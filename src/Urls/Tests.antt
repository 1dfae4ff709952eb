-- ===== src/Urls/Tests.antt =====
-- URL validation with a toy parser: tests of the definitions, and instances of the theorems.
use competitor_scout.Prelude.{
  ◌↔◌, ◌≡◌, refl, Bool, true, false, List, [], ◌∷◌, ◌++◌, Option, none, some, ok, err,
  if◌then◌else◌,
}
use competitor_scout.Prelude.Texts.{
  Text, str, text_eq, strip, drop_end, has_space, contains, ends_with,
}
use competitor_scout.Urls.{
  no_port, UrlParts, Address, UrlLib, validate_public_https_url, hostname_from_domain_or_url,
  is_public_address, same_registrable_domain, private_address, not_https, canonical_netloc,
}
use competitor_scout.Urls.Safety.{Accepted, PublicHost, validate_sound}
use competitor_scout.Urls.Scope.{InScope, same_registrable_domain_iff}

abbrev address : Bool → Address
address public = record {
  version = 4;
  compressed = str "8.8.8.8";
  is_global = public;
  is_link_local = false;
  is_loopback = false;
  is_multicast = false;
  is_private = if public then false else true;
  is_reserved = false;
  is_unspecified = false;
}

abbrev parts : Text → UrlParts
parts scheme = record {
  scheme = scheme;
  username = none;
  password = none;
  hostname = some (str "acme.test");
  url_port = no_port;
  path = str "/p";
}

-- Every HTTPS text is a URL at acme.test; "8.8.8.8" is public, "10.0.0.1" private.
abbrev toy : UrlLib
toy = record {
  urlsplit =
      λ t. some (parts (if text_eq t (str "http://acme.test/p") then str "http" else str "https"));
  urlunsplit = λ s n p. s ++ (str "://" ++ (n ++ p));
  casefold = λ t. t;
  idna = λ t. some t;
  ip_address = λ t.
      if text_eq t (str "8.8.8.8")
      then some (address true)
      else if text_eq t (str "10.0.0.1")
      then some (address false)
      else none;
  top_domain = λ t. t;
}

abbrev public_resolver : Text → Option (List Text)
public_resolver _ = some (str "8.8.8.8" ∷ [])

abbrev split_resolver : Text → Option (List Text)
split_resolver _ = some (str "8.8.8.8" ∷ str "10.0.0.1" ∷ [])

abbrev page : Text
page = str "https://acme.test/p"

accepted : validate_public_https_url toy public_resolver page ≡ ok page
unfolding validate_public_https_url strip contains has_space text_eq drop_end ends_with
    is_public_address
accepted = refl

-- One private address among the resolved ones is enough to reject.
rebinding_rejected : validate_public_https_url toy split_resolver page ≡ err private_address
unfolding validate_public_https_url strip contains has_space text_eq drop_end ends_with
    is_public_address
rebinding_rejected = refl

plain_http_rejected :
    validate_public_https_url toy public_resolver (str "http://acme.test/p") ≡ err not_https
unfolding validate_public_https_url strip contains has_space text_eq drop_end ends_with
    is_public_address
plain_http_rejected = refl

validate_sound_example :
    (a : Accepted toy page) × PublicHost toy public_resolver a.host a.literal
    × (page ≡ toy.urlunsplit (str "https") (canonical_netloc toy a.host a.literal) a.parsed.path)
validate_sound_example = validate_sound toy public_resolver page page accepted

host_of_page : hostname_from_domain_or_url toy page ≡ some (str "acme.test")
unfolding hostname_from_domain_or_url strip contains text_eq drop_end
host_of_page = refl

page_in_scope : same_registrable_domain toy page page ≡ true
unfolding same_registrable_domain strip contains text_eq drop_end
page_in_scope = refl

same_registrable_domain_iff_example : (same_registrable_domain toy page page ≡ true) ↔ (
    (s : Text) × (c : Text) × (hostname_from_domain_or_url toy page ≡ some s)
    × (hostname_from_domain_or_url toy page ≡ some c)
    × InScope toy s c)
same_registrable_domain_iff_example = same_registrable_domain_iff toy page page
