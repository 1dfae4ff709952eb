-- ===== src/Competitors/Tests.antt =====
-- The routes of competitors run on small requests: tests, and instances of the theorems.
use competitor_scout.Competitors.Sources.{
  create_manual_source, select_monitoring_sources, update_source_approval,
}
use competitor_scout.Prelude.{◌≡◌, refl, false, List, [], ◌∷◌, ◌++◌, Option, none, some, ok, arith}
use competitor_scout.Prelude.Texts.{Text, str, contains, has_space, strip, text_eq}
use competitor_scout.Urls.{no_port, UrlParts, UrlLib, same_registrable_domain}
use competitor_scout.Competitors.{
  Tables, Competitor, active, discovering, CompetitorStatus, create_with_domain, owned_competitor,
}
use competitor_scout.Competitors.Domains.{normalize_primary_domain, normalize-IsDomain, IsDomain}
use competitor_scout.Competitors.Invariant.{Inv}
use competitor_scout.Competitors.Capacity.{Capacity}
use competitor_scout.Competitors.Routes.{
  Request, create, add_source, approval, start_monitoring, serve, handle,
}
use competitor_scout.Competitors.Requests.{serve-Inv}
use competitor_scout.Competitors.Quota.{serve-Capacity}

abbrev parts : UrlParts
parts = record {
  scheme = str "https";
  username = none;
  password = none;
  hostname = some (str "acme.test");
  url_port = no_port;
  path = [];
}

-- Every text is a URL at acme.test, and no text is an address.
abbrev acme : UrlLib
acme = record {
  urlsplit = λ t. some parts;
  urlunsplit = λ s n p. s ++ (str "://" ++ (n ++ p));
  casefold = λ t. t;
  idna = λ t. some t;
  ip_address = λ t. none;
  top_domain = λ t. t;
}

abbrev accept : Text → Option Text
accept t = some t

abbrev no_title : Text → Text
no_title t = []

abbrev no_rows : Tables
no_rows = record { competitors = []; sources = [] }

no_rows-Inv : Inv acme no_rows
no_rows-Inv = record {
  competitor_ids = tt;
  source_ids = tt;
  active_has_source = λ i c m a. ground arith;
  sources_ok = λ k s m. ground arith;
}

no_rows-Capacity : Capacity 1 no_rows.competitors
no_rows-Capacity = record {
  ids = tt;
  within = λ user. omega arith;
  one_per_domain = λ user domain. omega arith;
}

-- User 7 adds a competitor with a source, starts to monitor it, rejects the source, and may not add
-- a second competitor.
abbrev setup : List Request
setup =
    create 1 100 7 (str "Acme") (str "acme.test") [] 480
    ∷ add_source 7 1 5 101 (str "https://acme.test/pricing")
    ∷ start_monitoring 7 1 102 (5 ∷ [])
    ∷ []

abbrev all_requests : List Request
all_requests =
    setup ++ (approval 7 1 5 false ∷ create 2 103 7 (str "B") (str "acme.test") [] 0 ∷ [])

abbrev statuses : List Competitor → List CompetitorStatus
statuses [] = []
statuses (c ∷ cs) = c.status ∷ statuses cs

monitors : statuses (serve acme accept no_title 1 no_rows setup).competitors ≡ active ∷ []
unfolding serve handle owned_competitor normalize_primary_domain text_eq strip contains has_space
    create_with_domain create_manual_source same_registrable_domain select_monitoring_sources
monitors = refl

back_to_discovery :
    statuses (serve acme accept no_title 1 no_rows all_requests).competitors ≡ discovering ∷ []
unfolding serve handle normalize_primary_domain text_eq strip contains has_space create_with_domain
    owned_competitor create_manual_source same_registrable_domain select_monitoring_sources
    update_source_approval
back_to_discovery = refl

serve-Inv_example : Inv acme (serve acme accept no_title 1 no_rows all_requests)
serve-Inv_example = serve-Inv acme accept no_title 1 no_rows all_requests no_rows-Inv

serve-Capacity_example : Capacity 1 (serve acme accept no_title 1 no_rows all_requests).competitors
serve-Capacity_example = serve-Capacity acme 1 accept no_title no_rows all_requests no_rows-Capacity

normalized : normalize_primary_domain acme (str " acme.test") ≡ ok (str "acme.test")
unfolding normalize_primary_domain text_eq strip contains has_space
normalized = refl

normalize-IsDomain_example : IsDomain acme (str "acme.test")
normalize-IsDomain_example = normalize-IsDomain acme (str " acme.test") (str "acme.test") normalized
