-- ===== src/Competitors/Sources.antt =====
-- The sources of a competitor: `update_source_approval`, `create_manual_source` and
-- `select_monitoring_sources` of services/competitors.py. The validator of source URLs is an
-- argument, as in the code: `none` is one of the exceptions that the code catches.
use competitor_scout.Prelude.{
  ℕ, Bool, true, false, not, ◌&&◌, ◌||◌, List, [], ◌∷◌, ◌++◌, Option, none, some, ◌==◌,
  if◌then◌else◌, ok, err, ◌>>=◌, ◌>>◌, guard, is_some, any, all,
}
use competitor_scout.Prelude.Tables.{update}
use competitor_scout.Prelude.Texts.{Text, str, text_eq}
use competitor_scout.Urls.{UrlLib, same_registrable_domain, from_option}
use competitor_scout.Competitors.{
  Competitor, MonitoredSource, Tables, ApprovalStatus, suggested, approved, rejected, active,
  discovering, other, Call, source_not_allowed, source_unresolved, integrity_error,
  activation_not_allowed, is_active, is_suggested, get_source, source_id_of, put_competitor,
  has_approved,
}

-- UPDATE of the sources with the key; the keys of other rows are not looked at.
abbrev pub put_source :
    ℕ → (MonitoredSource → MonitoredSource) → List MonitoredSource → List MonitoredSource
put_source = update source_id_of

-- The unique constraint on competitor and normalized URL, between a row and the others.
abbrev pub same_url : ℕ → Text → MonitoredSource → Bool
same_url i url s = s.competitor_id == i && text_eq s.normalized_url url

abbrev pub clashes : MonitoredSource → MonitoredSource → Bool
clashes s r = same_url s.competitor_id s.normalized_url r && not (r.id == s.id)

-- `flush`: an UPDATE that gives two sources of a competitor one URL is refused.
unfoldable pub flush : List MonitoredSource → Call (List MonitoredSource)
flush rows = if any (λ s. any (clashes s) rows) rows then err integrity_error else ok rows

abbrev pub approve : Text → MonitoredSource → MonitoredSource
approve url s = record s { url = url; normalized_url = url; approval_status = approved }

abbrev pub reject : MonitoredSource → MonitoredSource
reject s = record s { approval_status = rejected }

module _ (lib : UrlLib) (validator : Text → Option Text) where
  -- The validated URL, if it is in the scope of the competitor's domain.
  unfoldable pub allowed_url : Text → Text → Call Text
  allowed_url url domain = do
    normalized ← from_option source_not_allowed (validator url)
    guard (same_registrable_domain lib normalized domain) source_not_allowed
    ok normalized

  -- After a rejection: without an approved source an active competitor goes back to discovery.
  unfoldable pub demote : Competitor → Tables → Tables
  demote c db =
      if not (has_approved c.id db.sources) && is_active c.status
      then put_competitor c.id (λ r. record r { status = discovering }) db
      else db

  unfoldable pub decide : Competitor → MonitoredSource → ApprovalStatus → Tables → Call Tables
  unfolding allowed_url flush demote
  decide c s approved db = do
    url ← allowed_url s.url c.primary_domain
    rows ← flush (put_source s.id (approve url) db.sources)
    ok (record db { sources = rows })
  decide c s _ db = ok (demote c (record db { sources = put_source s.id reject db.sources }))

  -- `none` stands for the missing source, of which the route makes a 404. The code takes no lock: this
  -- is the call when no other transaction runs.
  unfoldable pub update_source_approval :
      Competitor → ℕ → ApprovalStatus → Tables → Call (Option Tables)
  unfolding decide
  update_source_approval c source_id status db = elim (get_source source_id db.sources) [
    | none ↦ ok none
    | some s ↦
        if s.competitor_id == c.id then (do db' ← decide c s status db; ok (some db')) else ok none
  ]

  -- INSERT ... ON CONFLICT (competitor_id, normalized_url) DO NOTHING.
  unfoldable pub insert_source : MonitoredSource → Tables → Call Tables
  insert_source s db =
      if any (same_url s.competitor_id s.normalized_url) db.sources
      then ok db
      else if is_some (get_source s.id db.sources)
      then err integrity_error
      else ok (record db { sources = db.sources ++ s ∷ [] })

  abbrev pub manual_source : ℕ → ℕ → ℕ → Text → Text → MonitoredSource
  manual_source id created competitor_id url title = record {
    id = id;
    competitor_id = competitor_id;
    url = url;
    normalized_url = url;
    source_category = other;
    title = title;
    discovery_reason = str "Added manually during setup.";
    approval_status = suggested;
    created_at = created;
  }

  -- `title_of` is `_manual_source_title`, which only writes the title.
  unfoldable pub create_manual_source :
      (Text → Text) → ℕ → ℕ → Competitor → Text → Tables → Call Tables
  unfolding allowed_url insert_source
  create_manual_source title_of id created c url db = do
    normalized ← allowed_url url c.primary_domain
    db' ← insert_source (manual_source id created c.id normalized (title_of normalized)) db
    guard (any (same_url c.id normalized) db'.sources) source_unresolved
    ok db'

  abbrev pub mem_id : ℕ → List ℕ → Bool
  mem_id i [] = false
  mem_id i (j ∷ ids) = j == i || mem_id i ids

  abbrev pub owned_by : Competitor → MonitoredSource → Bool
  owned_by c s = s.competitor_id == c.id

  -- One round of the loop: a source of the competitor that is selected is validated and approved,
  -- one that is not selected and only suggested is rejected.
  unfoldable pub select_one : Competitor → List ℕ → MonitoredSource → Call MonitoredSource
  unfolding allowed_url
  select_one c selected s =
      if not (owned_by c s)
      then ok s
      else if not (mem_id s.id selected)
      then ok (if is_suggested s.approval_status then reject s else s)
      else (do url ← allowed_url s.url c.primary_domain; ok (approve url s))

  unfoldable pub select_each :
      Competitor → List ℕ → List MonitoredSource → Call (List MonitoredSource)
  unfolding select_one
  select_each c selected [] = ok []
  select_each c selected (s ∷ rows) = do
    s' ← select_one c selected s
    rows' ← select_each c selected rows
    ok (s' ∷ rows')

  -- `selected_ids.issubset(owned_ids)`.
  abbrev pub owns_all : Competitor → List ℕ → List MonitoredSource → Bool
  owns_all c ids rows = all (λ i. any (λ s. owned_by c s && s.id == i) rows) ids

  abbrev pub is_empty : List ℕ → Bool
  is_empty [] = true
  is_empty (_ ∷ _) = false

  unfoldable pub select_monitoring_sources : Competitor → List ℕ → Tables → Call Tables
  unfolding select_each flush
  select_monitoring_sources c selected db = do
    guard (not (is_empty selected) && owns_all c selected db.sources) activation_not_allowed
    updated ← select_each c selected db.sources
    rows ← flush updated
    ok (put_competitor c.id (λ r. record r { status = active }) (record db { sources = rows }))
