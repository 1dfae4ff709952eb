-- ===== src/Orchestrator/Persisting.antt =====
-- `_persist_evidence` of agents/orchestrator.py, on the tables of models/intelligence.py. The clock,
-- uuid4 and the URL parsers are arguments. The column `created_at`, which the database
-- writes, is left out.
use competitor_scout.Prelude.{
  ℕ, Bool, ◌&&◌, List, [], ◌∷◌, ◌++◌, Option, none, some, ◌==◌, if◌then◌else◌, Result, ok, err,
  ◌>>=◌, any,
}
use competitor_scout.Prelude.Texts.{Text, text_eq}
use competitor_scout.Urls.{UrlLib}
use competitor_scout.Evidence.{SourceType}
use competitor_scout.Orchestrator.Store.{Crash, evidence_unresolved, source_url_refused}
use competitor_scout.Orchestrator.SourceDomains.{SourceUrlError, public_source_domain}
use competitor_scout.Orchestrator.Planning.{MainContext}
use competitor_scout.Orchestrator.Children.{AcceptedEvidence}

pub record EvidenceItem : Type 0 where
  pub id : ℕ
  pub user_id : ℕ
  pub competitor_id : ℕ
  pub scout_run_id : ℕ
  pub agent_task_id : ℕ
  pub source_url : Text
  pub source_domain : Text
  pub source_title : Text
  pub source_type : SourceType
  pub published_at : Option ℕ
  pub captured_at : ℕ
  pub quoted_text : Text
  pub normalized_claim : Text
  pub content_fingerprint : Text

pub record EvidenceObservation : Type 0 where
  pub scout_run_id : ℕ
  pub evidence_item_id : ℕ
  pub agent_task_id : ℕ
  pub observed_at : ℕ

pub record EvidenceTables : Type 0 where
  pub items : List EvidenceItem
  pub observations : List EvidenceObservation

-- The columns of the unique constraint.
abbrev pub same_evidence : ℕ → Text → Text → EvidenceItem → Bool
same_evidence competitor url fingerprint row =
    row.competitor_id == competitor
    && text_eq row.source_url url
    && text_eq row.content_fingerprint fingerprint

-- The id of the first row that a test selects.
abbrev pub select_id : (EvidenceItem → Bool) → List EvidenceItem → Option ℕ
select_id p [] = none
select_id p (row ∷ rows) = if p row then some row.id else select_id p rows

abbrev pub observed : ℕ → ℕ → EvidenceObservation → Bool
observed run item o = o.scout_run_id == run && o.evidence_item_id == item

-- INSERT ... ON CONFLICT DO NOTHING.
abbrev pub observe : ℕ → ℕ → ℕ → ℕ → List EvidenceObservation → List EvidenceObservation
observe run item task now rows =
    if any (observed run item) rows
    then rows
    else rows
      ++ record {
        scout_run_id = run;
        evidence_item_id = item;
        agent_task_id = task;
        observed_at = now;
      }
        ∷ []

-- The crash holds the URL that `public_source_domain` raises on.
abbrev pub or_refused : Text → Result SourceUrlError Text → Result Crash Text
or_refused url (ok domain) = ok domain
or_refused url (err e) = err (source_url_refused url)

module _ (uuid4 : List EvidenceItem → ℕ) (urls : UrlLib) (ctx : MainContext)
    (competitor captured_at : ℕ) where
  abbrev pub item_row : ℕ → Text → AcceptedEvidence → EvidenceItem
  item_row id domain item =
      let evidence = item.evidence in
      record {
        id = id;
        user_id = ctx.user_id;
        competitor_id = competitor;
        scout_run_id = ctx.run_id;
        agent_task_id = item.task_id;
        source_url = evidence.source_url;
        source_domain = domain;
        source_title = evidence.source_title;
        source_type = evidence.source_type;
        published_at = evidence.published_at;
        captured_at = captured_at;
        quoted_text = evidence.quoted_text;
        normalized_claim = evidence.normalized_claim;
        content_fingerprint = evidence.fingerprint;
      }

  abbrev pub resolved : Option ℕ → EvidenceTables → Result Crash (ℕ × EvidenceTables)
  resolved none db = err evidence_unresolved
  resolved (some id) db = ok (id, db)

  abbrev pub insert_item : Text → AcceptedEvidence → EvidenceTables → ℕ × EvidenceTables
  insert_item domain item db =
      let id = uuid4 db.items in
      (id, record db { items = db.items ++ item_row id domain item ∷ [] })

  -- The INSERT with its constraint, and the SELECT after a conflict.
  abbrev pub insert_or_find :
      Text → AcceptedEvidence → EvidenceTables → Result Crash (ℕ × EvidenceTables)
  insert_or_find domain item db =
      let same = same_evidence competitor item.evidence.source_url item.evidence.fingerprint in
      if any same db.items
      then resolved (select_id (λ row. row.user_id == ctx.user_id && same row) db.items) db
      else ok (insert_item domain item db)

  abbrev pub upsert : AcceptedEvidence → EvidenceTables → Result Crash (ℕ × EvidenceTables)
  upsert item db = do
    domain ←
        or_refused item.evidence.source_url (public_source_domain urls item.evidence.source_url)
    insert_or_find domain item db

  abbrev pub persist_one : AcceptedEvidence → EvidenceTables → Result Crash (ℕ × EvidenceTables)
  persist_one item db = do
    r ← upsert item db
    ok (
      r.0,
      record r.1 {
        observations = observe ctx.run_id r.0 item.task_id captured_at r.1.observations;
      },
    )

  unfoldable pub persist_evidence :
      List AcceptedEvidence → EvidenceTables → Result Crash (List ℕ × EvidenceTables)
  persist_evidence [] db = ok ([], db)
  persist_evidence (item ∷ items) db = do
    r ← persist_one item db
    rest ← persist_evidence items r.1
    ok (r.0 ∷ rest.0, rest.1)
