-- ===== src/Competitors/Invariant.antt =====
-- The invariant of the two tables, and how single changes of a table keep it.
use competitor_scout.Prelude.{
  ℕ, ◌≡◌, true, false, List, [], ◌∷◌, ◌++◌, none, some, ◌==◌, if◌then◌else◌, arith, Option-cases,
  Bool-cases, inl, inr, ==_iff,
}
use mathlib.Core.Option
use mathlib.Core.Path.{subst}
use competitor_scout.Prelude.Tables.{Unique, find-update, update-Unique, find-append, append-Unique}
use competitor_scout.Urls.{UrlLib, same_registrable_domain}
use competitor_scout.Competitors.{
  Competitor, MonitoredSource, Tables, is_active, is_approved, get_competitor, get_source,
  competitor_id_of, source_id_of, put_competitor, has_approved,
}

module _ (lib : UrlLib) where
  -- A source belongs to a competitor, and if it is approved its URL is the validated one and in the
  -- scope of the competitor's domain.
  pub record SourceOk (competitors : List Competitor) (s : MonitoredSource) : Type 0 where
    pub owner : Competitor
    pub owned : get_competitor s.competitor_id competitors ≡ some owner
    pub in_scope :
        is_approved s.approval_status ≡ true
        → (same_registrable_domain lib s.normalized_url owner.primary_domain ≡ true)
          × (s.url ≡ s.normalized_url)

  pub record Inv (db : Tables) : Type 0 where
    pub competitor_ids : Unique competitor_id_of db.competitors
    pub source_ids : Unique source_id_of db.sources
    pub active_has_source :
        (i : ℕ) (c : Competitor)
        → get_competitor i db.competitors ≡ some c
        → is_active c.status ≡ true
        → has_approved i db.sources ≡ true
    pub sources_ok :
        (k : ℕ) (s : MonitoredSource) → get_source k db.sources ≡ some s → SourceOk db.competitors s

  -- A change of one competitor that keeps its key and domain, and activates it only beside an
  -- approved source.
  module _ (i : ℕ) (f : Competitor → Competitor) (keeps_id : (c : Competitor) → (f c).id ≡ c.id)
      (keeps_domain : (c : Competitor) → (f c).primary_domain ≡ c.primary_domain) where
    find-put :
        (j : ℕ) (db : Tables)
        → get_competitor j (put_competitor i f db).competitors ≡ (
            if i == j
            then Option.map f (get_competitor j db.competitors)
            else get_competitor j db.competitors)
    find-put j db = find-update competitor_id_of i j f keeps_id db.competitors

    SourceOk-put :
        (db : Tables) (s : MonitoredSource)
        → SourceOk db.competitors s
        → SourceOk (put_competitor i f db).competitors s
    SourceOk-put db s v = elim (Bool-cases (i == s.competitor_id)) [
      | inl e ↦ record {
        owner = f v.owner;
        owned = ground (arith, find-put s.competitor_id db, v.owned);
        in_scope = λ a. rw (keeps_domain v.owner) (v.in_scope a);
      }
      | inr e ↦ record {
        owner = v.owner;
        owned = ground (arith, find-put s.competitor_id db, v.owned);
        in_scope = v.in_scope;
      }
    ]

    pub put_competitor-Inv :
        (db : Tables)
        → Inv db
        → ((c : Competitor)
            → get_competitor i db.competitors ≡ some c
            → is_active (f c).status ≡ true
            → has_approved i db.sources ≡ true)
        → Inv (put_competitor i f db)
    put_competitor-Inv db v allowed = record {
      competitor_ids = update-Unique competitor_id_of i f keeps_id db.competitors v.competitor_ids;
      source_ids = v.source_ids;
      active_has_source = activated;
      sources_ok = λ k s m. SourceOk-put db s (v.sources_ok k s m);
    }
      where
        activated :
            (j : ℕ) (c : Competitor)
            → get_competitor j (put_competitor i f db).competitors ≡ some c
            → is_active c.status ≡ true
            → has_approved j db.sources ≡ true
        activated j c m a = elim (Option-cases (get_competitor j db.competitors)) [
          | inl n ↦ ground (arith, find-put j db)
          | inr (c', m') ↦ elim (Bool-cases (i == j)) [
            | inl e ↦
                let same : i ≡ j = (==_iff i j).0 e in
                subst (λ n. has_approved n db.sources ≡ true) same
                  (allowed c' (rw same m') (ground (arith, find-put j db)))
            | inr e ↦ ground (arith, find-put j db, v.active_has_source j c')
          ]
        ]

  -- A change of the sources under which every active competitor keeps an approved source.
  pub sources-Inv :
      (db : Tables) (rows : List MonitoredSource)
      → Inv db
      → Unique source_id_of rows
      → ((i : ℕ) (c : Competitor)
          → get_competitor i db.competitors ≡ some c
          → is_active c.status ≡ true
          → has_approved i rows ≡ true)
      → ((k : ℕ) (s : MonitoredSource) → get_source k rows ≡ some s → SourceOk db.competitors s)
      → Inv (record db { sources = rows })
  sources-Inv db rows v u a s = record {
    competitor_ids = v.competitor_ids;
    source_ids = u;
    active_has_source = a;
    sources_ok = s;
  }

  -- A new competitor, which is not active.
  pub add_competitor-Inv :
      (db : Tables) (c : Competitor)
      → Inv db
      → get_competitor c.id db.competitors ≡ none
      → is_active c.status ≡ false
      → Inv (record db { competitors = db.competitors ++ c ∷ [] })
  add_competitor-Inv db c v n a = record {
    competitor_ids = append-Unique competitor_id_of db.competitors c v.competitor_ids n;
    source_ids = v.source_ids;
    active_has_source = λ i r m b.
        ground
          (arith, find-append competitor_id_of i db.competitors (c ∷ []), v.active_has_source i r);
    sources_ok = λ k s m.
        let w = v.sources_ok k s m in
        record {
          owner = w.owner;
          owned = ground (
            arith,
            find-append competitor_id_of s.competitor_id db.competitors (c ∷ []),
            w.owned,
          );
          in_scope = w.in_scope;
        };
  }
