-- ===== src/Orchestrator/SynthesisEnds.antt =====
-- The synthesis and the persistence of the evidence of a run in agents/orchestrator.py.
use competitor_scout.Prelude.{
  ℕ, zero, suc, ◌≡◌, refl, Bool, true, false, not, ◌&&◌, ◌||◌, List, [], ◌∷◌, ◌++◌, none, some,
  ◌==◌, ==_refl, arith, ok, Ends, Ends-mono, Ends-if, ◌>>=◌, EndsOr, Ends-or, EndsOr-bind, err,
  Result, all, any, Bool-cases, inl, inr,
}
use mathlib.Core.Path.{subst, sym}
use competitor_scout.Prelude.Texts.{Text}
use competitor_scout.Urls.{UrlLib}
use competitor_scout.Json.{Value}
use competitor_scout.Paging.Tasks.{AgentTask}
use competitor_scout.Orchestrator.Usage.{UsageAccumulator}
use competitor_scout.Orchestrator.Store.{Store, get_task, Crash, source_url_refused}
use competitor_scout.Orchestrator.SourceDomains.{SourceUrlError, public_source_domain}
use competitor_scout.Orchestrator.Planning.{
  MainContext, Reply, main_input_token_limit, agent_task_failed,
}
use competitor_scout.Orchestrator.Children.{AcceptedEvidence}
use competitor_scout.Orchestrator.Synthesis.{
  SynthesisResult, synthesize, synthesize_within_deadline, synthesize_items, create_synthesis_task,
  synthesis_row, synthesizing, fitting, check_synthesis, synthesis_failed,
}
use competitor_scout.Orchestrator.Persisting.{
  EvidenceItem, EvidenceTables, same_evidence, select_id, upsert, insert_or_find, or_refused,
  persist_one, persist_evidence, item_row, resolved, insert_item, observe,
}
use competitor_scout.Orchestrator.Invariant.{Good, Good-insert, Good-mono, Good-run, without}
use competitor_scout.Orchestrator.Budget.{Within}
use competitor_scout.Orchestrator.Rounds.{Left, stop_failed-Ends, rounds-Ends}
use competitor_scout.Orchestrator.WaveEnds.{nothing}
use competitor_scout.Orchestrator.PhaseEnds.{Clear, Clear-phase}

module _ (clock : Store → ℕ) (ctx : MainContext) (uuid4 : List AgentTask → ℕ)
    (uuid4_fresh : (ts : List AgentTask) → get_task (uuid4 ts) ts ≡ none) (model : Text)
    {Finding : Type 0} (dump : SynthesisResult Finding → Value) (size : ℕ → ℕ)
    (reply : ℕ → Reply (SynthesisResult Finding)) where
  synthesize_items-Ends :
      (fits id : ℕ) (B : ℕ → Bool) (u : UsageAccumulator) (w : Store)
      → B id ≡ true
      → Within ctx.limits u
      → Good ctx.run_id B (λ k. id == k) w
      → Ends (Clear ctx) (synthesize_items clock uuid4 model ctx dump reply fits id u w)
  synthesize_items-Ends zero id B u w there within g =
      Ends-mono (Left ctx B (without id (λ k. id == k))) (Clear ctx) _
        (stop_failed-Ends clock ctx B (λ k. id == k) id (SynthesisResult Finding)
          main_input_token_limit agent_task_failed none false u w (within, g))
        (Clear-phase clock ctx B id)
  synthesize_items-Ends (suc n) id B u w there within g =
      Ends-mono (Left ctx B (without id (λ k. id == k))) (Clear ctx) _
        (rounds-Ends clock ctx B (λ k. id == k) id (SynthesisResult Finding)
          ctx.max_synthesis_repairs synthesis_failed dump
          (check_synthesis clock uuid4 model ctx dump) there (==_refl id) reply
          (suc ctx.max_synthesis_repairs) 1 false u w (omega arith) (omega arith) (within, g))
        (Clear-phase clock ctx B id)

  pub synthesize-Ends :
      (items : ℕ) (u : UsageAccumulator) (w : Store)
      → Within ctx.limits u
      → Good ctx.run_id nothing nothing w
      → Ends (Clear ctx) (synthesize clock uuid4 model ctx dump size reply items u w)
  unfolding synthesize create_synthesis_task synthesize_within_deadline
  synthesize-Ends items u w within g =
      let id = uuid4 w.tasks in
      let row = synthesis_row clock uuid4 model ctx id (clock w) in
      let w₁ : Store = record w { tasks = w.tasks ++ row ∷ [] } in
      rw g.has_run (
        synthesize_items-Ends (fitting size ctx.main_token_limit items) id _ u _
          (ground (arith, ==_refl id)) within
          (Good-run ctx.run_id (λ k. id == k || false) (λ k. id == k)
            (synthesizing clock uuid4 model ctx) (λ r. refl) w₁
            (Good-mono ctx.run_id (λ k. id == k || false) (λ k. id == k || false) (λ k. id == k) w₁
              (λ k h. ground arith)
              (Good-insert ctx.run_id nothing nothing row w (uuid4_fresh w.tasks) g))))

-- Evidence of the competitor belongs to the user.
abbrev pub owned_evidence : ℕ → ℕ → EvidenceItem → Bool
owned_evidence user competitor row = not (row.competitor_id == competitor) || row.user_id == user

all-append :
    (p : EvidenceItem → Bool) (xs : List EvidenceItem) (y : EvidenceItem)
    → all p xs ≡ true
    → p y ≡ true
    → all p (xs ++ y ∷ []) ≡ true
all-append p [] y h k = ground arith
all-append p (x ∷ xs) y h k = ground (arith, all-append p xs y)

-- `public_source_domain` raised on the URL of an evidence.
abbrev pub Refused : UrlLib → Crash → Type 0
Refused urls (source_url_refused url) =
    (e : SourceUrlError) × (public_source_domain urls url ≡ err e)
Refused urls _ = ⊥

or_refused-Ends :
    (urls : UrlLib) (url : Text) (r : Result SourceUrlError Text)
    → public_source_domain urls url ≡ r
    → EndsOr (Refused urls) (λ _. Unit) (or_refused url r)
or_refused-Ends urls url (ok domain) e = tt
or_refused-Ends urls url (err x) e = (x, e)

module _ (uuid4 : List EvidenceItem → ℕ) (urls : UrlLib) (ctx : MainContext)
    (competitor captured_at : ℕ) where
  abbrev Owned : List EvidenceItem → Type 0
  Owned rows = all (owned_evidence ctx.user_id competitor) rows ≡ true

  -- A row that stands in the way of the INSERT is one that the SELECT finds.
  select_id-conflict :
      (url fingerprint : Text) (rows : List EvidenceItem)
      → Owned rows
      → any (same_evidence competitor url fingerprint) rows ≡ true
      → (id : ℕ) × (select_id
            (λ row. row.user_id == ctx.user_id && same_evidence competitor url fingerprint row)
            rows
          ≡ some id)
  select_id-conflict url fingerprint [] own h = ground arith
  select_id-conflict url fingerprint (row ∷ rows) own h =
      elim (Bool-cases (same_evidence competitor url fingerprint row)) [
        | inl e ↦ (row.id, ground arith)
        | inr e ↦
            let (id, m) = select_id-conflict url fingerprint rows (ground arith) (ground arith) in
            (id, ground arith)
      ]

  abbrev Kept : ℕ × EvidenceTables → Type 0
  Kept (id, db) = Owned db.items

  inserted-Ends :
      (domain : Text) (item : AcceptedEvidence) (db : EvidenceTables)
      → Owned db.items
      → Ends Kept (insert_or_find uuid4 urls ctx competitor captured_at domain item db)
  inserted-Ends domain item db own =
      let url = item.evidence.source_url in
      let fingerprint = item.evidence.fingerprint in
      let same = same_evidence competitor url fingerprint in
      let row = item_row uuid4 urls ctx competitor captured_at (uuid4 db.items) domain item in
      Ends-if Kept (any same db.items)
        (resolved uuid4 urls ctx competitor captured_at
          (select_id (λ row. row.user_id == ctx.user_id && same row) db.items) db)
        (ok (insert_item uuid4 urls ctx competitor captured_at domain item db))
        (λ conflict.
          let (id, m) = select_id-conflict url fingerprint db.items own conflict in
          subst (λ o. Ends Kept (resolved uuid4 urls ctx competitor captured_at o db)) (sym m) own)
        (λ _.
          all-append (owned_evidence ctx.user_id competitor) db.items row own
            (ground (arith, ==_refl ctx.user_id)))

  upsert-Ends :
      (item : AcceptedEvidence) (db : EvidenceTables)
      → Owned db.items
      → EndsOr (Refused urls) Kept (upsert uuid4 urls ctx competitor captured_at item db)
  upsert-Ends item db own =
      let url = item.evidence.source_url in
      EndsOr-bind (Refused urls) (λ _. Unit) Kept (or_refused url (public_source_domain urls url))
        (λ domain. insert_or_find uuid4 urls ctx competitor captured_at domain item db)
        (or_refused-Ends urls url (public_source_domain urls url) refl)
        (λ domain _. Ends-or (Refused urls) Kept _ (inserted-Ends domain item db own))

  pub persist_evidence-Ends :
      (items : List AcceptedEvidence) (db : EvidenceTables)
      → Owned db.items
      → EndsOr
          (Refused urls)
          (λ r. Owned r.1.items)
          (persist_evidence uuid4 urls ctx competitor captured_at items db)
  unfolding persist_evidence
  persist_evidence-Ends [] db own = own
  persist_evidence-Ends (item ∷ items) db own =
      let one = persist_one uuid4 urls ctx competitor captured_at item db in
      let rest = persist_evidence uuid4 urls ctx competitor captured_at items in
      EndsOr-bind (Refused urls) Kept (λ r. Owned r.1.items) one
        (λ r. rest r.1 >>= λ s. ok (r.0 ∷ s.0, s.1))
        (EndsOr-bind (Refused urls) Kept Kept (upsert uuid4 urls ctx competitor captured_at item db)
          (λ r. ok (
            r.0,
            record r.1 {
              observations = observe ctx.run_id r.0 item.task_id captured_at r.1.observations;
            },
          ))
          (upsert-Ends item db own) (λ r h. h))
        (λ r h.
          EndsOr-bind (Refused urls) (λ s. Owned s.1.items) (λ s. Owned s.1.items) (rest r.1)
            (λ s. ok (r.0 ∷ s.0, s.1)) (persist_evidence-Ends items r.1 h) (λ s h'. h'))
