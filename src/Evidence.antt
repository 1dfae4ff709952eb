-- ===== src/Evidence.antt =====
-- apps/backend/src/competitor_scout/agents/validation.py: which evidence of a child task is accepted.
-- The URL validator, the digest and the Unicode categories are arguments. The confidence is a
-- number that nothing here reads: it stands as its text.
pub mod Acceptance
pub mod Completeness
mod Tests
use competitor_scout.Prelude.{
  ℕ, ◌+◌, Bool, true, false, not, List, [], ◌∷◌, ◌++◌, Option, none, some, leb, ltb, if◌then◌else◌,
  Result, ok, err, ◌>>=◌, ◌>>◌, guard, length, map,
}
use competitor_scout.Prelude.Texts.{Text, text_eq, mem_text, strip, collapse}

pub data ChildTaskKind : Type 0 where
  first_party_source_review news_discovery : ChildTaskKind

pub data SourceType : Type 0 where
  first_party news : SourceType

pub record EvidenceCandidate : Type 0 where
  pub source_url : Text
  pub source_title : Text
  pub source_type : SourceType
  pub quoted_text : Text
  pub normalized_claim : Text
  pub published_at : Option ℕ
  pub confidence : Text
  pub limitations : List Text

pub record NormalizedEvidence : Type 0 where
  pub source_url : Text
  pub source_title : Text
  pub source_type : SourceType
  pub quoted_text : Text
  pub normalized_claim : Text
  pub published_at : Option ℕ
  pub confidence : Text
  pub limitations : List Text
  pub fingerprint : Text

pub data Reason : Type 0 where
  unsafe_url malformed_url outside_approved_scope outside_inspected_scope : Reason
  source_type_mismatch empty_quote quote_too_short duplicate_evidence : Reason

pub record RejectedEvidence : Type 0 where
  pub index : ℕ
  pub rejected_url : Text
  pub reason : Reason

-- What the URL validator does: it returns a URL, or raises `UnsafeSourceUrl`, or another
-- `ValueError` or `TypeError`.
pub data Validated : Type 0 where
  canonical : Text → Validated
  unsafe invalid : Validated

-- `kind is ChildTaskKind.FIRST_PARTY_SOURCE_REVIEW` chooses all that depends on the kind.
abbrev pub scope_reason : ChildTaskKind → Reason
scope_reason first_party_source_review = outside_approved_scope
scope_reason news_discovery = outside_inspected_scope

abbrev pub has_expected_type : ChildTaskKind → SourceType → Bool
has_expected_type first_party_source_review first_party = true
has_expected_type news_discovery news = true
has_expected_type _ _ = false

abbrev pub scope_urls : ChildTaskKind → List Text → List Text → List Text
scope_urls first_party_source_review approved inspected = approved
scope_urls news_discovery approved inspected = inspected

abbrev pub is_empty : Text → Bool
is_empty [] = true
is_empty (_ ∷ _) = false

-- The limitations that are not blank, with single spaces.
pub normalized_limitations : List Text → List Text
unfolding collapse
normalized_limitations [] = []
normalized_limitations (l ∷ ls) =
    let rest = normalized_limitations ls in
    if is_empty (collapse l) then rest else collapse l ∷ rest

module _ (validator : Text → Validated) (sha256 : Text → Text) (is_control : ℕ → Bool) where
  abbrev pub blank_control : ℕ → ℕ
  blank_control c = if is_control c then 32 else c

  unfoldable pub normalized_quote : Text → Text
  unfolding collapse
  normalized_quote value = collapse (map blank_control value)

  -- The set of the URLs that the validator gives for those it accepts; the code visits them in
  -- sorted order, of which a set keeps nothing.
  unfoldable pub canonical_scope : List Text → List Text
  canonical_scope [] = []
  canonical_scope (url ∷ urls) =
      let rest = canonical_scope urls in
      elim (validator url) [
        | canonical u ↦ if is_empty u then rest else u ∷ rest
        | unsafe ↦ rest
        | invalid ↦ rest
      ]

  abbrev pub fingerprint_of : Text → Text → Text
  fingerprint_of url quote = sha256 (url ++ 10 ∷ quote)

  abbrev pub normalized : EvidenceCandidate → Text → NormalizedEvidence
  normalized c url = record {
    source_url = url;
    source_title = strip c.source_title;
    source_type = c.source_type;
    quoted_text = normalized_quote c.quoted_text;
    normalized_claim = collapse c.normalized_claim;
    published_at = c.published_at;
    confidence = c.confidence;
    limitations = normalized_limitations c.limitations;
    fingerprint = fingerprint_of url (normalized_quote c.quoted_text);
  }

  abbrev pub validated_url : Text → Result Reason Text
  validated_url url = elim (validator url) [
    | canonical u ↦ if is_empty u then err malformed_url else ok u
    | unsafe ↦ err unsafe_url
    | invalid ↦ err malformed_url
  ]

  module _ (kind : ChildTaskKind) (allowed : List Text) where
    -- The checks on one candidate that do not look at the others.
    unfoldable pub check_candidate : EvidenceCandidate → Result Reason NormalizedEvidence
    unfolding normalized_quote
    check_candidate c = do
      url ← validated_url c.source_url
      guard (mem_text url allowed) (scope_reason kind)
      guard (has_expected_type kind c.source_type) source_type_mismatch
      guard (not (is_empty (normalized_quote c.quoted_text))) empty_quote
      guard (not (ltb (length (normalized_quote c.quoted_text)) 20)) quote_too_short
      ok (normalized c url)

    -- One round of the loop, with the fingerprints so far.
    unfoldable pub accept_candidate :
        List Text → EvidenceCandidate → Result Reason NormalizedEvidence
    unfolding check_candidate
    accept_candidate fingerprints c = do
      e ← check_candidate c
      guard (not (mem_text e.fingerprint fingerprints)) duplicate_evidence
      ok e

    abbrev pub Lists : Type 0
    Lists = List NormalizedEvidence × List RejectedEvidence

    abbrev pub seen : Result Reason NormalizedEvidence → List Text → List Text
    seen (ok e) fingerprints = e.fingerprint ∷ fingerprints
    seen (err r) fingerprints = fingerprints

    abbrev pub record_result :
        ℕ → EvidenceCandidate → Result Reason NormalizedEvidence → Lists → Lists
    record_result index c (ok e) (accepted, rejected) = (e ∷ accepted, rejected)
    record_result index c (err r) (accepted, rejected) =
        (accepted, record { index = index; rejected_url = c.source_url; reason = r } ∷ rejected)

    unfoldable pub validate_from : ℕ → List Text → List EvidenceCandidate → Lists
    unfolding accept_candidate
    validate_from index fingerprints [] = ([], [])
    validate_from index fingerprints (c ∷ cs) =
        let result = accept_candidate fingerprints c in
        record_result index c result (validate_from (index + 1) (seen result fingerprints) cs)

  unfoldable pub validate_evidence_scope :
      ChildTaskKind
      → List Text
      → List Text
      → List EvidenceCandidate
      → List NormalizedEvidence × List RejectedEvidence
  unfolding canonical_scope validate_from
  validate_evidence_scope kind approved inspected candidates =
      validate_from kind (canonical_scope (scope_urls kind approved inspected)) 0 [] candidates
