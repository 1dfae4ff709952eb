-- ===== src/Evidence/Tests.antt =====
-- Evidence of a small task: tests, and instances of the theorems.
use competitor_scout.Prelude.{
  ℕ, ◌≡◌, refl, Bool, true, List, [], ◌∷◌, none, ok, ltb, if◌then◌else◌, Memᴰ,
}
use competitor_scout.Prelude.Texts.{Text, str, text_eq, mem_text, starts_with}
use competitor_scout.Evidence.{
  first_party_source_review, first_party, EvidenceCandidate, NormalizedEvidence, RejectedEvidence,
  Reason, Validated, canonical, invalid, validate_evidence_scope, canonical_scope, normalized,
  outside_approved_scope, duplicate_evidence,
}
use competitor_scout.Evidence.Acceptance.{Checked, accepted_sound, check}
use competitor_scout.Evidence.Completeness.{
  Distinct, fingerprints_of, accepted-Distinct, accepted_complete, Splits,
}

abbrev page : Text
page = str "https://acme.test/a"

-- Texts beginning with "h" are URLs.
abbrev validator : Text → Validated
validator t = if starts_with t (str "h") then canonical t else invalid

abbrev digest : Text → Text
digest t = t

abbrev is_control : ℕ → Bool
is_control c = ltb c 32

abbrev candidate : Text → EvidenceCandidate
candidate url = record {
  source_url = url;
  source_title = str " Pricing ";
  source_type = first_party;
  quoted_text = str "The plan now costs  9 dollars";
  normalized_claim = str "A plan costs 9 dollars";
  published_at = none;
  confidence = str "0.9";
  limitations = [];
}

abbrev candidates : List EvidenceCandidate
candidates = candidate page ∷ candidate (str "https://other.test") ∷ candidate page ∷ []

abbrev outcome : List NormalizedEvidence × List RejectedEvidence
outcome =
    validate_evidence_scope validator digest is_control first_party_source_review (page ∷ []) []
      candidates

abbrev reasons : List RejectedEvidence → List Reason
reasons [] = []
reasons (r ∷ rs) = r.reason ∷ reasons rs

abbrev evidence : NormalizedEvidence
evidence = normalized validator digest is_control (candidate page) page

one_accepted : outcome.0 ≡ evidence ∷ []
unfolding validate_evidence_scope starts_with text_eq
one_accepted = refl

two_rejected : reasons outcome.1 ≡ outside_approved_scope ∷ duplicate_evidence ∷ []
unfolding validate_evidence_scope starts_with text_eq
two_rejected = refl

accepted_sound_example :
    Checked validator digest is_control first_party_source_review (page ∷ []) candidates evidence
accepted_sound_example =
    accepted_sound validator digest is_control first_party_source_review (page ∷ []) [] candidates
      evidence (rw one_accepted (Memᴰ.head refl))

accepted-Distinct_example : Distinct (fingerprints_of outcome.0)
accepted-Distinct_example =
    accepted-Distinct validator digest is_control first_party_source_review (page ∷ []) []
      candidates

accepted_complete_example :
    Splits validator digest is_control first_party_source_review
      (canonical_scope validator digest is_control (page ∷ []))
      0
      candidates
      outcome.0
      outcome.1
    × ((c : EvidenceCandidate) (e : NormalizedEvidence)
        → Memᴰ c candidates
        → check validator digest is_control first_party_source_review
            (canonical_scope validator digest is_control (page ∷ []))
            c
          ≡ ok e
        → mem_text e.fingerprint (fingerprints_of outcome.0) ≡ true)
accepted_complete_example =
    accepted_complete validator digest is_control first_party_source_review (page ∷ []) []
      candidates
