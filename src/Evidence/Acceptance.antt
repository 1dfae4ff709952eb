-- ===== src/Evidence/Acceptance.antt =====
-- What is accepted: in scope, of the expected kind, quoted at length, and no evidence twice.
use competitor_scout.Prelude.{
  ℕ, ◌+◌, ◌≡◌, refl, Bool, true, false, not, List, [], ◌∷◌, ltb, Result, ok, err, length, arith,
  bind_inversion, guard_inversion, Bool-cases, inl, inr, ◌≤◌, Memᴰ,
}
use mathlib.Core.Path.{subst}
use competitor_scout.Prelude.Texts.{Text, text_eq, text_eq_iff, mem_text}
use competitor_scout.Evidence.{
  ChildTaskKind, EvidenceCandidate, NormalizedEvidence, RejectedEvidence, Reason, Validated,
  canonical, unsafe, invalid, scope_reason, has_expected_type, scope_urls, is_empty,
  normalized_quote, canonical_scope, normalized, validated_url, check_candidate, accept_candidate,
  seen, record_result, validate_from, validate_evidence_scope, source_type_mismatch, empty_quote,
  quote_too_short, duplicate_evidence,
}

module _ (validator : Text → Validated) (sha256 : Text → Text) (is_control : ℕ → Bool) where
  -- The candidate that a piece of evidence was made of, and the checks it passed: its URL is the
  -- validated one, and the validated URL of one of the URLs in scope.
  pub record Checked (kind : ChildTaskKind) (urls : List Text) (candidates : List EvidenceCandidate)
      (e : NormalizedEvidence) : Type 0 where
    pub candidate : EvidenceCandidate
    pub listed : Memᴰ candidate candidates
    pub url : Text
    pub valid : validator candidate.source_url ≡ canonical url
    pub in_scope : (u : Text) × Memᴰ u urls × (validator u ≡ canonical url)
    pub expected : has_expected_type kind candidate.source_type ≡ true
    pub quoted : 20 ≤ length (normalized_quote validator sha256 is_control candidate.quoted_text)
    pub content : e ≡ normalized validator sha256 is_control candidate url

  canonical_scope_sound :
      (url : Text) (urls : List Text)
      → mem_text url (canonical_scope validator sha256 is_control urls) ≡ true
      → (u : Text) × Memᴰ u urls × (validator u ≡ canonical url)
  unfolding canonical_scope
  canonical_scope_sound url [] h = ground arith
  canonical_scope_sound url (u ∷ urls) h =
      go (validator u) refl
        (λ m. let (v, l, e) = canonical_scope_sound url urls m in (v, Memᴰ.tail l, e))
    where
      go :
          (r : Validated)
          → validator u ≡ r
          → (mem_text url (canonical_scope validator sha256 is_control urls) ≡ true
              → (v : Text) × Memᴰ v (u ∷ urls) × (validator v ≡ canonical url))
          → (v : Text) × Memᴰ v (u ∷ urls) × (validator v ≡ canonical url)
      go unsafe e later = later (ground arith)
      go invalid e later = later (ground arith)
      go (canonical w) e later = elim (Bool-cases (is_empty w)) [
        | inl q ↦ later (ground arith)
        | inr q ↦ elim (Bool-cases (text_eq w url)) [
          | inr r ↦ later (ground arith)
          | inl r ↦ (
            u,
            Memᴰ.head refl,
            subst (λ x. validator u ≡ canonical x) ((text_eq_iff w url).0 r) e,
          )
        ]
      ]

  validated_url_sound :
      (u url : Text)
      → validated_url validator sha256 is_control u ≡ ok url
      → validator u ≡ canonical url
  validated_url_sound u url h = ground arith

  module _ (kind : ChildTaskKind) (allowed : List Text) where
    abbrev pub check : EvidenceCandidate → Result Reason NormalizedEvidence
    check = check_candidate validator sha256 is_control kind allowed

    abbrev pub accept : List Text → EvidenceCandidate → Result Reason NormalizedEvidence
    accept = accept_candidate validator sha256 is_control kind allowed

    abbrev pub from :
        ℕ → List Text → List EvidenceCandidate → List NormalizedEvidence × List RejectedEvidence
    from = validate_from validator sha256 is_control kind allowed

    check_sound :
        (c : EvidenceCandidate) (e : NormalizedEvidence)
        → check c ≡ ok e
        → (url : Text) × (validator c.source_url ≡ canonical url)
          × (mem_text url allowed ≡ true)
          × (has_expected_type kind c.source_type ≡ true)
          × (20 ≤ length (normalized_quote validator sha256 is_control c.quoted_text))
          × (e ≡ normalized validator sha256 is_control c url)
    unfolding check_candidate
    check_sound c e h =
        let (url, v, h₁) =
          bind_inversion (validated_url validator sha256 is_control c.source_url) _ e h in
        let (m, h₂) = guard_inversion (mem_text url allowed) (scope_reason kind) _ e h₁ in
        let (t, h₃) =
          guard_inversion (has_expected_type kind c.source_type) source_type_mismatch _ e h₂ in
        let q = normalized_quote validator sha256 is_control c.quoted_text in
        let (_, h₄) = guard_inversion (not (is_empty q)) empty_quote _ e h₃ in
        let (l, h₅) = guard_inversion (not (ltb (length q) 20)) quote_too_short _ e h₄ in
        (url, validated_url_sound c.source_url url v, m, t, ground arith, ground arith)

    pub accept_inversion :
        (fingerprints : List Text) (c : EvidenceCandidate) (e : NormalizedEvidence)
        → accept fingerprints c ≡ ok e
        → (check c ≡ ok e) × (mem_text e.fingerprint fingerprints ≡ false)
    unfolding accept_candidate
    accept_inversion fingerprints c e h =
        let (w, k, h₁) = bind_inversion (check c) _ e h in
        let (m, h₂) =
          guard_inversion (not (mem_text w.fingerprint fingerprints)) duplicate_evidence (ok w) e
            h₁ in
        (ground arith, ground arith)

    -- Each piece of evidence that is accepted is what the checks make of one of the candidates.
    pub from_checked :
        (i : ℕ) (fingerprints : List Text) (cs : List EvidenceCandidate) (e : NormalizedEvidence)
        → Memᴰ e (from i fingerprints cs).0
        → (c : EvidenceCandidate) × Memᴰ c cs × (check c ≡ ok e)
    unfolding validate_from
    from_checked i fingerprints [] e m = elim m [ ]
    from_checked i fingerprints (c ∷ cs) e m =
        go (accept fingerprints c) refl
          (λ fps n. let (d, l, k) = from_checked (i + 1) fps cs e n in (d, Memᴰ.tail l, k)) m
      where
        go :
            (r : Result Reason NormalizedEvidence)
            → accept fingerprints c ≡ r
            → ((fps : List Text)
                → Memᴰ e (from (i + 1) fps cs).0
                → (d : EvidenceCandidate) × Memᴰ d (c ∷ cs) × (check d ≡ ok e))
            → Memᴰ e
                (record_result validator sha256 is_control kind allowed i c r (
                  from (i + 1) (seen validator sha256 is_control kind allowed r fingerprints) cs)).0
            → (d : EvidenceCandidate) × Memᴰ d (c ∷ cs) × (check d ≡ ok e)
        go (ok w) q later (Memᴰ.head p) =
            (c, Memᴰ.head refl, (rw p (accept_inversion fingerprints c w q).0))
        go (ok w) q later (Memᴰ.tail n) = later (w.fingerprint ∷ fingerprints) n
        go (err r) q later n = later fingerprints n

  -- Accepted evidence comes from a candidate with a valid URL that is in the scope of the task,
  -- the source type of the task, and a quote of at least 20 characters; it is that candidate with
  -- its texts normalized, under the fingerprint of the URL and the quote.
  pub accepted_sound :
      (kind : ChildTaskKind) (approved inspected : List Text) (cs : List EvidenceCandidate)
      (e : NormalizedEvidence)
      → Memᴰ e (validate_evidence_scope validator sha256 is_control kind approved inspected cs).0
      → Checked kind (scope_urls kind approved inspected) cs e
  unfolding validate_evidence_scope
  accepted_sound kind approved inspected cs e m =
      let urls = scope_urls kind approved inspected in
      let (c, l, k) =
        from_checked kind (canonical_scope validator sha256 is_control urls) 0 [] cs e m in
      let (url, v, s, t, q, n) =
        check_sound kind (canonical_scope validator sha256 is_control urls) c e k in
      record {
        candidate = c;
        listed = l;
        url = url;
        valid = v;
        in_scope = canonical_scope_sound url urls s;
        expected = t;
        quoted = q;
        content = n;
      }
