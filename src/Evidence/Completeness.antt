-- ===== src/Evidence/Completeness.antt =====
-- No evidence is accepted twice, and none is lost.
use competitor_scout.Prelude.{
  ℕ, ◌+◌, ◌≡◌, refl, sym, Bool, true, false, List, [], ◌∷◌, Result, ok, err, arith, Bool-cases, inl,
  inr, ◌||◌, Memᴰ, ◌∙◌,
}
use mathlib.Core.Path.{subst}
use competitor_scout.Prelude.Texts.{Text, text_eq, text_eq_iff, mem_text, text_eq_refl}
use competitor_scout.Evidence.{
  ChildTaskKind, EvidenceCandidate, NormalizedEvidence, RejectedEvidence, Reason, Validated,
  scope_urls, canonical_scope, accept_candidate, seen, record_result, validate_from,
  validate_evidence_scope,
}
use competitor_scout.Evidence.Acceptance.{check, accept, from, accept_inversion}

abbrev pub fingerprints_of : List NormalizedEvidence → List Text
fingerprints_of [] = []
fingerprints_of (e ∷ es) = e.fingerprint ∷ fingerprints_of es

pub Distinct : List Text → Type 0
Distinct [] = Unit
Distinct (t ∷ ts) = (mem_text t ts ≡ false) × Distinct ts

-- Candidates in their order, from a position on, each of which is in one of two lists.
pub data Splits (validator : Text → Validated) (sha256 : Text → Text) (is_control : ℕ → Bool)
    (kind : ChildTaskKind) (allowed : List Text)
    : ℕ → List EvidenceCandidate → List NormalizedEvidence → List RejectedEvidence → Type 0 where
  none_left : {i : ℕ} → Splits validator sha256 is_control kind allowed i [] [] []
  takes :
      {i : ℕ} {c : EvidenceCandidate} {cs : List EvidenceCandidate} {e : NormalizedEvidence}
      {es : List NormalizedEvidence} {rs : List RejectedEvidence}
      → check validator sha256 is_control kind allowed c ≡ ok e
      → Splits validator sha256 is_control kind allowed (i + 1) cs es rs
      → Splits validator sha256 is_control kind allowed i (c ∷ cs) (e ∷ es) rs
  refuses :
      {i : ℕ} {c : EvidenceCandidate} {cs : List EvidenceCandidate} {r : RejectedEvidence}
      {es : List NormalizedEvidence} {rs : List RejectedEvidence}
      → r.index ≡ i
      → r.rejected_url ≡ c.source_url
      → Splits validator sha256 is_control kind allowed (i + 1) cs es rs
      → Splits validator sha256 is_control kind allowed i (c ∷ cs) es (r ∷ rs)

module _ (validator : Text → Validated) (sha256 : Text → Text) (is_control : ℕ → Bool)
    (kind : ChildTaskKind) where
  module _ (allowed : List Text) where
    abbrev accepted_from : ℕ → List Text → List EvidenceCandidate → List Text
    accepted_from i fps cs =
        fingerprints_of (from validator sha256 is_control kind allowed i fps cs).0

    -- With the result of the check of the first candidate.
    abbrev accepted_with :
        ℕ
        → List Text
        → EvidenceCandidate
        → List EvidenceCandidate
        → Result Reason NormalizedEvidence
        → List Text
    accepted_with i fps c cs r =
        fingerprints_of
          (record_result validator sha256 is_control kind allowed i c r (
            from validator sha256 is_control kind allowed (i + 1)
              (seen validator sha256 is_control kind allowed r fps) cs)).0

    -- Fingerprints that were seen are not accepted again.
    seen_excluded :
        (i : ℕ) (fps : List Text) (cs : List EvidenceCandidate) (f : Text)
        → mem_text f fps ≡ true
        → mem_text f (accepted_from i fps cs) ≡ false
    unfolding validate_from
    seen_excluded i fps [] f m = refl
    seen_excluded i fps (c ∷ cs) f m =
        go (accept validator sha256 is_control kind allowed fps c) refl
          (λ gs n. seen_excluded (i + 1) gs cs f n)
      where
        go :
            (r : Result Reason NormalizedEvidence)
            → accept validator sha256 is_control kind allowed fps c ≡ r
            → ((gs : List Text)
                → mem_text f gs ≡ true
                → mem_text f (accepted_from (i + 1) gs cs) ≡ false)
            → mem_text f (accepted_with i fps c cs r) ≡ false
        go (err r) q later = later fps m
        go (ok e) q later =
            let (k, n) = accept_inversion validator sha256 is_control kind allowed fps c e q in
            let differs : text_eq e.fingerprint f ≡ false =
              elim (Bool-cases (text_eq e.fingerprint f)) [
                | inr d ↦ d
                | inl d ↦
                    let o : mem_text e.fingerprint fps ≡ true =
                      subst (λ t. mem_text t fps ≡ true) (sym ((text_eq_iff e.fingerprint f).0 d))
                        m in
                    ground arith
              ] in
            ground (arith, later (e.fingerprint ∷ fps) (ground arith))

    from-Distinct :
        (i : ℕ) (fps : List Text) (cs : List EvidenceCandidate) → Distinct (accepted_from i fps cs)
    unfolding validate_from Distinct
    from-Distinct i fps [] = tt
    from-Distinct i fps (c ∷ cs) =
        go (accept validator sha256 is_control kind allowed fps c)
          (λ gs. from-Distinct (i + 1) gs cs)
      where
        go :
            (r : Result Reason NormalizedEvidence)
            → ((gs : List Text) → Distinct (accepted_from (i + 1) gs cs))
            → Distinct (accepted_with i fps c cs r)
        go (err r) later = later fps
        go (ok e) later = (
          seen_excluded (i + 1) (e.fingerprint ∷ fps) cs e.fingerprint
              (ground (arith, text_eq_refl e.fingerprint)),
          later (e.fingerprint ∷ fps),
        )

    accept_fresh :
        (fps : List Text) (c : EvidenceCandidate) (e : NormalizedEvidence)
        → check validator sha256 is_control kind allowed c ≡ ok e
        → mem_text e.fingerprint fps ≡ false
        → accept validator sha256 is_control kind allowed fps c ≡ ok e
    unfolding accept_candidate
    accept_fresh fps c e k n = rw (k, n) refl

    -- A candidate that passes the checks was seen before, or its fingerprint is accepted.
    from_complete :
        (i : ℕ) (fps : List Text) (cs : List EvidenceCandidate) (c : EvidenceCandidate)
        (e : NormalizedEvidence)
        → Memᴰ c cs
        → check validator sha256 is_control kind allowed c ≡ ok e
        → (mem_text e.fingerprint fps || mem_text e.fingerprint (accepted_from i fps cs)) ≡ true
    unfolding validate_from
    from_complete i fps [] c e m k = elim m [ ]
    from_complete i fps (d ∷ cs) c e m k =
        go m (accept validator sha256 is_control kind allowed fps d) refl
          (λ gs n. from_complete (i + 1) gs cs c e n k)
      where
        go :
            Memᴰ c (d ∷ cs)
            → (r : Result Reason NormalizedEvidence)
            → accept validator sha256 is_control kind allowed fps d ≡ r
            → ((gs : List Text)
                → Memᴰ c cs
                → (mem_text e.fingerprint gs
                    || mem_text e.fingerprint (accepted_from (i + 1) gs cs))
                  ≡ true)
            → (mem_text e.fingerprint fps || mem_text e.fingerprint (accepted_with i fps d cs r))
              ≡ true
        go (Memᴰ.head p) r q later = elim (Bool-cases (mem_text e.fingerprint fps)) [
          | inl h ↦ rw h refl
          | inr h ↦
              let o : ok e ≡ r = sym (accept_fresh fps d e (rw⁻¹ p k) h) ∙ q in
              subst
                (λ x.
                  (mem_text e.fingerprint fps
                    || mem_text e.fingerprint (accepted_with i fps d cs x))
                  ≡ true)
                o (ground (arith, text_eq_refl e.fingerprint))
        ]
        go (Memᴰ.tail n) (err r) q later = later fps n
        go (Memᴰ.tail n) (ok w) q later = ground (arith, later (w.fingerprint ∷ fps) n)

    from-Splits :
        (i : ℕ) (fps : List Text) (cs : List EvidenceCandidate)
        → let lists = from validator sha256 is_control kind allowed i fps cs in
          Splits validator sha256 is_control kind allowed i cs lists.0 lists.1
    unfolding validate_from
    from-Splits i fps [] = none_left
    from-Splits i fps (c ∷ cs) =
        go (accept validator sha256 is_control kind allowed fps c) refl
          (λ gs. from-Splits (i + 1) gs cs)
      where
        go :
            (r : Result Reason NormalizedEvidence)
            → accept validator sha256 is_control kind allowed fps c ≡ r
            → ((gs : List Text)
                → let lists = from validator sha256 is_control kind allowed (i + 1) gs cs in
                  Splits validator sha256 is_control kind allowed (i + 1) cs lists.0 lists.1)
            → let lists = record_result validator sha256 is_control kind allowed i c r (
                from validator sha256 is_control kind allowed
                  (i + 1)
                  (seen validator sha256 is_control kind allowed r fps)
                  cs) in
              Splits validator sha256 is_control kind allowed i (c ∷ cs) lists.0 lists.1
        go (err r) q later = refuses refl refl (later fps)
        go (ok e) q later =
            let (k, n) = accept_inversion validator sha256 is_control kind allowed fps c e q in
            takes k (later (e.fingerprint ∷ fps))

  module _ (approved inspected : List Text) (cs : List EvidenceCandidate) where
    abbrev pub result : List NormalizedEvidence × List RejectedEvidence
    result = validate_evidence_scope validator sha256 is_control kind approved inspected cs

    -- No two pieces of accepted evidence have the same fingerprint.
    pub accepted-Distinct : Distinct (fingerprints_of result.0)
    unfolding validate_evidence_scope
    accepted-Distinct =
        from-Distinct
          (canonical_scope validator sha256 is_control (scope_urls kind approved inspected)) 0 [] cs

    -- The candidates split, in their order, into those accepted, with what the checks make of each,
    -- and those rejected, each recorded with its position from 0 and its URL; and the fingerprint of
    -- each candidate that passes the checks of the scope is among those accepted.
    pub accepted_complete :
        Splits validator sha256 is_control kind
          (canonical_scope validator sha256 is_control (scope_urls kind approved inspected))
          0
          cs
          result.0
          result.1
        × ((c : EvidenceCandidate) (e : NormalizedEvidence)
            → Memᴰ c cs
            → check validator sha256 is_control kind
                (canonical_scope validator sha256 is_control (scope_urls kind approved inspected))
                c
              ≡ ok e
            → mem_text e.fingerprint (fingerprints_of result.0) ≡ true)
    unfolding validate_evidence_scope
    accepted_complete =
        let allowed =
          canonical_scope validator sha256 is_control (scope_urls kind approved inspected) in
        (from-Splits allowed 0 [] cs, λ c e m k. from_complete allowed 0 [] cs c e m k)
