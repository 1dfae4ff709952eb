-- ===== src/Orchestrator/Coverage.antt =====
-- The coverage that agents/orchestrator.py gives to the publisher of a Starting Snapshot.
use competitor_scout.Prelude.{
  ◌+◌, ◌≤◌, ◌≡◌, refl, Bool, true, not, ◌&&◌, List, [], ◌∷◌, ◌==◌, arith, all, any, length, select,
}
use competitor_scout.Competitors.{SourceCategory}
use competitor_scout.Orchestrator.Planning.{MainContext}
use competitor_scout.Orchestrator.Children.{ChildOutcome, put_keys}
use competitor_scout.Orchestrator.Synthesis.{
  accepts_coverage, snapshot_coverage, inspected_by, sorted_categories, has_category,
  category_by_url,
}

module _ {ℓ} {A : Type ℓ} (p : A → Bool) where
  length-select_split :
      (xs : List A) → length (select p xs) + length (select (λ x. not (p x)) xs) ≡ length xs
  length-select_split [] = refl
  length-select_split (x ∷ xs) = ground (arith, length-select_split xs)

  length-select_le : (xs : List A) → length (select p xs) ≤ length xs
  length-select_le [] = omega arith
  length-select_le (x ∷ xs) = ground (arith, length-select_le xs)

  all-select : (xs : List A) → (length (select (λ x. not (p x)) xs) == 0) ≡ all p xs
  all-select [] = refl
  all-select (x ∷ xs) = ground (arith, all-select xs)

not-any : {A : Type 0} (p : A → Bool) (xs : List A) → not (any p xs) ≡ all (λ x. not (p x)) xs
not-any p [] = refl
not-any p (x ∷ xs) = ground (arith, not-any p xs)

-- The coverage of a snapshot passes the checks of its type, so that it is made without an error,
-- and it is complete exactly if every approved URL was inspected by a child that did not fail and
-- no child failed.
pub snapshot_coverage-accepted :
    (ctx : MainContext) (outcomes : List ChildOutcome)
    → (accepts_coverage (snapshot_coverage ctx outcomes) ≡ true)
      × ((snapshot_coverage ctx outcomes).coverage_complete ≡ (
          all (inspected_by outcomes) (put_keys [] ctx.approved_urls)
          && all (λ o. not o.failed) outcomes))
unfolding snapshot_coverage
snapshot_coverage-accepted ctx outcomes =
    let approved = put_keys [] ctx.approved_urls in
    let inspected = select (inspected_by outcomes) approved in
    let shown : SourceCategory → Bool = λ c.
      any (λ url. has_category (category_by_url ctx.approved_source_categories url) c) inspected in
    (
      ground (
        arith,
        length-select_split (inspected_by outcomes) approved,
        length-select_le shown sorted_categories,
      ),
      ground (arith, all-select (inspected_by outcomes) approved, not-any (λ o. o.failed) outcomes),
    )
