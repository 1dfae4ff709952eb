-- ===== src/Prelude/Counts.antt =====
-- How many rows of a table pass a test, and what an INSERT and an UPDATE do to their number.
use competitor_scout.Prelude.{
  ℕ, suc, ◌≡◌, refl, Bool, true, false, List, [], ◌∷◌, ◌++◌, some, none, ◌==◌, if◌then◌else◌, arith,
  Bool-cases, inl, inr, any, ap, ==_iff, count, ◌≤◌,
}
use mathlib.Core.Path.{subst}
use competitor_scout.Prelude.Tables.{find, update, Unique, update-absent}

-- The rows that a test counts in a table.
module _ {ℓ} {A : Type ℓ} (key : A → ℕ) (p : A → Bool) where
  pub count-append :
      (xs : List A) (y : A)
      → count p (xs ++ y ∷ []) ≡ (if p y then suc (count p xs) else count p xs)
  count-append [] y = ground arith
  count-append (x ∷ xs) y = ground (arith, count-append xs y)

  pub count-none : (xs : List A) → any p xs ≡ false → count p xs ≡ 0
  count-none [] h = refl
  count-none (x ∷ xs) h = ground (arith, count-none xs)

  -- An update of one row that does not newly pass the test.
  pub count-update_le :
      (k : ℕ) (f : A → A) (xs : List A)
      → Unique key xs
      → ((x : A) → find key k xs ≡ some x → p (f x) ≡ true → p x ≡ true)
      → count p (update key k f xs) ≤ count p xs
  count-update_le k f [] u h = ground arith
  count-update_le k f (x ∷ xs) u h = elim (Bool-cases (key x == k)) [
    | inl e ↦
        let absent : find key k xs ≡ none =
          subst (λ n. find key n xs ≡ none) ((==_iff (key x) k).0 e) u.0 in
        ground (
          arith,
          update-absent key k f xs absent,
          ap (count p) (update-absent key k f xs absent),
          h x,
        )
    | inr e ↦ ground (arith, count-update_le k f xs u.1 (λ y m. h y (ground arith)))
  ]
