-- ===== src/Paging/Listings.antt =====
-- The listings of competitors and of sources, read page after page.
use competitor_scout.Prelude.{
  ℕ, ◌≡◌, refl, Bool, true, ◌||◌, List, [], ◌∷◌, none, arith, Bool-cases, inl, inr, select, All,
}
use competitor_scout.Prelude.Tables.{find, Unique}
use competitor_scout.Competitors.{Tables}
use competitor_scout.Paging.{Place, after}
use competitor_scout.Paging.Order.{Apart}

module _ {A : Type 0} (key created : A → ℕ) where
  abbrev pub place : A → Place
  place x = (created x, key x)

  absent_apart :
      (x : A) (ys : List A)
      → find key (key x) ys ≡ none
      → All (λ y. (after (place x) (place y) || after (place y) (place x)) ≡ true) ys
  absent_apart x [] h = tt
  absent_apart x (y ∷ ys) h = (ground arith, absent_apart x ys (ground arith))

  select-absent :
      (p : A → Bool) (k : ℕ) (ys : List A) → find key k ys ≡ none → find key k (select p ys) ≡ none
  select-absent p k [] h = refl
  select-absent p k (y ∷ ys) h = ground (arith, select-absent p k ys)

  pub select-Unique : (p : A → Bool) (xs : List A) → Unique key xs → Unique key (select p xs)
  select-Unique p [] u = tt
  select-Unique p (x ∷ xs) u = elim (Bool-cases (p x)) [
    | inl e ↦ rw e (select-absent p (key x) xs u.0, select-Unique p xs u.1)
    | inr e ↦ rw e (select-Unique p xs u.1)
  ]

  pub Unique-Apart : (xs : List A) → Unique key xs → Apart after place xs
  Unique-Apart [] u = tt
  Unique-Apart (x ∷ xs) u = (absent_apart x xs u.0, Unique-Apart xs u.1)
