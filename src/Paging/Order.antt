-- ===== src/Paging/Order.antt =====
-- The order of a listing: rows with distinct places are sorted strictly, and the rows after a place
-- are those behind it in the sorted list.
use competitor_scout.Prelude.{
  ℕ, zero, suc, ◌≡◌, refl, Bool, true, false, ◌||◌, List, [], ◌∷◌, if◌then◌else◌, arith, Bool-cases,
  inl, inr, select, take, drop, length, All, ◌<◌,
}
use competitor_scout.Paging.{Place, after, before, insert, order_by, last_place}

-- What the two orders have in common.
pub record IsStrict (past : Place → Place → Bool) : Type 0 where
  pub trans : (p q r : Place) → past p q ≡ true → past q r ≡ true → past p r ≡ true
  pub asym : (p q : Place) → past p q ≡ true → past q p ≡ false

pub after-IsStrict : IsStrict after
after-IsStrict = record { trans = λ p q r a b. ground arith; asym = λ p q a. ground arith }

pub before-IsStrict : IsStrict before
before-IsStrict = record { trans = λ p q r a b. ground arith; asym = λ p q a. ground arith }

module _ {A : Type 0} (past : Place → Place → Bool) (place : A → Place) where
  -- Each row comes strictly before those behind it.
  abbrev pub Ascending : List A → Type 0
  Ascending [] = Unit
  Ascending (x ∷ xs) = All (λ y. past (place x) (place y) ≡ true) xs × Ascending xs

  -- No two rows have the same place.
  abbrev pub Apart : List A → Type 0
  Apart [] = Unit
  Apart (x ∷ xs) =
      All (λ y. (past (place x) (place y) || past (place y) (place x)) ≡ true) xs × Apart xs

module _ {A : Type 0} (past : Place → Place → Bool) (strict : IsStrict past)
    (place : A → Place) where
  insert-All :
      (P : A → Type 0) (x : A) (ys : List A) → P x → All P ys → All P (insert past place x ys)
  unfolding insert
  insert-All P x [] p ps = (p, tt)
  insert-All P x (y ∷ ys) p ps = elim (Bool-cases (past (place x) (place y))) [
    | inl e ↦ rw e (p, ps)
    | inr e ↦ rw e (ps.0, insert-All P x ys p ps.1)
  ]

  All-order_by : (P : A → Type 0) (xs : List A) → All P xs → All P (order_by past place xs)
  unfolding order_by
  All-order_by P [] ps = tt
  All-order_by P (x ∷ xs) ps = insert-All P x (order_by past place xs) ps.0 (All-order_by P xs ps.1)

  All-mono : (P Q : A → Type 0) → ((y : A) → P y → Q y) → (ys : List A) → All P ys → All Q ys
  All-mono P Q f [] ps = tt
  All-mono P Q f (y ∷ ys) ps = (f y ps.0, All-mono P Q f ys ps.1)

  insert-Ascending :
      (x : A) (ys : List A)
      → All (λ y. (past (place x) (place y) || past (place y) (place x)) ≡ true) ys
      → Ascending past place ys
      → Ascending past place (insert past place x ys)
  unfolding insert
  insert-Ascending x [] d a = (tt, tt)
  insert-Ascending x (y ∷ ys) d a = elim (Bool-cases (past (place x) (place y))) [
    | inl e ↦ rw e (
      (
        e,
        All-mono (λ z. past (place y) (place z) ≡ true) (λ z. past (place x) (place z) ≡ true)
            (λ z m. strict.trans (place x) (place y) (place z) e m) ys a.0,
      ),
      a,
    )
    | inr e ↦ rw e (
      insert-All (λ z. past (place y) (place z) ≡ true) x ys (ground (arith, d.0)) a.0,
      insert-Ascending x ys d.1 a.1,
    )
  ]

  pub order_by-Ascending :
      (xs : List A) → Apart past place xs → Ascending past place (order_by past place xs)
  unfolding order_by
  order_by-Ascending [] d = tt
  order_by-Ascending (x ∷ xs) d =
      insert-Ascending x (order_by past place xs)
        (All-order_by (λ y. (past (place x) (place y) || past (place y) (place x)) ≡ true) xs d.0)
        (order_by-Ascending xs d.1)

  -- A test that is kept by what comes later can be made before or after the sorting.
  module _ (p : A → Bool)
      (up : (x y : A) → p x ≡ true → past (place x) (place y) ≡ true → p y ≡ true) where
    select-insert :
        (x : A) (ys : List A)
        → select p (insert past place x ys)
          ≡ (if p x then insert past place x (select p ys) else select p ys)
    unfolding insert
    select-insert x [] = ground arith
    select-insert x (y ∷ ys) = ground (arith, select-insert x ys, up x y)

    pub select-order_by :
        (xs : List A) → select p (order_by past place xs) ≡ order_by past place (select p xs)
    unfolding order_by
    select-order_by [] = refl
    select-order_by (x ∷ xs) =
        ground (arith, select-insert x (order_by past place xs), select-order_by xs)

  All-after :
      (p : Place) (ys : List A)
      → All (λ y. past p (place y) ≡ true) ys
      → select (λ y. past p (place y)) ys ≡ ys
  All-after p [] a = refl
  All-after p (y ∷ ys) a = ground (arith, All-after p ys a.1)

  last_after :
      (p : Place) (y : A) (ys : List A)
      → All (λ z. past p (place z) ≡ true) (y ∷ ys)
      → past p (last_place past place y ys) ≡ true
  last_after p y [] a = a.0
  last_after p y (z ∷ ys) a = last_after p z ys a.1

  pub All-take : (P : A → Type 0) (n : ℕ) (ys : List A) → All P ys → All P (take n ys)
  All-take P zero ys a = tt
  All-take P (suc n) [] a = tt
  All-take P (suc n) (y ∷ ys) a = (a.0, All-take P n ys a.1)

  irrefl : (p : Place) → past p p ≡ false
  irrefl p = elim (Bool-cases (past p p)) [ inl e ↦ strict.asym p p e | inr e ↦ e ]

  -- The rows after the last of the first `n + 1` are the others.
  pub select-after_last :
      (n : ℕ) (x : A) (xs : List A)
      → Ascending past place (x ∷ xs)
      → n < length (x ∷ xs)
      → select (λ y. past (last_place past place x (take n xs)) (place y)) (x ∷ xs) ≡ drop n xs
  select-after_last zero x xs a l = ground (arith, irrefl (place x), All-after (place x) xs a.0)
  select-after_last (suc n) x [] a l = ground arith
  select-after_last (suc n) x (y ∷ xs) a l =
      let q = last_place past place y (take n xs) in
      let later : past (place x) q ≡ true =
        last_after (place x) y (take n xs)
          (a.0.0, All-take (λ z. past (place x) (place z) ≡ true) n xs a.0.1) in
      ground (arith, strict.asym (place x) q later, select-after_last n y xs a.1 (omega (arith, l)))

  pub Ascending-drop :
      (n : ℕ) (xs : List A) → Ascending past place xs → Ascending past place (drop n xs)
  Ascending-drop zero xs a = a
  Ascending-drop (suc n) [] a = tt
  Ascending-drop (suc n) (x ∷ xs) a = Ascending-drop n xs a.1

  length-insert : (x : A) (xs : List A) → length (insert past place x xs) ≡ suc (length xs)
  unfolding insert
  length-insert x [] = refl
  length-insert x (y ∷ ys) = ground (arith, length-insert x ys)

  pub length-order_by : (xs : List A) → length (order_by past place xs) ≡ length xs
  unfolding order_by
  length-order_by [] = refl
  length-order_by (x ∷ xs) =
      ground (arith, length-insert x (order_by past place xs), length-order_by xs)
