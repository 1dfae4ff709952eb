-- ===== src/Prelude/Tables.antt =====
-- A database table as a list of rows with a numeric primary key, and what SQL does with it:
-- a read by key, an UPDATE of the rows with a key, and ORDER BY with LIMIT 1.
use competitor_scout.Prelude.{
  ℕ, ◌≡◌, refl, Bool, true, false, Option, none, some, List, [], ◌∷◌, arith, ◌==◌, if◌then◌else◌,
  Bool-cases, Option-cases, ◌⊎◌, inl, inr, ◌++◌, any, ◌||◌, ==_iff, ap,
}
use mathlib.Core.Path.{subst}
use mathlib.Core.Option

module _ {ℓ} {A : Type ℓ} (key : A → ℕ) where
  abbrev pub find : ℕ → List A → Option A
  find k [] = none
  find k (x ∷ xs) = if key x == k then some x else find k xs

  abbrev pub update : ℕ → (A → A) → List A → List A
  update k f [] = []
  update k f (x ∷ xs) = (if key x == k then f x else x) ∷ update k f xs

  -- No two rows have the same key.
  abbrev pub Unique : List A → Type ℓ
  Unique [] = Unit
  Unique (x ∷ xs) = (find (key x) xs ≡ none) × Unique xs

  -- Keys stay where they are, so an update shows only at its key.
  pub find-update :
      (k j : ℕ) (f : A → A) (keeps : (x : A) → key (f x) ≡ key x) (xs : List A)
      → find j (update k f xs) ≡ (if k == j then Option.map f (find j xs) else find j xs)
  find-update k j f keeps [] = ground arith
  find-update k j f keeps (x ∷ xs) = ground (arith, keeps x, find-update k j f keeps xs)

  pub update-Unique :
      (k : ℕ) (f : A → A) (keeps : (x : A) → key (f x) ≡ key x) (xs : List A)
      → Unique xs
      → Unique (update k f xs)
  update-Unique k f keeps [] u = tt
  update-Unique k f keeps (x ∷ xs) u =
      (ground (arith, keeps x, find-update k (key x) f keeps xs), update-Unique k f keeps xs u.1)

  pub find-key : (k : ℕ) (xs : List A) (x : A) → find k xs ≡ some x → key x ≡ k
  find-key k [] x h = ground arith
  find-key k (y ∷ xs) x h = ground (arith, find-key k xs x)

  -- A property of every row of a table, by key.
  abbrev pub Every {κ} : (A → Type κ) → List A → Type (ℓ ⊔ κ)
  Every P xs = (k : ℕ) (x : A) → find k xs ≡ some x → P x

module _ {ℓ} {A : Type ℓ} (key : A → ℕ) where
  pub find-append :
      (k : ℕ) (xs ys : List A)
      → find key k (xs ++ ys) ≡ elim (find key k xs) [ none ↦ find key k ys | some x ↦ some x ]
  find-append k [] ys = refl
  find-append k (x ∷ xs) ys = ground (arith, find-append k xs ys)

  pub append-Unique :
      (xs : List A) (y : A) → Unique key xs → find key (key y) xs ≡ none → Unique key (xs ++ y ∷ [])
  append-Unique [] y u h = (refl, tt)
  append-Unique (x ∷ xs) y u h =
      (ground (arith, find-append (key x) xs (y ∷ [])), append-Unique xs y u.1 (ground arith))

-- The tests of an ORDER BY: `before a b` when `a` comes strictly before `b`.
pub record IsOrder {ℓ} {A : Type ℓ} (before : A → A → Bool) : Type ℓ where
  pub asym : (a b : A) → before a b ≡ true → before b a ≡ false
  pub negtrans : (a b c : A) → before a b ≡ false → before b c ≡ false → before a c ≡ false

module _ {ℓ} {A : Type ℓ} (before : A → A → Bool) (p : A → Bool) where
  abbrev pub keep_first : A → Option A → Option A
  keep_first x none = some x
  keep_first x (some y) = if before y x then some y else some x

  -- ORDER BY the order `before`, of the rows that `p` selects, LIMIT 1.
  unfoldable pub first_by : List A → Option A
  first_by [] = none
  first_by (x ∷ xs) = let rest = first_by xs in if p x then keep_first x rest else rest

  pub first_by-sat : (xs : List A) (x : A) → first_by xs ≡ some x → p x ≡ true
  unfolding first_by
  first_by-sat [] x h = ground arith
  first_by-sat (y ∷ xs) x h = grind (arith, first_by-sat xs)

  -- The first row of the result stands first in the table, or is the first of the other rows.
  first_by-cases :
      (z : A) (xs : List A) (x : A)
      → first_by (z ∷ xs) ≡ some x
      → ((x ≡ z) × (p z ≡ true) × ((m : A) → first_by xs ≡ some m → before m z ≡ false))
        ⊎ ((first_by xs ≡ some x) × (p z ≡ true → before x z ≡ true))
  unfolding first_by
  first_by-cases z xs x h = elim (Bool-cases (p z)) [
    | inr out ↦ inr (ground arith, λ q. cc)
    | inl here ↦ elim (Option-cases (first_by xs)) [
      | inl empty ↦ inl (ground arith, here, λ m q. cc)
      | inr (y, e) ↦ elim (Bool-cases (before y z)) [
        | inl b ↦ inr (ground arith, λ _. ground arith)
        | inr b ↦ inl (ground arith, here, λ m q. ground arith)
      ]
    ]
  ]

  pub first_by-any : (xs : List A) → any p xs ≡ false → first_by xs ≡ none
  unfolding first_by
  first_by-any [] h = refl
  first_by-any (x ∷ xs) h = ground (arith, first_by-any xs)

  pub first_by-last :
      (xs : List A) (y : A) → first_by xs ≡ none → p y ≡ true → first_by (xs ++ y ∷ []) ≡ some y
  unfolding first_by
  first_by-last [] y h q = ground arith
  first_by-last (x ∷ xs) y h q = elim (Bool-cases (p x)) [
    | inl e ↦ elim (Option-cases (first_by xs)) [ inl n ↦ ground arith | inr (z, n) ↦ ground arith ]
    | inr e ↦ ground (arith, first_by-last xs y)
  ]

  pub first_by-find :
      (key : A → ℕ) (xs : List A) (x : A)
      → Unique key xs
      → first_by xs ≡ some x
      → find key (key x) xs ≡ some x
  unfolding first_by
  first_by-find key [] x u h = ground arith
  first_by-find key (y ∷ xs) x u h = elim (first_by-cases y xs x h) [
    | inl (e, q, r) ↦ ground arith
    | inr (e, r) ↦ ground (arith, first_by-find key xs x u.1 e)
  ]

  pub first_by-none :
      (key : A → ℕ) (xs : List A) (k : ℕ) (y : A)
      → first_by xs ≡ none
      → find key k xs ≡ some y
      → p y ≡ false
  unfolding first_by
  first_by-none key [] k y h m = ground arith
  first_by-none key (x ∷ xs) k y h m = grind (arith, first_by-none key xs k y)

  pub first_by-least :
      IsOrder before
      → (key : A → ℕ) (xs : List A) (x : A) (k : ℕ) (y : A) → first_by xs ≡ some x
      → find key k xs ≡ some y
      → p y ≡ true
      → before y x ≡ false
  unfolding first_by
  first_by-least o key [] x k y h m q = ground arith
  first_by-least o key (z ∷ xs) x k y h m q = elim (first_by-cases z xs x h) [
    | inl (e, pz, least) ↦ elim (Bool-cases (key z == k)) [
      | inl here ↦ ground (arith, o.asym z z)
      | inr there ↦ elim (Option-cases (first_by xs)) [
        | inl empty ↦ ground (arith, first_by-none key xs k y)
        | inr (w, f) ↦ ground (arith, first_by-least o key xs w k y, least w f, o.negtrans y w z)
      ]
    ]
    | inr (e, r) ↦ ground (arith, first_by-least o key xs x k y, r, o.asym x z)
  ]

module _ {ℓ} {A : Type ℓ} (key : A → ℕ) where
  -- An update at a key that no row has changes nothing.
  pub update-absent :
      (k : ℕ) (f : A → A) (xs : List A) → find key k xs ≡ none → update key k f xs ≡ xs
  update-absent k f [] h = refl
  update-absent k f (x ∷ xs) h = ground (arith, update-absent k f xs)

  module _ (p : A → Bool) where
    pub any-append : (xs ys : List A) → any p (xs ++ ys) ≡ any p xs || any p ys
    any-append [] ys = refl
    any-append (x ∷ xs) ys = ground (arith, any-append xs ys)

    -- A row that passes the test before an update at another key passes it after.
    pub any-update_mono :
        (k : ℕ) (f : A → A)
        → ((x : A) → p x ≡ true → p (f x) ≡ true)
        → (xs : List A) → any p xs ≡ true
        → any p (update key k f xs) ≡ true
    any-update_mono k f mono [] h = ground arith
    any-update_mono k f mono (x ∷ xs) h = ground (arith, mono x, any-update_mono k f mono xs)

    pub any-update_hit :
        (k : ℕ) (f : A → A) (xs : List A) (x : A)
        → find key k xs ≡ some x
        → p (f x) ≡ true
        → any p (update key k f xs) ≡ true
    any-update_hit k f [] x m h = ground arith
    any-update_hit k f (y ∷ xs) x m h = ground (arith, any-update_hit k f xs x)

    -- An update that leaves the test of the one row with the key as it is.
    pub any-update_same :
        (k : ℕ) (f : A → A) (xs : List A) (x : A)
        → Unique key xs
        → find key k xs ≡ some x
        → p (f x) ≡ p x
        → any p (update key k f xs) ≡ any p xs
    any-update_same k f [] x u m h = ground arith
    any-update_same k f (y ∷ xs) x u m h = elim (Bool-cases (key y == k)) [
      | inl e ↦
          let absent : find key k xs ≡ none =
            subst (λ n. find key n xs ≡ none) ((==_iff (key y) k).0 e) u.0 in
          ground (arith, ap (any p) (update-absent k f xs absent))
      | inr e ↦ ground (arith, any-update_same k f xs x u.1)
    ]

    pub any-find :
        (k : ℕ) (xs : List A) (x : A) → find key k xs ≡ some x → p x ≡ true → any p xs ≡ true
    any-find k [] x m h = ground arith
    any-find k (y ∷ xs) x m h = ground (arith, any-find k xs x)
