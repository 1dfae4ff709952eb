-- ===== src/Paging/Complete.antt =====
-- A client that follows the cursors of a table that nobody changes reads every row once, in order.
use competitor_scout.Prelude.{
  ℕ, zero, suc, ◌+◌, ◌≡◌, refl, sym, Bool, true, false, List, [], ◌∷◌, ◌++◌, Option, none, some,
  ltb, if◌then◌else◌, arith, Bool-cases, inl, inr, select, take, drop, length, All, ◌<◌, ap, ◌∙◌,
  ok, err, Result, length-take, length-drop, take-append-drop,
}
use mathlib.Core.Path.{subst}
use competitor_scout.Prelude.Texts.{Text}
use competitor_scout.Paging.{
  Place, order_by, last_place, CursorLib, CursorError, Page, page_of, cursor_of, start_after,
  is_after, list_page, read_pages,
}
use competitor_scout.Paging.Order.{
  Ascending, Apart, order_by-Ascending, select-order_by, select-after_last, Ascending-drop,
  All-take, length-order_by, IsStrict,
}

module _ {A : Type 0} (past : Place → Place → Bool) (strict : IsStrict past) (place : A → Place)
    (lib : CursorLib) (reads : (p : Place) → lib.decode_cursor (lib.encode_cursor p) ≡ some p) where
  select-all : (xs : List A) → select (is_after past place lib none) xs ≡ xs
  select-all [] = refl
  select-all (x ∷ xs) = ap (λ l. x ∷ l) (select-all xs)

  is_after_up :
      (s : Option Place) (x y : A)
      → is_after past place lib s x ≡ true
      → past (place x) (place y) ≡ true
      → is_after past place lib s y ≡ true
  is_after_up none x y h a = refl
  is_after_up (some p) x y h a = strict.trans p (place x) (place y) h a

  -- A place that is itself behind the start.
  abbrev behind : Option Place → Place → Bool
  behind none p = true
  behind (some q) p = past q p

  is_after_up_place :
      (s : Option Place) (p : Place)
      → behind s p ≡ true
      → (y : A) → past p (place y) ≡ true
      → is_after past place lib s y ≡ true
  is_after_up_place none p h y a = refl
  is_after_up_place (some q) p h y a = strict.trans q p (place y) h a

  All-select : (p : A → Bool) (xs : List A) → All (λ y. p y ≡ true) (select p xs)
  All-select p [] = tt
  All-select p (x ∷ xs) = elim (Bool-cases (p x)) [
    | inl e ↦ rw e (e, All-select p xs)
    | inr e ↦ rw e (All-select p xs)
  ]

  select-select :
      (q r : A → Bool)
      → ((y : A) → q y ≡ true → r y ≡ true)
      → (xs : List A) → select q (select r xs) ≡ select q xs
  select-select q r f [] = refl
  select-select q r f (x ∷ xs) = ground (arith, f x, select-select q r f xs)

  last-All :
      (P : Place → Type 0) (x : A) (xs : List A)
      → All (λ y. P (place y)) (x ∷ xs)
      → P (last_place past place x xs)
  last-All P x [] a = a.0
  last-All P x (y ∷ xs) a = last-All P y xs a.1

  place_after :
      (s : Option Place) (ys : List A) (x : A) (xs : List A) (n : ℕ)
      → select (is_after past place lib s) ys ≡ x ∷ xs
      → behind s (last_place past place x (take n xs)) ≡ true
  place_after none ys x xs n e = refl
  place_after (some q) ys x xs n e =
      let all : All (λ y. past q (place y) ≡ true) (x ∷ xs) =
        subst (All (λ y. past q (place y) ≡ true)) e (All-select (λ y. past q (place y)) ys) in
      last-All (λ p. past q p ≡ true) x (take n xs)
        (all.0, All-take past strict place (λ y. past q (place y) ≡ true) n xs all.1)

  take-take : (n : ℕ) (xs : List A) → take n (take (n + 1) xs) ≡ take n xs
  take-take zero xs = refl
  take-take (suc n) [] = ground arith
  take-take (suc n) (x ∷ xs) = ground (arith, take-take n xs)

  longer-take : (n : ℕ) (xs : List A) → ltb n (length (take (n + 1) xs)) ≡ ltb n (length xs)
  longer-take n xs = ground (arith, length-take (n + 1) xs)

  take-short : (n : ℕ) (xs : List A) → ltb n (length xs) ≡ false → take n xs ≡ xs
  take-short zero [] h = refl
  take-short zero (x ∷ xs) h = ground arith
  take-short (suc n) [] h = refl
  take-short (suc n) (x ∷ xs) h = ap (λ l. x ∷ l) (take-short n xs (ground arith))

  append_nil : (xs : List A) → xs ++ [] ≡ xs
  append_nil [] = refl
  append_nil (x ∷ xs) = ap (λ l. x ∷ l) (append_nil xs)

  -- From a place on, the pages hold the rows after it.
  module _ (limit : ℕ) (rows : List A) (apart : Apart past place rows) where
    abbrev pub fetch : Option Text → Result CursorError (Page A)
    fetch cursor = list_page past place lib (suc limit) cursor rows

    fetched :
        (s : Option Place) (cursor : Option Text) (zs : List A)
        → start_after past place lib cursor ≡ ok s
        → select (is_after past place lib s) (order_by past place rows) ≡ zs
        → fetch cursor
          ≡ ok (record {
            items = take (suc limit) zs;
            next_cursor =
                if ltb (suc limit) (length zs)
                then cursor_of past place lib (take (suc limit) zs)
                else none;
          })
    unfolding list_page page_of
    fetched s cursor zs o e =
        let q : order_by past place (select (is_after past place lib s) rows) ≡ zs =
          sym (select-order_by past strict place (is_after past place lib s) (is_after_up s) rows)
          ∙ e in
        rw (o, q, take-take (suc limit) zs, longer-take (suc limit) zs) refl

    abbrev next : ℕ → Result CursorError (Page A) → List A
    next fuel m = elim m [
      | err e ↦ []
      | ok page ↦
          page.items
          ++ elim page.next_cursor [ none ↦ [] | some c ↦ read_pages fetch fuel (some c) ]
    ]

    from_place :
        (fuel : ℕ) (s : Option Place) (cursor : Option Text) (zs : List A)
        → start_after past place lib cursor ≡ ok s
        → select (is_after past place lib s) (order_by past place rows) ≡ zs
        → Ascending past place zs
        → length zs < fuel
        → read_pages fetch fuel cursor ≡ zs
    unfolding read_pages
    from_place zero s cursor zs o e a l = ground arith
    from_place (suc fuel) s cursor [] o e a l =
        ap (next fuel) (fetched s cursor [] o e) ∙ ground arith
    from_place (suc fuel) s cursor (x ∷ xs) o e a l =
        elim (Bool-cases (ltb (suc limit) (length (x ∷ xs)))) [
          | inr n ↦
              ap (next fuel) (fetched s cursor (x ∷ xs) o e)
              ∙ ground (arith, take-short (suc limit) (x ∷ xs) n, append_nil (x ∷ xs))
          | inl n ↦
              let p = last_place past place x (take limit xs) in
              let rest =
                from_place fuel (some p) (some (lib.encode_cursor p)) (drop limit xs)
                  (ground (arith, reads p))
                  (sym (
                      select-select (λ y. past p (place y)) (is_after past place lib s)
                        (λ y h.
                          is_after_up_place s p
                            (place_after s (order_by past place rows) x xs limit e) y h)
                        (order_by past place rows))
                    ∙ ap (select (λ y. past p (place y))) e
                    ∙ select-after_last past strict place limit x xs a (ground arith))
                  (Ascending-drop past strict place limit xs a.1)
                  (omega (arith, l, length-drop limit xs)) in
              ap (next fuel) (fetched s cursor (x ∷ xs) o e)
              ∙ rw (n, rest) (ap (λ l. x ∷ l) (take-append-drop limit xs))
        ]

    -- The fuel of one page more than there are rows is enough.
    pub read_pages_all : read_pages fetch (suc (length rows)) none ≡ order_by past place rows
    read_pages_all =
        from_place (suc (length rows)) none none (order_by past place rows) refl
          (select-all (order_by past place rows)) (order_by-Ascending past strict place rows apart)
          (omega (arith, length-order_by past strict place rows))
