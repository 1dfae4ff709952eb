-- ===== src/Paging/Shown.antt =====
-- What a listing shows of the rows of its pages.
use competitor_scout.Prelude.{
  ℕ, zero, suc, ◌≡◌, refl, List, [], ◌∷◌, ◌++◌, Option, none, some, Result, ok, err, map, ap, sym,
  Option-cases, inl, inr,
}
use competitor_scout.Prelude.Texts.{Text}
use competitor_scout.Paging.{CursorError, Page, read_pages}

module _ {A B : Type 0} (shown : A → B) where
  abbrev pub read_page : Result CursorError (Page A) → Result CursorError (Page B)
  read_page (ok page) = ok (record { items = map shown page.items; next_cursor = page.next_cursor })
  read_page (err e) = err e

  map-append : (xs ys : List A) → map shown (xs ++ ys) ≡ map shown xs ++ map shown ys
  map-append [] ys = refl
  map-append (x ∷ xs) ys = ap (λ l. shown x ∷ l) (map-append xs ys)

  pub read_pages-map :
      (fetch : Option Text → Result CursorError (Page A)) (fuel : ℕ) (cursor : Option Text)
      → read_pages (λ c. read_page (fetch c)) fuel cursor ≡ map shown (read_pages fetch fuel cursor)
  unfolding read_pages
  read_pages-map fetch zero cursor = refl
  read_pages-map fetch (suc fuel) cursor =
      go (fetch cursor) (λ c. read_pages-map fetch fuel (some c))
    where
      go :
          (m : Result CursorError (Page A))
          → ((c : Text)
              → read_pages (λ c. read_page (fetch c)) fuel (some c)
                ≡ map shown (read_pages fetch fuel (some c)))
          → elim (read_page m) [
            | err e ↦ []
            | ok page ↦ page.items ++ elim page.next_cursor [
              | none ↦ []
              | some c ↦ read_pages (λ c. read_page (fetch c)) fuel (some c)
            ]
          ]
            ≡ map shown (elim m [
              | err e ↦ []
              | ok page ↦
                  page.items
                  ++ elim page.next_cursor [ none ↦ [] | some c ↦ read_pages fetch fuel (some c) ]
            ])
      go (err e) later = refl
      go (ok page) later = elim (Option-cases page.next_cursor) [
        | inl n ↦ rw n (sym (map-append page.items []))
        | inr (c, n) ↦
            rw (n, later c) (sym (map-append page.items (read_pages fetch fuel (some c))))
      ]
