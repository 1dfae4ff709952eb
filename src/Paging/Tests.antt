-- ===== src/Paging/Tests.antt =====
-- Pages of one competitor each: tests, and an instance of the theorem.
use competitor_scout.Prelude.{ℕ, ◌≡◌, refl, [], ◌∷◌, Option, none, some}
use competitor_scout.Prelude.Texts.{Text, str}
use competitor_scout.Competitors.{Competitor, Tables, new_competitor}
use competitor_scout.Paging.{Place, CursorLib, read_pages, list_competitors}

abbrev decode : Text → Option Place
decode (t ∷ i ∷ []) = some (t, i)
decode _ = none

abbrev pair_lib : CursorLib
pair_lib = record { encode_cursor = λ p. p.0 ∷ p.1 ∷ []; decode_cursor = decode }

abbrev row : ℕ → ℕ → Competitor
row id created = new_competitor id created 7 (str "Acme") (str "acme.test") [] 480

abbrev tables : Tables
tables = record { competitors = row 1 30 ∷ row 2 20 ∷ row 3 20 ∷ []; sources = [] }

in_order :
    read_pages (λ cursor. list_competitors pair_lib 7 1 cursor tables) 4 none
    ≡ row 2 20 ∷ row 3 20 ∷ row 1 30 ∷ []
unfolding read_pages list_competitors
in_order = refl
