-- ===== src/Paging.antt =====
-- The cursor pages of apps/backend/src/competitor_scout/services/competitors.py: `list_competitors`
-- and `list_sources`, and the cursor that both use. The base64, JSON and ISO time codecs behind a
-- cursor are the fields of a `CursorLib`.
pub mod Order
pub mod Complete
pub mod Listings
pub mod Shown
pub mod Tasks
mod Tests
use competitor_scout.Prelude.{
  ℕ, zero, suc, ◌+◌, ◌++◌, Bool, true, false, not, ◌&&◌, ◌||◌, List, [], ◌∷◌, Option, none, some,
  ◌==◌, ltb, if◌then◌else◌, Result, ok, err, ◌>>=◌, length, take, select,
}
use competitor_scout.Prelude.Texts.{Text}
use competitor_scout.Competitors.{
  Competitor, MonitoredSource, Tables, CompetitorStatus, is_deleted, live_of,
}

-- The time of creation and the id of a row.
abbrev pub Place : Type 0
Place = ℕ × ℕ

-- `created_at > t or (created_at == t and id > i)`.
abbrev pub after : Place → Place → Bool
after (t, i) (u, j) = ltb t u || (u == t && ltb i j)

-- `created_at < t or (created_at == t and id < i)`.
abbrev pub before : Place → Place → Bool
before p q = after q p

pub data CursorError : Type 0 where
  invalid_cursor : CursorError

-- `_encode_cursor` and `_decode_cursor`: `none` is the `ValueError` of a cursor that is no
-- base64 text of a list of an aware time and a UUID.
pub record CursorLib : Type 0 where
  pub encode_cursor : Place → Text
  pub decode_cursor : Text → Option Place

pub record Page (A : Type 0) : Type 0 where
  pub items : List A
  pub next_cursor : Option Text

-- A listing goes along one of the two orders of places: `past p q` tells that q comes after p.
module _ {A : Type 0} (past : Place → Place → Bool) (place : A → Place) where
  unfoldable pub insert : A → List A → List A
  insert x [] = x ∷ []
  insert x (y ∷ ys) =
      let rest = insert x ys in if past (place x) (place y) then x ∷ y ∷ ys else y ∷ rest

  -- ORDER BY created_at, id, both ascending or both descending.
  unfoldable pub order_by : List A → List A
  unfolding insert
  order_by [] = []
  order_by (x ∷ xs) = insert x (order_by xs)

  abbrev pub last_place : A → List A → Place
  last_place x [] = place x
  last_place x (y ∷ ys) = last_place y ys

  module _ (lib : CursorLib) where
    -- The cursor of the last item, where there are more than `limit` rows. The routes admit no
    -- limit of 0, with which `items[-1]` would raise.
    abbrev pub cursor_of : List A → Option Text
    cursor_of [] = none
    cursor_of (x ∷ xs) = some (lib.encode_cursor (last_place x xs))

    -- The page of `limit` items, of the rows that the query gave, at most `limit + 1`.
    unfoldable pub page_of : ℕ → List A → Page A
    page_of limit records = record {
      items = take limit records;
      next_cursor = if ltb limit (length records) then cursor_of (take limit records) else none;
    }

    abbrev pub start_after : Option Text → Result CursorError (Option Place)
    start_after none = ok none
    start_after (some value) = elim (lib.decode_cursor value) [
      | none ↦ err invalid_cursor
      | some p ↦ ok (some p)
    ]

    abbrev pub is_after : Option Place → A → Bool
    is_after none x = true
    is_after (some p) x = past p (place x)

    -- The query of a listing, with the rows of the table that its WHERE clause selects.
    unfoldable pub list_page : ℕ → Option Text → List A → Result CursorError (Page A)
    unfolding order_by page_of
    list_page limit cursor rows = do
      start ← start_after cursor
      ok (page_of limit (take (limit + 1) (order_by (select (is_after start) rows))))

abbrev pub place_of_competitor : Competitor → Place
place_of_competitor c = (c.created_at, c.id)

abbrev pub place_of_source : MonitoredSource → Place
place_of_source s = (s.created_at, s.id)

abbrev pub of_competitor : ℕ → MonitoredSource → Bool
of_competitor i s = s.competitor_id == i

unfoldable pub list_competitors :
    CursorLib → ℕ → ℕ → Option Text → Tables → Result CursorError (Page Competitor)
unfolding list_page
list_competitors lib user limit cursor db =
    list_page after place_of_competitor lib limit cursor (select (live_of user) db.competitors)

unfoldable pub list_sources :
    CursorLib → ℕ → ℕ → Option Text → Tables → Result CursorError (Page MonitoredSource)
unfolding list_page
list_sources lib competitor_id limit cursor db =
    list_page after place_of_source lib limit cursor
      (select (of_competitor competitor_id) db.sources)

module _ {A : Type 0} (fetch : Option Text → Result CursorError (Page A)) where
  -- What a client reads that follows the cursors, at most `fuel` pages.
  unfoldable pub read_pages : ℕ → Option Text → List A
  read_pages zero cursor = []
  read_pages (suc fuel) cursor = elim (fetch cursor) [
    | err e ↦ []
    | ok page ↦
        page.items ++ elim page.next_cursor [ none ↦ [] | some c ↦ read_pages fuel (some c) ]
  ]
