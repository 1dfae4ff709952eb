-- ===== src/Competitors/Capacity.antt =====
-- The limit on the competitors of a user, and their domains: what a change of the table does to
-- both, and `create_competitor`.
use competitor_scout.Prelude.{
  ℕ, ◌≡◌, refl, false, not, List, [], ◌∷◌, ◌++◌, none, some, ◌==◌, arith, Bool-cases, inl, inr, any,
  ==_iff, ok, bind_inversion, guard_inversion, count, leb, ◌≤◌, ◌<◌,
}
use mathlib.Core.Path.{subst}
use competitor_scout.Prelude.Tables
use competitor_scout.Prelude.Counts.{count-append, count-none, count-update_le}
use competitor_scout.Prelude.Tables.{
  find, Unique, update-absent, find-key, find-update, update-Unique, find-append, append-Unique,
  any-append, any-find,
}
use competitor_scout.Prelude.Texts.{Text, text_eq_iff}
use competitor_scout.Competitors.{
  Competitor, Tables, CompetitorStatus, get_competitor, competitor_id_of, create_with_domain,
  new_competitor, insert_competitor, ensure_competitor_capacity, live_with_domain, live_of,
  duplicate_competitor, limit_reached, is_deleted,
}
use competitor_scout.Competitors.Routes.{}

-- No user has more live competitors than the limit, nor two live ones with one domain.
pub record Capacity (limit : ℕ) (rows : List Competitor) : Type 0 where
  pub ids : Unique competitor_id_of rows
  pub within : (user : ℕ) → count (live_of user) rows ≤ limit
  pub one_per_domain : (user : ℕ) (domain : Text) → count (live_with_domain user domain) rows ≤ 1

module _ (limit : ℕ) where
  pub put-Capacity :
      (i : ℕ) (f : Competitor → Competitor)
      → ((c : Competitor) → (f c).id ≡ c.id)
      → ((c : Competitor) → (f c).user_id ≡ c.user_id)
      → ((c : Competitor) → (f c).primary_domain ≡ c.primary_domain)
      → (rows : List Competitor)
      → ((c : Competitor)
          → get_competitor i rows ≡ some c
          → is_deleted (f c).status ≡ false
          → is_deleted c.status ≡ false)
      → Capacity limit rows
      → Capacity limit (Tables.update competitor_id_of i f rows)
  put-Capacity i f ki ku kd rows live v = record {
    ids = update-Unique competitor_id_of i f ki rows v.ids;
    within = λ user. omega (
      arith,
      count-update_le competitor_id_of (live_of user) i f rows v.ids
          (λ c m h. ground (arith, ku c, live c m)),
      v.within user,
    );
    one_per_domain = λ user domain. omega (
      arith,
      count-update_le competitor_id_of (live_with_domain user domain) i f rows v.ids
          (λ c m h. ground (arith, ku c, kd c, live c m)),
      v.one_per_domain user domain,
    );
  }

  -- A change of the status of a competitor that is not deleted.
  pub status-Capacity :
      (c : Competitor) (status : CompetitorStatus) (rows : List Competitor)
      → get_competitor c.id rows ≡ some c
      → is_deleted c.status ≡ false
      → Capacity limit rows
      → Capacity limit
          (Tables.update competitor_id_of c.id (λ r. record r { status = status }) rows)
  status-Capacity c status rows m l =
      put-Capacity c.id (λ r. record r { status = status }) (λ r. refl) (λ r. refl) (λ r. refl) rows
        (λ r n h. ground arith)

  -- A new competitor beside fewer than the limit, with a domain that is free.
  added-Capacity :
      (n : Competitor) (rows : List Competitor)
      → get_competitor n.id rows ≡ none
      → count (live_of n.user_id) rows < limit
      → any (live_with_domain n.user_id n.primary_domain) rows ≡ false
      → Capacity limit rows
      → Capacity limit (rows ++ n ∷ [])
  added-Capacity n rows absent room fresh v = record {
    ids = append-Unique competitor_id_of rows n v.ids absent;
    within = λ u. elim (Bool-cases (n.user_id == u)) [
      | inl e ↦
          let below : count (live_of u) rows < limit =
            subst (λ x. count (live_of x) rows < limit) ((==_iff n.user_id u).0 e) room in
          ground (arith, count-append competitor_id_of (live_of u) rows n)
      | inr e ↦ ground (arith, count-append competitor_id_of (live_of u) rows n, v.within u)
    ];
    one_per_domain = λ u d. elim (Bool-cases (live_with_domain u d n)) [
      | inr e ↦
          ground (
            arith,
            count-append competitor_id_of (live_with_domain u d) rows n,
            v.one_per_domain u d,
          )
      | inl e ↦
          let qu : n.user_id ≡ u = ground arith in
          let qd : n.primary_domain ≡ d = (text_eq_iff n.primary_domain d).0 (ground arith) in
          let free : any (live_with_domain u d) rows ≡ false =
            subst (λ x. any (live_with_domain x d) rows ≡ false) qu
              (subst (λ y. any (live_with_domain n.user_id y) rows ≡ false) qd fresh) in
          ground (
            arith,
            count-append competitor_id_of (live_with_domain u d) rows n,
            count-none competitor_id_of (live_with_domain u d) rows free,
          )
    ];
  }

  pub create-Capacity :
      (id created user : ℕ) (name domain description : Text) (time : ℕ) (db db' : Tables)
      (c : Competitor)
      → create_with_domain id created user name domain description time limit db ≡ ok (c, db')
      → Capacity limit db.competitors
      → Capacity limit db'.competitors
  unfolding create_with_domain insert_competitor ensure_competitor_capacity
  create-Capacity id created user name domain description time db db' c h v =
      let n = new_competitor id created user name domain description time in
      let (g, h₁) =
        guard_inversion (not (any (live_with_domain user domain) db.competitors))
          duplicate_competitor _ (c, db') h in
      let (room, h₂) =
        guard_inversion (not (leb limit (count (live_of user) db.competitors))) limit_reached _
          (c, db') h₁ in
      let (w, f, h₃) = bind_inversion (insert_competitor n db) (λ t. ok (n, t)) (c, db') h₂ in
      let q : db'.competitors ≡ db.competitors ++ n ∷ [] = ground arith in
      rw q (added-Capacity n db.competitors (ground arith) (ground arith) (ground arith) v)
