-- ===== src/Prelude/Orders.antt =====
-- The lexicographic orders of the ORDER BY clauses, ascending and descending.
use competitor_scout.Prelude.{ℕ, Bool, ◌&&◌, ◌||◌, ◌≡◌, true, false, arith, ltb, ◌==◌}
use competitor_scout.Prelude.Tables.{IsOrder}

-- ORDER BY two columns, both ascending.
abbrev pub lex₂ : ℕ → ℕ → ℕ → ℕ → Bool
lex₂ a b a' b' = ltb a a' || (a == a' && ltb b b')

-- ORDER BY three columns, all ascending.
abbrev pub lex₃ : ℕ → ℕ → ℕ → ℕ → ℕ → ℕ → Bool
lex₃ a b c a' b' c' = ltb a a' || (a == a' && lex₂ b c b' c')

lex₂_asym : (a b a' b' : ℕ) → lex₂ a b a' b' ≡ true → lex₂ a' b' a b ≡ false
lex₂_asym a b a' b' h = ground arith

lex₂_negtrans :
    (a b a' b' a'' b'' : ℕ)
    → lex₂ a b a' b' ≡ false
    → lex₂ a' b' a'' b'' ≡ false
    → lex₂ a b a'' b'' ≡ false
lex₂_negtrans a b a' b' a'' b'' h k = ground arith

lex₃_asym : (a b c a' b' c' : ℕ) → lex₃ a b c a' b' c' ≡ true → lex₃ a' b' c' a b c ≡ false
lex₃_asym a b c a' b' c' h = ground arith

lex₃_negtrans :
    (a b c a' b' c' a'' b'' c'' : ℕ)
    → lex₃ a b c a' b' c' ≡ false
    → lex₃ a' b' c' a'' b'' c'' ≡ false
    → lex₃ a b c a'' b'' c'' ≡ false
lex₃_negtrans a b c a' b' c' a'' b'' c'' h k = ground arith

module _ {ℓ} {A : Type ℓ} (f g : A → ℕ) where
  -- ORDER BY f, g.
  abbrev pub ascending : A → A → Bool
  ascending x y = lex₂ (f x) (g x) (f y) (g y)

  -- ORDER BY f DESC, g DESC.
  abbrev pub descending : A → A → Bool
  descending x y = ascending y x

  pub ascending-IsOrder : IsOrder ascending
  ascending-IsOrder = record {
    asym = λ x y. lex₂_asym (f x) (g x) (f y) (g y);
    negtrans = λ x y z. lex₂_negtrans (f x) (g x) (f y) (g y) (f z) (g z);
  }

  pub descending-IsOrder : IsOrder descending
  descending-IsOrder = record {
    asym = λ x y. lex₂_asym (f y) (g y) (f x) (g x);
    negtrans = λ x y z h k. lex₂_negtrans (f z) (g z) (f y) (g y) (f x) (g x) k h;
  }

module _ {ℓ} {A : Type ℓ} (f g h : A → ℕ) where
  -- ORDER BY f, g, h.
  abbrev pub ascending₃ : A → A → Bool
  ascending₃ x y = lex₃ (f x) (g x) (h x) (f y) (g y) (h y)

  pub ascending₃-IsOrder : IsOrder ascending₃
  ascending₃-IsOrder = record {
    asym = λ x y. lex₃_asym (f x) (g x) (h x) (f y) (g y) (h y);
    negtrans = λ x y z. lex₃_negtrans (f x) (g x) (h x) (f y) (g y) (h y) (f z) (g z) (h z);
  }
