-- ===== src/Prelude/Results.antt =====
-- A call that may raise: its value, or the exception.
use mathlib.Core.Path.{◌≡◌, refl, subst}
use mathlib.Core.Bool.{Bool, true, false}
use competitor_scout.Prelude.Tests.{if◌then◌else◌}

pub data Result {ℓ} (E A : Type ℓ) : Type ℓ where
  ok : A → Result E A
  err : E → Result E A

infixl 5 ◌>>=◌ ◌>>◌
abbrev pub ◌>>=◌ {ℓ} : {E A B : Type ℓ} → Result E A → (A → Result E B) → Result E B
ok a >>= f = f a
err e >>= f = err e

abbrev pub ◌>>◌ {ℓ} : {E B : Type ℓ} → Result E (Unit {ℓ}) → Result E B → Result E B
m >> k = m >>= λ _. k

-- `if not b: raise e`.
abbrev pub guard {ℓ} : {E : Type ℓ} → Bool → E → Result E (Unit {ℓ})
guard true e = ok tt
guard false e = err e

pub bind_inversion {ℓ} :
    {E A B : Type ℓ} (m : Result E A) (f : A → Result E B) (b : B)
    → (m >>= f) ≡ ok b
    → (a : A) × (m ≡ ok a) × (f a ≡ ok b)
bind_inversion (ok a) f b h = (a, refl, h)
bind_inversion (err e) f b h = cc

pub guard_inversion {ℓ} :
    {E B : Type ℓ} (t : Bool) (e : E) (m : Result E B) (b : B)
    → (guard t e >> m) ≡ ok b
    → (t ≡ true) × (m ≡ ok b)
guard_inversion true e m b h = (refl, h)
guard_inversion false e m b h = cc

-- The call returns, and what it returns has the property.
abbrev pub Ends {ℓ} : {E A : Type ℓ} → (A → Type 0) → Result E A → Type 0
Ends P (ok a) = P a
Ends P (err e) = ⊥

pub Ends-bind {ℓ} :
    {E A B : Type ℓ} (P : A → Type 0) (Q : B → Type 0) (m : Result E A) (f : A → Result E B)
    → Ends P m
    → ((a : A) → P a → Ends Q (f a))
    → Ends Q (m >>= f)
Ends-bind P Q (ok a) f p rest = rest a p
Ends-bind P Q (err e) f p rest = elim p [ ]

pub Ends-mono {ℓ} :
    {E A : Type ℓ} (P Q : A → Type 0) (m : Result E A) → Ends P m → ((a : A) → P a → Q a) → Ends Q m
Ends-mono P Q (ok a) p sub = sub a p
Ends-mono P Q (err e) p sub = elim p [ ]

pub Ends-if {ℓ} :
    {E A : Type ℓ} (P : A → Type 0) (b : Bool) (m n : Result E A)
    → (b ≡ true → Ends P m)
    → (b ≡ false → Ends P n)
    → Ends P (if b then m else n)
Ends-if P true m n p q = p refl
Ends-if P false m n p q = q refl

-- The call returns with the property, or raises an error of a kind.
abbrev pub EndsOr {ℓ} : {E A : Type ℓ} → (E → Type 0) → (A → Type 0) → Result E A → Type 0
EndsOr R P (ok a) = P a
EndsOr R P (err e) = R e

pub Ends-or {ℓ} :
    {E A : Type ℓ} (R : E → Type 0) (P : A → Type 0) (m : Result E A) → Ends P m → EndsOr R P m
Ends-or R P (ok a) p = p
Ends-or R P (err e) p = elim p [ ]

pub EndsOr-bind {ℓ} :
    {E A B : Type ℓ} (R : E → Type 0) (P : A → Type 0) (Q : B → Type 0) (m : Result E A)
    (f : A → Result E B)
    → EndsOr R P m
    → ((a : A) → P a → EndsOr R Q (f a))
    → EndsOr R Q (m >>= f)
EndsOr-bind R P Q (ok a) f p rest = rest a p
EndsOr-bind R P Q (err e) f p rest = p

pub EndsOr-mono {ℓ} :
    {E A : Type ℓ} (R : E → Type 0) (P Q : A → Type 0) (m : Result E A)
    → EndsOr R P m
    → ((a : A) → P a → Q a)
    → EndsOr R Q m
EndsOr-mono R P Q (ok a) p sub = sub a p
EndsOr-mono R P Q (err e) p sub = p

pub EndsOr-if {ℓ} :
    {E A : Type ℓ} (R : E → Type 0) (P : A → Type 0) (b : Bool) (m n : Result E A)
    → (b ≡ true → EndsOr R P m)
    → (b ≡ false → EndsOr R P n)
    → EndsOr R P (if b then m else n)
EndsOr-if R P true m n p q = p refl
EndsOr-if R P false m n p q = q refl

-- Whatever the call returns has the property.
abbrev pub Safe {ℓ} : {E A : Type ℓ} → (A → Type 0) → Result E A → Type 0
Safe P (ok a) = P a
Safe P (err e) = Unit

pub Safe-bind {ℓ} :
    {E A B : Type ℓ} (Q : B → Type 0) (m : Result E A) (f : A → Result E B)
    → ((a : A) → Safe Q (f a))
    → Safe Q (m >>= f)
Safe-bind Q (ok a) f h = h a
Safe-bind Q (err e) f h = tt

pub Safe-if {ℓ} :
    {E A : Type ℓ} (P : A → Type 0) (b : Bool) (m n : Result E A)
    → (b ≡ true → Safe P m)
    → (b ≡ false → Safe P n)
    → Safe P (if b then m else n)
Safe-if P true m n p q = p refl
Safe-if P false m n p q = q refl

pub Safe-ok {ℓ} :
    {E A : Type ℓ} (P : A → Type 0) (m : Result E A) (a : A) → m ≡ ok a → Safe P m → P a
Safe-ok P (ok b) a e p = subst P (cc) p
Safe-ok P (err x) a e p = cc
