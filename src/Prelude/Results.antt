-- ===== src/Prelude/Results.antt =====
-- A Go function that returns a value or an error.
use mathlib.Core.Path.{◌≡◌, refl, ap}
use mathlib.Core.Logic.{◌⊎◌, inl, inr}
use mathlib.Core.Bool.{Bool, true, false}

pub data Result (E A : Type 0) : Type 0 where
  ok : A → Result E A
  err : E → Result E A

infixl 5 ◌>>=◌ ◌>>◌
abbrev pub ◌>>=◌ : {E A B : Type 0} → Result E A → (A → Result E B) → Result E B
ok a >>= f = f a
err e >>= f = err e

abbrev pub ◌>>◌ : {E B : Type 0} → Result E (Unit {0}) → Result E B → Result E B
m >> k = m >>= λ _. k

-- `if !test { return e }`
abbrev pub ensure : {E : Type 0} → Bool → E → Result E (Unit {0})
ensure true e = ok tt
ensure false e = err e

-- `if err := f(); err != nil { return e }`
abbrev pub or_fail : {E F A : Type 0} → Result E A → F → Result F A
or_fail (ok a) e = ok a
or_fail (err _) e = err e

pub Result-cases :
    {E A : Type 0} (r : Result E A) → ((a : A) × (r ≡ ok a)) ⊎ ((e : E) × (r ≡ err e))
Result-cases (ok a) = inl (a, refl)
Result-cases (err e) = inr (e, refl)

-- A result is one value.
pub ok_unique : {E A : Type 0} (r : Result E A) (a b : A) → r ≡ ok a → r ≡ ok b → a ≡ b
ok_unique r a b h k = cc (h, k)

-- So is an error.
pub err_unique : {E A : Type 0} (r : Result E A) (a b : E) → r ≡ err a → r ≡ err b → a ≡ b
err_unique r a b h k = cc (h, k)

-- A chain that succeeds has succeeded at each step.
pub bind-ok :
    {E A B : Type 0} (r : Result E A) (f : A → Result E B) (b : B)
    → (r >>= f) ≡ ok b
    → (a : A) × (r ≡ ok a) × (f a ≡ ok b)
bind-ok (ok a) f b h = (a, refl, h)
bind-ok (err e) f b h = absurd (cc)

-- A chain fails at one of its steps.
pub bind_fails :
    {E A B : Type 0} (P : E → Type 0) (r : Result E A) (f : A → Result E B) (e : E)
    → (r ≡ err e → P e)
    → ((a : A) → r ≡ ok a → f a ≡ err e → P e)
    → (r >>= f) ≡ err e
    → P e
bind_fails P (ok a) f e first later h = later a refl h
bind_fails P (err d) f e first later h = first (ap err (err_unique _ d e refl h))
