-- ===== src/Prelude/Lists.antt =====
-- Lists measured by native numbers, and filters by a Boolean test.
use Prim.Native.Nat.{ℕ, zero, suc, ◌+◌, ◌*◌, ◌≤◌}
use mathlib.Core.Path.{◌≡◌, refl, sym, ap, subst}
use mathlib.Core.Logic.{◌⊎◌, ◌≢◌, inl, inr}
use mathlib.Core.List.{List, [], ◌∷◌, ◌++◌, map}
use mathlib.Core.Bool.{Bool}
use mathlib.Core.Option.{Option, none, some, some-injective}
use native.Mathlib.Omega.{arith}
use inventree_mcp.Prelude.Tests.{if◌then◌else◌, Bool-cases}

module _ {ℓ} {A : Type ℓ} where
  abbrev pub length : List A → ℕ
  length [] = 0
  length (x ∷ xs) = suc (length xs)

  abbrev pub get_elem? : List A → ℕ → Option A
  get_elem? [] i = none
  get_elem? (x ∷ xs) zero = some x
  get_elem? (x ∷ xs) (suc i) = get_elem? xs i

  -- A write out of bounds changes nothing.
  abbrev pub set : List A → ℕ → A → List A
  set [] i v = []
  set (x ∷ xs) zero v = v ∷ xs
  set (x ∷ xs) (suc i) v = x ∷ set xs i v

  abbrev pub replicate : ℕ → A → List A
  replicate zero a = []
  replicate (suc n) a = a ∷ replicate n a

  pub length-append : (xs ys : List A) → length (xs ++ ys) ≡ length xs + length ys
  length-append [] ys = omega arith
  length-append (x ∷ xs) ys = omega (arith, length-append xs ys)

  pub length-set : (xs : List A) (i : ℕ) (v : A) → length (set xs i v) ≡ length xs
  length-set [] i v = refl
  length-set (x ∷ xs) zero v = refl
  length-set (x ∷ xs) (suc i) v = ap suc (length-set xs i v)

  -- A predicate of every element.
  abbrev pub All {κ} : (A → Type κ) → List A → Type κ
  All P [] = Unit
  All P (x ∷ xs) = P x × All P xs

  pub All-append {κ} : (P : A → Type κ) (xs ys : List A) → All P xs → All P ys → All P (xs ++ ys)
  All-append P [] ys hx hy = hy
  All-append P (x ∷ xs) ys hx hy = (hx.0, All-append P xs ys hx.1 hy)

  -- How many elements pass a test.
  abbrev pub count : (A → Bool) → List A → ℕ
  count p [] = 0
  count p (x ∷ xs) = let rest = count p xs in if p x then suc rest else rest

  pub count-le-length : (p : A → Bool) (xs : List A) → count p xs ≤ length xs
  count-le-length p [] = omega arith
  count-le-length p (x ∷ xs) = ground (arith, count-le-length p xs)

  pub count-cons-mul :
      (p : A → Bool) (x : A) (xs : List A) (d : ℕ)
      → count p (x ∷ xs) * d ≡ (if p x then d else 0) + count p xs * d
  count-cons-mul p x xs d = elim (Bool-cases (p x)) [
    | inl e ↦ rw e (omega arith)
    | inr e ↦ rw e (omega arith)
  ]

  -- A write moves one element in or out of the count.
  pub count-set :
      (p : A → Bool) (xs : List A) (i : ℕ) (x y : A)
      → get_elem? xs i ≡ some x
      → count p (set xs i y) + (if p x then 1 else 0) ≡ count p xs + (if p y then 1 else 0)
  count-set p [] i x y h = cc
  count-set p (z ∷ xs) zero x y h = ground arith
  count-set p (z ∷ xs) (suc i) x y h = ground (arith, count-set p xs i x y h)

  abbrev pub sum_by : (A → ℕ) → List A → ℕ
  sum_by f [] = 0
  sum_by f (x ∷ xs) = f x + sum_by f xs

  pub sum_by-set :
      (f : A → ℕ) (xs : List A) (i : ℕ) (x y : A)
      → get_elem? xs i ≡ some x
      → sum_by f (set xs i y) + f x ≡ sum_by f xs + f y
  sum_by-set f [] i x y h = cc
  sum_by-set f (z ∷ xs) zero x y h = omega (arith, ap f (some-injective _ _ h))
  sum_by-set f (z ∷ xs) (suc i) x y h = omega (arith, sum_by-set f xs i x y h)

  pub All-set {κ} :
      (P : A → Type κ) (xs : List A) (i : ℕ) (y : A) → All P xs → P y → All P (set xs i y)
  All-set P [] i y h py = h
  All-set P (z ∷ xs) zero y h py = (py, h.1)
  All-set P (z ∷ xs) (suc i) y h py = (h.0, All-set P xs i y h.1 py)

  pub All-get {κ} :
      (P : A → Type κ) (xs : List A) (i : ℕ) (x : A) → All P xs → get_elem? xs i ≡ some x → P x
  All-get P [] i x h e = absurd (cc)
  All-get P (z ∷ xs) zero x h e = subst P (some-injective _ _ e) h.0
  All-get P (z ∷ xs) (suc i) x h e = All-get P xs i x h.1 e

  pub set_self : (xs : List A) (i : ℕ) (x : A) → get_elem? xs i ≡ some x → set xs i x ≡ xs
  set_self [] i x h = refl
  set_self (z ∷ xs) zero x h = ap (λ y. y ∷ xs) (sym (some-injective _ _ h))
  set_self (z ∷ xs) (suc i) x h = ap (◌∷◌ z) (set_self xs i x h)

  pub get_elem?-set :
      (xs : List A) (i j : ℕ) (y z : A)
      → get_elem? (set xs i y) j ≡ some z
      → ((i ≡ j) × (y ≡ z)) ⊎ ((i ≢ j) × (get_elem? xs j ≡ some z))
  get_elem?-set [] i j y z h = absurd (cc h)
  get_elem?-set (x ∷ xs) zero zero y z h = inl (refl, some-injective _ _ h)
  get_elem?-set (x ∷ xs) zero (suc j) y z h = inr (λ e. omega (arith, e), h)
  get_elem?-set (x ∷ xs) (suc i) zero y z h = inr (λ e. omega (arith, e), h)
  get_elem?-set (x ∷ xs) (suc i) (suc j) y z h = elim (get_elem?-set xs i j y z h) [
    | inl (e, same) ↦ inl (ap suc e, same)
    | inr (apart, there) ↦ inr (λ e. apart (omega (arith, e)), there)
  ]

  pub All-of_get {κ} :
      (P : A → Type κ) (xs : List A) → ((i : ℕ) (x : A) → get_elem? xs i ≡ some x → P x) → All P xs
  All-of_get P [] h = tt
  All-of_get P (x ∷ xs) h = (h zero x refl, All-of_get P xs (λ i. h (suc i)))

  pub map-set {κ} :
      {B : Type κ} (f : A → B) (xs : List A) (i : ℕ) (x y : A)
      → get_elem? xs i ≡ some x
      → f y ≡ f x
      → map f (set xs i y) ≡ map f xs
  map-set f [] i x y h e = refl
  map-set f (z ∷ xs) zero x y h e = cc (ap f (some-injective _ _ h))
  map-set f (z ∷ xs) (suc i) x y h e = ap (◌∷◌ (f z)) (map-set f xs i x y h e)

-- An element occurs in a list.
abbrev pub Occurs : {A : Type 0} → A → List A → Type 0
Occurs a [] = ⊥
Occurs a (x ∷ xs) = (x ≡ a) ⊎ Occurs a xs
