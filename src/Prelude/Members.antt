-- ===== src/Prelude/Members.antt =====
-- A Boolean test of every member of a list, in whatever order.
use mathlib.Core.Logic.Or
use mathlib.Core.Path.{◌≡◌, ◌∙◌, ap}
use mathlib.Core.Bool.{Bool, true, Bool-set}
use mathlib.Core.List.{List, [], ◌∷◌, ◌++◌, Mem, Perm, mem-cons, mem-append, not-mem-nil}
use mathlib.Core.List.Perm

module _ {A : Type 0} (p : A → Bool) where
  abbrev pub Always : List A → Type 0
  Always xs = (a : A) → Mem a xs → p a ≡ true

  pub Always-nil : Always []
  Always-nil a m = absurd (not-mem-nil m)

  pub Always-cons : (x : A) (xs : List A) → p x ≡ true → Always xs → Always (x ∷ xs)
  Always-cons x xs h hs a m = Or.elim (Bool-set (p a) true) (mem-cons.0 m) (λ e. ap p e ∙ h) (hs a)

  pub Always-append : (xs ys : List A) → Always xs → Always ys → Always (xs ++ ys)
  Always-append xs ys hx hy a m = Or.elim (Bool-set (p a) true) (mem-append.0 m) (hx a) (hy a)

  pub Always-Perm : (xs ys : List A) → Perm xs ys → Always ys → Always xs
  Always-Perm xs ys same h a m = h a ((Perm.mem_iff same).0 m)
