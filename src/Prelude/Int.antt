-- ===== src/Prelude/Int.antt =====
-- Go's signed `int` and `time.Duration`, as far as the code uses them: a sign test, a comparison
-- with a length and an addition to an instant. `negsuc n` is -(n + 1).
use Prim.Native.Nat.{ℕ, suc, ◌+◌, ◌-◌}
use mathlib.Core.Bool.{Bool, true, false}
use mathlib.Core.Path.{◌≡◌}
use mathlib.Core.Logic.{◌↔◌}
use native.Mathlib.Omega.{arith}
use inventree_mcp.Prelude.Tests.{ltb, leb, eqb, if◌then◌else◌}

pub data ℤ : Type 0 where
  pos : ℕ → ℤ
  negsuc : ℕ → ℤ

-- `z > 0`
abbrev pub is_positive : ℤ → Bool
is_positive (pos n) = ltb 0 n
is_positive (negsuc n) = false

-- `n >= z` for a length `n`
abbrev pub reaches : ℕ → ℤ → Bool
reaches n (pos m) = leb m n
reaches n (negsuc m) = true

-- `n <= z` for a counter `n`
abbrev pub within : ℕ → ℤ → Bool
within n (pos m) = leb n m
within n (negsuc m) = false

-- `z` where it is not negative, and 0 elsewhere
abbrev pub to_nat : ℤ → ℕ
to_nat (pos n) = n
to_nat (negsuc n) = 0

-- `t.Add(d)`
abbrev pub add_duration : ℕ → ℤ → ℕ
add_duration t (pos n) = t + n
add_duration t (negsuc n) = t - suc n

-- `if z <= 0 { z = d }`
abbrev pub or_default : ℤ → ℤ → ℤ
or_default z d = if is_positive z then z else d

-- `==` on `int`
abbrev pub eq_int : ℤ → ℤ → Bool
eq_int (pos m) (pos n) = eqb m n
eq_int (negsuc m) (negsuc n) = eqb m n
eq_int _ _ = false

pub eq_int_iff : (i j : ℤ) → (eq_int i j ≡ true) ↔ (i ≡ j)
eq_int_iff i j = ground arith
