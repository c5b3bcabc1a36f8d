-- ===== src/Common/Int.antt =====
-- Go's int, where the code lets it go below zero and no sum comes near its bounds.
use Prim.Native.Nat.{ℕ, zero, suc, ◌-◌, ◌≤◌}
use mathlib.Core.Path.{◌≡◌, refl}
use mathlib.Core.Bool.{Bool, true, false}
use native.Mathlib.Omega.{arith}
use kuperator.Common.Tests.{ltb, leb}

pub data ℤ : Type 0 where
  pos : ℕ → ℤ
  negsuc : ℕ → ℤ

-- max(z, 0)
abbrev pub to_nat : ℤ → ℕ
to_nat (pos n) = n
to_nat (negsuc n) = 0

-- z - 1
abbrev pub decrement : ℤ → ℤ
decrement (pos zero) = negsuc 0
decrement (pos (suc n)) = pos n
decrement (negsuc n) = negsuc (suc n)

-- z > 0
abbrev pub is_positive : ℤ → Bool
is_positive (pos zero) = false
is_positive (pos (suc n)) = true
is_positive (negsuc n) = false

-- y - z < 1
abbrev pub leaves_none : ℤ → ℤ → Bool
leaves_none (pos n) (pos m) = leb n m
leaves_none (pos n) (negsuc m) = false
leaves_none (negsuc n) (pos m) = true
leaves_none (negsuc n) (negsuc m) = leb m n

pub to_nat-decrement : (z : ℤ) → to_nat (decrement z) ≡ to_nat z - 1
to_nat-decrement (pos zero) = refl
to_nat-decrement (pos (suc n)) = omega arith
to_nat-decrement (negsuc n) = refl

pub is_positive-to_nat : (z : ℤ) → is_positive z ≡ ltb 0 (to_nat z)
is_positive-to_nat (pos zero) = refl
is_positive-to_nat (pos (suc n)) = ground arith
is_positive-to_nat (negsuc n) = refl

pub leaves_none-to_nat : (z : ℤ) (m : ℕ) → leaves_none z (pos m) ≡ false → suc m ≤ to_nat z
leaves_none-to_nat (pos n) m h = ground arith
leaves_none-to_nat (negsuc n) m h = cc
