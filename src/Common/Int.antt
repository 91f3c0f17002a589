-- ===== src/Common/Int.antt =====
-- Go's signed integers, over the native numbers.
use Prim.Native.Nat.{ℕ, suc, ◌+◌, ◌*◌, ◌-◌, ◌%◌, ◌^◌}
use mathlib.Core.Bool.{Bool, true, ◌&&◌}
use mathlib.Core.Path.{◌≡◌, ap}
use native.Mathlib.Omega.{arith}
use neura_balancer.Common.Tests.{ltb, leb, ◌==◌, if◌then◌else◌}

-- `negsuc n` is -(n + 1).
pub data ℤ : Type 0 where
  pos : ℕ → ℤ
  negsuc : ℕ → ℤ

abbrev pub pos_part : ℤ → ℕ
pos_part (pos n) = n
pos_part (negsuc n) = 0

abbrev pub neg_part : ℤ → ℕ
neg_part (pos n) = 0
neg_part (negsuc n) = suc n

abbrev pub ltb_ℤ : ℤ → ℤ → Bool
ltb_ℤ a b = ltb (pos_part a + neg_part b) (pos_part b + neg_part a)

abbrev pub leb_ℤ : ℤ → ℤ → Bool
leb_ℤ a b = leb (pos_part a + neg_part b) (pos_part b + neg_part a)

-- A product with a number, as of a duration with its unit.
abbrev pub scale : ℤ → ℕ → ℤ
scale (pos n) k = pos (n * k)
scale (negsuc n) k = negsuc (suc n * k - 1)

-- A value in the range of a 64-bit integer, by two's complement.
abbrev pub wrap_int : ℤ → ℤ
wrap_int a =
    let r = (pos_part a + (2 ^ 64 - neg_part a % 2 ^ 64)) % 2 ^ 64 in
    if ltb r (2 ^ 63) then pos r else negsuc (2 ^ 64 - 1 - r)

abbrev pub int_eq : ℤ → ℤ → Bool
int_eq a b = (pos_part a == pos_part b) && (neg_part a == neg_part b)

pub eq_of_int_eq : (a b : ℤ) → int_eq a b ≡ true → a ≡ b
eq_of_int_eq (pos m) (pos n) h = ap pos (ground arith)
eq_of_int_eq (pos m) (negsuc n) h = absurd (ground arith)
eq_of_int_eq (negsuc m) (pos n) h = absurd (ground arith)
eq_of_int_eq (negsuc m) (negsuc n) h = ap negsuc (ground arith)

pub int_eq_refl : (a : ℤ) → int_eq a a ≡ true
int_eq_refl (pos n) = ground arith
int_eq_refl (negsuc n) = ground arith
