-- ===== src/Common/Float32.antt =====
-- Go's `float32`, as far as the program compares its values: a type with `<` and the largest finite
-- value. The laws are those of IEEE 754 comparisons, which hold with NaN among the values too.
use mathlib.Core.Bool.{Bool, true, false}
use mathlib.Core.Path.{◌≡◌}
use native.Mathlib.Omega.{arith}
use neura_balancer.Common.Tests.{ltb}
use Prim.Native.Nat.{ℕ}

pub record Float32 : Type 1 where
  pub Carrier : Type 0
  pub lt : Carrier → Carrier → Bool
  pub max_value : Carrier
  pub lt_irrefl : (a : Carrier) → lt a a ≡ false
  pub lt_trans : (a b c : Carrier) → lt a b ≡ true → lt b c ≡ true → lt a c ≡ true

pub lt_asymm : (fl : Float32) (a b : fl.Carrier) → fl.lt a b ≡ true → fl.lt b a ≡ false
lt_asymm fl a b p = ground (arith, fl.lt_trans a b a, fl.lt_irrefl a)

-- The natural numbers up to 1000 as such a type, for tests.
pub natural_lt_irrefl : (a : ℕ) → ltb a a ≡ false
natural_lt_irrefl a = ground arith

pub natural_lt_trans : (a b c : ℕ) → ltb a b ≡ true → ltb b c ≡ true → ltb a c ≡ true
natural_lt_trans a b c p q = ground arith

abbrev pub natural_scores : Float32
natural_scores = record {
  Carrier = ℕ;
  lt = ltb;
  max_value = 1000;
  lt_irrefl = natural_lt_irrefl;
  lt_trans = natural_lt_trans;
}
