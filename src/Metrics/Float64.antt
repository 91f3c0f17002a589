-- ===== src/Metrics/Float64.antt =====
-- Go's `float64` as far as the collector uses it. The laws hold of IEEE 754 numbers.
use neura_balancer.Common.{ℕ, Bool, false, ◌≡◌}

pub record Float64 : Type 1 where
  pub Carrier : Type 0
  pub lt : Carrier → Carrier → Bool
  pub equal : Carrier → Carrier → Bool
  pub add : Carrier → Carrier → Carrier
  pub mul : Carrier → Carrier → Carrier
  pub zero_value : Carrier
  pub one_value : Carrier
  pub one_tenth : Carrier
  pub nine_tenths : Carrier
  pub hundred : Carrier
  pub of_count : ℕ → Carrier
  pub lt_zero : lt zero_value zero_value ≡ false
  pub hundred_lt : lt hundred zero_value ≡ false
  pub lt_hundred : lt hundred hundred ≡ false
