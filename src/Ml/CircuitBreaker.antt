-- ===== src/Ml/CircuitBreaker.antt =====
-- `circuitBreaker` of backend/internal/loadbalancer/ml_strategy.go. Time is an argument, read from
-- Go's monotonic clock; the mutex makes each call one step.
pub mod Window
use neura_balancer.Common.{ℕ, ◌-◌, Bool, true, false, ◌&&◌, ℤ, pos, leb_ℤ, if◌then◌else◌}

-- `opened` is the source's field `open`. A negative `reset_after` is possible.
pub record CircuitBreaker : Type 0 where
  pub opened : Bool
  pub last_failure : ℕ
  pub reset_after : ℤ

unfoldable pub new_circuit_breaker : ℤ → CircuitBreaker
new_circuit_breaker reset_after = record {
  opened = false;
  last_failure = 0;
  reset_after = reset_after;
}

unfoldable pub is_open : CircuitBreaker → ℕ → CircuitBreaker × Bool
is_open cb now =
    let cb' =
      if cb.opened && leb_ℤ cb.reset_after (pos (now - cb.last_failure))
      then record cb { opened = false }
      else cb in
    (cb', cb'.opened)

unfoldable pub record_failure : CircuitBreaker → ℕ → CircuitBreaker
record_failure cb now = record cb { opened = true; last_failure = now }

unfoldable pub record_success : CircuitBreaker → CircuitBreaker
record_success cb = record cb { opened = false }
