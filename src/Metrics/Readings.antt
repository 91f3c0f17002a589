-- ===== src/Metrics/Readings.antt =====
-- What the load balancer reads from the collector of backend/internal/metrics/collector.go: the
-- getters, each at a server's identifier. `D` stands for `float64`.
use neura_balancer.Common.{ℤ}

pub record Readings (D : Type 0) : Type 0 where
  pub cpu_usage : ℤ → D
  pub memory_usage : ℤ → D
  pub error_rate : ℤ → D
  pub response_p95 : ℤ → D
