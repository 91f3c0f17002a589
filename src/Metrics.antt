-- ===== src/Metrics.antt =====
-- backend/internal/metrics/collector.go.
pub mod Readings
pub mod Float64
pub mod Collector
