-- ===== src/Ml.antt =====
-- backend/internal/loadbalancer/ml_strategy.go: the circuit breaker, the exchange with the model
-- server, the choice of the best score, the cache key, and the strategy built from them.
pub mod CircuitBreaker
pub mod Scores
pub mod CacheKey
pub mod Exchange
pub mod Lru
pub mod Strategy
pub mod Callers
