-- ===== src/Strategies.antt =====
-- backend/internal/loadbalancer/strategies.go: the four strategies that need no model, in the
-- children, and what a call of `Select` comes to.
pub mod Pick
mod Cycle
pub mod RoundRobin
pub mod WeightedRoundRobin
pub mod LeastConnections
pub mod Random
