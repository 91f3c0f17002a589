-- ===== src/Strategies/RoundRobin.antt =====
-- `RoundRobin` of backend/internal/loadbalancer/strategies.go. The counter is the 64-bit pattern of
-- the `uint64`; `atomic.AddUint64` makes each call one step.
pub mod Fairness
use neura_balancer.Common.{ℕ, ◌+◌, ◌-◌, ◌%◌, ◌^◌, List, [], ◌∷◌}
use neura_balancer.Server.{Ref}
use neura_balancer.Strategies.Pick.{Pick, nil_server, index_mod}

pub record RoundRobin : Type 0 where
  pub counter : ℕ

unfoldable pub new_round_robin : RoundRobin
new_round_robin = record { counter = 0 }

unfoldable pub select : RoundRobin → List Ref → RoundRobin × Pick
select r [] = (r, nil_server)
select r (s ∷ ss) =
    let counter' = (r.counter + 1) % 2 ^ 64 in
    let idx = (counter' + 2 ^ 64 - 1) % 2 ^ 64 in
    (record r { counter = counter' }, index_mod (s ∷ ss) idx)
