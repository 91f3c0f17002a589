-- ===== src/Balancer.antt =====
-- `LoadBalancer` of backend/internal/loadbalancer/balancer.go: its state, the choice and the release
-- of a server. The children model the rest of the file.
pub mod Selection
pub mod Health
pub mod Proxy
pub mod Sessions
pub mod Threads
pub mod Polling
pub mod Gauges
pub mod Loops
pub mod Seed
use neura_balancer.Common.{
  ℕ, Bool, true, false, if◌then◌else◌, List, [], ◌∷◌, ◌++◌, keep, ℤ, pos, ltb_ℤ,
}
use neura_balancer.Common.Text.{Text}
use neura_balancer.Ml.Strategy.{MlCall}
use neura_balancer.Server.{Server, Ref, Heap, increment_conns, decrement_conns}
use neura_balancer.Strategies.Pick.{Pick, nil_server, server, run_time_panic}

-- The interface `Strategy` of the source. `World` is what a call meets outside the program: a random
-- number, the clock, the model server.
pub record Strategy : Type 1 where
  pub State : Type 0
  pub World : Type 0
  pub select : State → World → Heap → List Ref → State × Pick × List MlCall

-- What the balancer tells the collector and the database, in order.
pub data Effect : Type 0 where
  ml_call : MlCall → Effect
  set_active_connections : ℤ → ℕ → Effect
  record_request : ℤ → Text → Text → ℕ → Bool → Effect
  update_server_status : ℤ → Bool → Effect

pub record LoadBalancer (S : Type 0) : Type 0 where
  pub heap : Heap
  pub servers : List Ref
  pub strategy : S

-- What `NextServer` returns: a server, or one of its two errors, or the panic of a strategy.
pub data Next : Type 0 where
  selected : Ref → Next
  no_healthy_servers : Next
  strategy_returned_nil : Next
  strategy_panicked : Next

abbrev pub effects_of : List MlCall → List Effect
effects_of [] = []
effects_of (c ∷ cs) = ml_call c ∷ effects_of cs

unfoldable pub healthy : Heap → List Ref → List Ref
healthy h servers = keep (λ r. (h r).alive) servers

-- The gauge of a server's open requests, at its present count.
abbrev pub active_connections : Heap → Ref → Effect
active_connections h r = set_active_connections (h r).id (h r).connections

-- What follows the call of the strategy.
unfoldable pub accept :
    {S : Type 0} → LoadBalancer S → List Effect → Pick → LoadBalancer S × Next × List Effect
accept lb told nil_server = (lb, strategy_returned_nil, told)
accept lb told run_time_panic = (lb, strategy_panicked, told)
accept lb told (server r) =
    let h' = increment_conns lb.heap r in
    (record lb { heap = h' }, selected r, told ++ active_connections h' r ∷ [])

-- The part of `NextServer` below the copy of the healthy servers.
unfoldable pub choose :
    (strat : Strategy)
    → LoadBalancer strat.State
    → strat.World
    → List Ref
    → LoadBalancer strat.State × Next × List Effect
unfolding accept
choose strat lb world [] = (lb, no_healthy_servers, [])
choose strat lb world (r ∷ rs) =
    let (s', p, told) = strat.select lb.strategy world lb.heap (r ∷ rs) in
    accept (record lb { strategy = s' }) (effects_of told) p

unfoldable pub next_server :
    (strat : Strategy)
    → LoadBalancer strat.State
    → strat.World
    → LoadBalancer strat.State × Next × List Effect
unfolding choose
next_server strat lb world = choose strat lb world (healthy lb.heap lb.servers)

unfoldable pub release_server : {S : Type 0} → LoadBalancer S → Ref → LoadBalancer S × List Effect
release_server lb r =
    let h' = decrement_conns lb.heap r in (record lb { heap = h' }, active_connections h' r ∷ [])
