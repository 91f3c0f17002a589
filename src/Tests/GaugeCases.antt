-- ===== src/Tests/GaugeCases.antt =====
-- The gauges of a fleet with two requests of which the first has ended.
use neura_balancer.Common.{◌≡◌, refl, [], ◌∷◌, inl, inr, arith}
use neura_balancer.Balancer.{choose, healthy, release_server}
use neura_balancer.Balancer.Gauges.Histories.{Reach-IsShown}
use neura_balancer.Balancer.Gauges.Steps.{Watches}
use neura_balancer.Balancer.Gauges.Picking.{least_connections-PicksFrom}
use neura_balancer.Balancer.Gauges.Watching.{watch}
use neura_balancer.Balancer.Sessions.{System, Reach, here, next, begins, ends, no_reset}
use neura_balancer.Factory.{least_connections}
use neura_balancer.Metrics.Collector.{new_collector}
use neura_balancer.Server.{Heap, increment_conns}
use neura_balancer.Strategies.LeastConnections
use neura_balancer.Tests.CollectorCases.{tenths}
use neura_balancer.Tests.Fixtures.{backend, three}

abbrev idle_fleet : Heap
idle_fleet r = backend r 0

abbrev quiet : System (Unit {0})
quiet = record { lb = record { heap = idle_fleet; servers = three; strategy = tt }; pending = [] }

abbrev one_open : System (Unit {0})
one_open = record {
  lb = (choose least_connections quiet.lb tt (healthy idle_fleet three)).0;
  pending = 0 ∷ [];
}

abbrev two_open : System (Unit {0})
two_open = record {
  lb = (choose least_connections one_open.lb tt (healthy idle_fleet three)).0;
  pending = 1 ∷ 0 ∷ [];
}

abbrev one_ended : System (Unit {0})
one_ended = record { lb = (release_server two_open.lb 0).0; pending = 1 ∷ [] }

history : Reach least_connections no_reset quiet one_ended
unfolding healthy choose LeastConnections.select increment_conns
history =
    next (next (next here (begins idle_fleet tt 0 refl refl)) (begins idle_fleet tt 1 refl refl))
      (ends 0 (1 ∷ []) [] refl refl)

quiet-Watches :
    Watches tenths 0 least_connections least_connections-PicksFrom quiet (new_collector tenths)
unfolding new_collector
quiet-Watches = (((λ r q i j e. ground arith), tt, (λ r i. refl)), λ q i. elim i [ ])

Reach-IsShown_example :
    (watch least_connections no_reset tenths 0 (new_collector tenths) history).active_conns
      (one_ended.lb.heap 1).id
    ≡ 10
unfolding choose release_server healthy LeastConnections.select increment_conns
Reach-IsShown_example =
    Reach-IsShown tenths 0 least_connections least_connections-PicksFrom quiet one_ended
      (new_collector tenths) history 1 quiet-Watches (λ q. refl) (inr (inl refl))
