-- ===== src/Tests/ThreadCases.antt =====
-- Two requests and a round of health checks over a fleet of three idle servers, an access at a time.
use neura_balancer.Common.{
  negsuc, leb_ℤ, ◌≡◌, refl, true, false, some, none, replicate, get_elem?, List, [], ◌∷◌, ◌++◌,
  arith,
}
use neura_balancer.Common.Text.{codes}
use neura_balancer.Balancer.Health.{check_server}
use neura_balancer.Balancer.{LoadBalancer, healthy}
use neura_balancer.Balancer.Proxy.{Request, not_answered}
use neura_balancer.Balancer.Threads.{
  arrived, picked, finished, Input, System, Event, arrives, moves, checks, run, step, move, resume,
  check_next,
}
use neura_balancer.Balancer.Threads.Counts.{run-Exact}
use neura_balancer.Balancer.Threads.Service.{run_serves}
use neura_balancer.Balancer.Threads.Race.{overtaken, run-overtaken}
use neura_balancer.Balancer.Threads.Waiting.{run_frees, run_waits}
use neura_balancer.Factory.{least_connections}
use neura_balancer.Server.{Heap, increment_conns}
use neura_balancer.Server.Resets as Resets
use neura_balancer.Server.Resets.{resting, decrements, proceeds, resets, run_bounded}
use neura_balancer.Strategies.LeastConnections
use neura_balancer.Tests.Fixtures.{backend, three}

abbrev idle_fleet : Heap
idle_fleet r = backend r 0

abbrev idle_balancer : LoadBalancer (Unit {0})
idle_balancer = record { heap = idle_fleet; servers = three; strategy = tt }

abbrev get_home : Request
get_home = record { method = codes "GET"; path = codes "/"; uri = codes "/"; headers = [] }

-- A turn of a request that its server does not answer.
abbrev input : Input least_connections
input = record { seen = idle_fleet; world = tt; request = get_home; outcome = some not_answered }

abbrev quiet : System (Unit {0})
quiet = record { lb = idle_balancer; round = none; threads = []; told = [] }

abbrev one_arrived : System (Unit {0})
one_arrived = record quiet { threads = arrived ∷ [] }

abbrev two_picked : System (Unit {0})
two_picked = record quiet { threads = picked 0 ∷ picked 0 ∷ [] }

abbrev checking : System (Unit {0})
checking = record one_arrived { round = some three }

-- A request is picked a server and counts itself while a round of checks finds every server alive.
abbrev mixed : List (Event least_connections)
mixed =
    arrives
    ∷ moves 0 input
    ∷ checks true
    ∷ moves 0 input
    ∷ checks true
    ∷ moves 0 input
    ∷ checks true
    ∷ checks true
    ∷ checks true
    ∷ []

run-Exact_example : ((run least_connections quiet mixed).lb.heap 0).connections ≡ 1
unfolding run step resume move check_next healthy check_server LeastConnections.select
    increment_conns
run-Exact_example =
    run-Exact least_connections quiet mixed
      (tt, (tt, (tt, (tt, (refl, (tt, (refl, (refl, (tt, tt))))))))) (λ q. refl) 0

-- The end of a round of checks, then the turns of a request with those of another.
abbrev ending : List (Event least_connections)
ending = checks true ∷ moves 0 input ∷ checks true ∷ checks true ∷ checks true ∷ []

abbrev turns_between : List (Event least_connections)
turns_between = arrives ∷ moves 0 input ∷ moves 1 input ∷ replicate 9 (moves 0 input)

run_serves_example :
    get_elem? (run least_connections checking (ending ++ turns_between)).threads 0 ≡ some finished
run_serves_example =
    run_serves least_connections checking ending turns_between 0 arrived refl refl
      (tt, (tt, (tt, (tt, (tt, (tt, (tt, (tt, (tt, (tt, (tt, (tt, tt)))))))))))) (omega arith)

-- Three accesses of the round, of the four that it has left.
abbrev pinging : List (Event least_connections)
pinging = checks true ∷ moves 0 input ∷ checks false ∷ arrives ∷ checks true ∷ moves 0 input ∷ []

run_waits_example : get_elem? (run least_connections checking pinging).threads 0 ≡ some arrived
run_waits_example = run_waits least_connections checking pinging 0 (omega arith) refl

frees_run :
    (run least_connections checking
      (checks true ∷ moves 0 input ∷ checks false ∷ checks true ∷ checks true ∷ [])).round
    ≡ none
frees_run =
    run_frees least_connections checking
      (checks true ∷ moves 0 input ∷ checks false ∷ checks true ∷ checks true ∷ []) refl

run-overtaken_example :
    ((run least_connections two_picked (overtaken input)).lb.heap 0).connections ≡ 2
run-overtaken_example = (run-overtaken least_connections input idle_balancer none 0 [] []).1

run_bounded_example :
    leb_ℤ
      (negsuc 0)
      (Resets.run (resting 2) (decrements ∷ resets ∷ proceeds ∷ proceeds ∷ [])).connections
    ≡ true
run_bounded_example = run_bounded 2 (decrements ∷ resets ∷ proceeds ∷ proceeds ∷ [])
