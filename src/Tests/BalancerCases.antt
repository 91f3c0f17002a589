-- ===== src/Tests/BalancerCases.antt =====
-- The balancer over the fleet of three servers.
use neura_balancer.Common.{
  ℕ, ◌+◌, ◌*◌, ◌≤◌, ◌<◌, count, ◌≡◌, inl, inr, refl, true, false, Bool, if◌then◌else◌, ◌==◌, none,
  List, [], ◌∷◌, length, In, pos, arith,
}
use neura_balancer.Common.Text.{Text, codes}
use neura_balancer.Balancer.{LoadBalancer, selected, healthy, choose, next_server}
use neura_balancer.Balancer.Health.{Attempt, answered, not_answered, ping_server, check_all_servers}
use neura_balancer.Balancer.Health.Checks.{pinged, check_all_servers_lem}
use neura_balancer.Balancer.Proxy
use neura_balancer.Balancer.Proxy.{Request, Forwarded, http_error, proxy_request}
use neura_balancer.Balancer.Proxy.Copy.{Body, Sink}
use neura_balancer.Balancer.Proxy.Outcomes.{served, proxy_request-served}
use neura_balancer.Balancer.Seed.{ServerTable}
use neura_balancer.Balancer.Selection.Balanced.{begin_all, begin_all_even}
use neura_balancer.Balancer.Selection.Alive.{ReturnsAlive, next_server-least_connections}
use neura_balancer.Balancer.Selection.StaleSlots.{next_server_returns_down}
use neura_balancer.Balancer.Sessions.{System, begins, Reach, here, next}
use neura_balancer.Factory.{round_robin, weighted_round_robin, least_connections}
use neura_balancer.Server.{Ref, Heap}
use neura_balancer.Strategies.LeastConnections.Minimal.{EarliestLeast}
use neura_balancer.Strategies.LeastConnections
use neura_balancer.Strategies.Pick.{index_mod}
use neura_balancer.Strategies.RoundRobin
use neura_balancer.Strategies.RoundRobin.{RoundRobin, new_round_robin}
use neura_balancer.Strategies.WeightedRoundRobin.{WeightedRoundRobin, build_slots, share}
use neura_balancer.Strategies.WeightedRoundRobin.Shares.{settled}
use neura_balancer.Tests.Fixtures.{backend, fleet, weighted, first_down, three}

abbrev pub balancer : LoadBalancer (Unit {0})
balancer = record { heap = fleet; servers = three; strategy = tt }

abbrev rotating : LoadBalancer RoundRobin
rotating = record { heap = first_down; servers = three; strategy = record { counter = 4 } }

next_server-least_connections_example :
    (r : Ref) × ((next_server least_connections balancer tt).1 ≡ selected r)
    × In r three
    × ((fleet r).alive ≡ true)
    × EarliestLeast fleet r (healthy fleet three)
unfolding healthy
next_server-least_connections_example = next_server-least_connections balancer (omega arith)

first_draw : (n : ℕ) → 0 < n → 0 < n
first_draw n p = p

-- The slots were built for servers 0 and 1; then server 0 went down and server 2 came up.
abbrev stale : LoadBalancer WeightedRoundRobin
stale = record { heap = first_down; servers = three; strategy = settled weighted (0 ∷ 1 ∷ []) 0 }

next_server_returns_down_example : ¬ ReturnsAlive weighted_round_robin stale tt
unfolding healthy build_slots share
next_server_returns_down_example =
    next_server_returns_down stale weighted (0 ∷ 1 ∷ []) 0 0 refl (omega arith) refl (omega arith)
      refl refl

-- The first healthy server is the second of the list.
second_is_next : (next_server round_robin rotating tt).1 ≡ selected 1
unfolding next_server healthy RoundRobin.select index_mod
second_is_next = refl

abbrev pub request : Request
request = record { method = codes "GET"; path = codes "/a"; uri = codes "/a?b=1"; headers = [] }

abbrev pub taking : Sink
taking i b = (length b, false)

abbrev taking_all : (i : ℕ) (b : Text) → taking i b ≡ (length b, false)
taking_all i b = refl

abbrev taking_le : (i : ℕ) (b : Text) → length b ≤ length b
taking_le i b = omega arith

abbrev pub unreachable : Text → Forwarded
unreachable url = Proxy.not_answered

proxy_request-served_example :
    (proxy_request round_robin rotating tt request taking unreachable).0.heap 1
    ≡ served (first_down 1) Proxy.not_answered
proxy_request-served_example =
    proxy_request-served round_robin rotating tt request taking unreachable 1 1 second_is_next

abbrev all_down : LoadBalancer (Unit {0})
all_down = record {
  heap = λ r. record (backend r 0) { alive = false };
  servers = three;
  strategy = tt;
}

abbrev body : Body
body = record { chunks = codes "ab" ∷ codes "cd" ∷ []; last = codes "e"; ending = codes "EOF" }

-- The second attempt of each ping is answered with 200.
abbrev second_try : Text → ℕ → Attempt
second_try url i = if i == 1 then answered 200 else not_answered

check_all_servers_lem_example :
    (check_all_servers balancer (pos 3) second_try).0.heap 1
    ≡ pinged (fleet 1) (ping_server (pos 3) second_try (fleet 1))
check_all_servers_lem_example = check_all_servers_lem balancer (pos 3) second_try 1 (inr (inl refl))

-- A database that knows no server.
abbrev pub no_table : ServerTable
no_table = record {
  Table = Unit {0};
  upsert_server = λ t url. t;
  get_server_id = λ t url. none;
  get_server_capacity = λ t id. none;
  get_server_weight = λ t id. none;
}

abbrev urls : List Text
urls = codes " http://a:1" ∷ codes " " ∷ codes "http://b:2" ∷ []

-- One request has begun.
abbrev idle_fleet : Heap
idle_fleet r = backend r 0

abbrev quiet : System (Unit {0})
quiet = record { lb = record { heap = idle_fleet; servers = three; strategy = tt }; pending = [] }

abbrev busy : System (Unit {0})
busy = record {
  lb = (choose least_connections quiet.lb tt (healthy idle_fleet three)).0;
  pending = 0 ∷ [];
}

idle_once : (r : Ref) → In r (healthy idle_fleet three) → count r (healthy idle_fleet three) ≡ 1
unfolding healthy
idle_once r i = ground arith

begin_all_even_example :
    (3 * ((begin_all 4 quiet.lb).heap 1).connections < 7)
    × (4 < 3 * (((begin_all 4 quiet.lb).heap 1).connections + 1))
unfolding healthy
begin_all_even_example = begin_all_even 4 quiet.lb 1 (λ r i. refl) idle_once (inr (inl refl))

begun : (Allowed : Heap → Ref → Bool → Type 0) → Reach least_connections Allowed quiet busy
unfolding healthy choose LeastConnections.select
begun Allowed = next here (begins idle_fleet tt 0 refl refl)
