-- ===== src/Balancer/Selection/Alive.antt =====
-- Round robin, least connections and random: with a healthy server in the list, `NextServer` returns
-- one that is alive.
use neura_balancer.Common.{ℕ, ◌^◌, ◌<◌, ◌≡◌, true, inl, inr, List, [], ◌∷◌, length, In}
use neura_balancer.Balancer.{Strategy, LoadBalancer, selected, healthy, accept, choose, next_server}
use neura_balancer.Balancer.Selection.{healthy-In}
use neura_balancer.Factory.{round_robin, least_connections, random}
use neura_balancer.Server.{Ref, Heap}
use neura_balancer.Strategies.LeastConnections.Minimal.{select_least, EarliestLeast}
use neura_balancer.Strategies.Pick.{server}
use neura_balancer.Strategies.Random.{select-In}
use neura_balancer.Strategies.RoundRobin.{RoundRobin}
use neura_balancer.Strategies.RoundRobin.Fairness.{select_total}

choose_picks :
    (strat : Strategy) (lb : LoadBalancer strat.State) (world : strat.World) (alive : List Ref)
    (r : Ref)
    → 0 < length alive
    → (strat.select lb.strategy world lb.heap alive).1 ≡ server r
    → (choose strat lb world alive).1 ≡ selected r
unfolding choose
choose_picks strat lb world [] r p e = elim p [ ]
choose_picks strat lb world (q ∷ qs) r p e = rw (e, accept)

-- With a healthy server, the pick of the strategy is what `NextServer` returns.
pub next_server_picks :
    (strat : Strategy) (lb : LoadBalancer strat.State) (world : strat.World) (r : Ref)
    → 0 < length (healthy lb.heap lb.servers)
    → (strat.select lb.strategy world lb.heap (healthy lb.heap lb.servers)).1 ≡ server r
    → (next_server strat lb world).1 ≡ selected r
unfolding next_server
next_server_picks strat lb world r p e =
    choose_picks strat lb world (healthy lb.heap lb.servers) r p e

-- `NextServer` returns a server of the list that is alive.
abbrev pub ReturnsAlive : (strat : Strategy) → LoadBalancer strat.State → strat.World → Type 0
ReturnsAlive strat lb world =
    (r : Ref) × ((next_server strat lb world).1 ≡ selected r)
    × In r lb.servers
    × ((lb.heap r).alive ≡ true)

returns_alive :
    (strat : Strategy) (lb : LoadBalancer strat.State) (world : strat.World) (r : Ref)
    → 0 < length (healthy lb.heap lb.servers)
    → (strat.select lb.strategy world lb.heap (healthy lb.heap lb.servers)).1 ≡ server r
    → In r (healthy lb.heap lb.servers)
    → ReturnsAlive strat lb world
returns_alive strat lb world r p e i =
    let (j, a) = healthy-In lb.heap r lb.servers i in
    (r, next_server_picks strat lb world r p e, j, a)

-- Round robin, while its counter is below 2^63.
pub next_server-round_robin :
    (lb : LoadBalancer RoundRobin)
    → 0 < length (healthy lb.heap lb.servers)
    → lb.strategy.counter < 2 ^ 63
    → ReturnsAlive round_robin lb tt
next_server-round_robin lb p small =
    let (r, e, i) = select_total lb.strategy (healthy lb.heap lb.servers) p small in
    returns_alive round_robin lb tt r p e i

pub EarliestLeast-In :
    (h : Heap) (r : Ref) (servers : List Ref) → EarliestLeast h r servers → In r servers
EarliestLeast-In h r [] l = elim l [ ]
EarliestLeast-In h r (q ∷ qs) (inl l) = inl l.0
EarliestLeast-In h r (q ∷ qs) (inr l) = inr (EarliestLeast-In h r qs l.1)

-- Least connections, which returns the earliest healthy server with the fewest open requests.
pub next_server-least_connections :
    (lb : LoadBalancer (Unit {0}))
    → 0 < length (healthy lb.heap lb.servers)
    → (r : Ref) × ((next_server least_connections lb tt).1 ≡ selected r)
      × In r lb.servers
      × ((lb.heap r).alive ≡ true)
      × EarliestLeast lb.heap r (healthy lb.heap lb.servers)
next_server-least_connections lb p =
    let (r, e, least) = select_least lb.heap (healthy lb.heap lb.servers) p in
    let i = EarliestLeast-In lb.heap r (healthy lb.heap lb.servers) least in
    let (j, a) = healthy-In lb.heap r lb.servers i in
    (r, next_server_picks least_connections lb tt r p e, j, a, least)

-- Random, if each draw is below its argument.
pub next_server-random :
    (lb : LoadBalancer (Unit {0})) (intn : ℕ → ℕ)
    → 0 < length (healthy lb.heap lb.servers)
    → ((n : ℕ) → 0 < n → intn n < n)
    → ReturnsAlive random lb intn
next_server-random lb intn p law =
    let (r, e, i) = select-In intn (healthy lb.heap lb.servers) law p in
    returns_alive random lb intn r p e i
