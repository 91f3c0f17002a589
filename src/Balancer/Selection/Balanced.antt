-- ===== src/Balancer/Selection/Balanced.antt =====
-- Requests that least connections spreads over the healthy servers.
use neura_balancer.Common.{
  ℕ, zero, suc, ◌+◌, ◌*◌, ◌<◌, ◌≤◌, ◌≡◌, refl, ◌∙◌, List, length, In, count, subst, arith,
}
use neura_balancer.Balancer.{LoadBalancer, healthy, next_server}
use neura_balancer.Balancer.Selection.{next_server_selected}
use neura_balancer.Balancer.Selection.Alive.{next_server-least_connections, EarliestLeast-In}
use neura_balancer.Balancer.Sessions.{conns-increment}
use neura_balancer.Factory.{least_connections}
use neura_balancer.Server.{Ref, increment_conns}
use neura_balancer.Strategies.LeastConnections.Minimal.{EarliestLeast}
use neura_balancer.Balancer.Selection.Totals.{
  sum_conns, EarliestLeast-le, healthy-increment, sum_conns-increment, sum_conns-lt,
  sum_conns-above, sum_conns-idle, In-length,
}

-- Requests that begin one after the other.
unfoldable pub begin_all : ℕ → LoadBalancer (Unit {0}) → LoadBalancer (Unit {0})
begin_all zero lb = lb
begin_all (suc n) lb = begin_all n (next_server least_connections lb tt).0

-- The healthy servers are those of a list, with a number of open requests in all, and none has more
-- than one request above another.
abbrev IsEven : List Ref → ℕ → LoadBalancer (Unit {0}) → Type 0
IsEven alive n lb =
    (healthy lb.heap lb.servers ≡ alive)
    × (sum_conns lb.heap alive ≡ n)
    × ((q r : Ref)
        → In q alive
        → In r alive
        → (lb.heap q).connections ≤ (lb.heap r).connections + 1)

IsEven-increment :
    (alive : List Ref) (n : ℕ) (lb : LoadBalancer (Unit {0})) (r : Ref)
    → count r alive ≡ 1
    → ((q : Ref) → In q alive → (lb.heap r).connections ≤ (lb.heap q).connections)
    → IsEven alive n lb
    → IsEven alive (suc n) (record lb { heap = increment_conns lb.heap r })
IsEven-increment alive n lb r once least (same, sum, even) = (
  healthy-increment lb.heap r lb.servers ∙ same,
  sum_conns-increment lb.heap r alive ∙ omega (arith, sum, once),
  λ p q i j.
      ground
        (arith, conns-increment lb.heap r p, conns-increment lb.heap r q, even p q i j, least q j),
)

IsEven-next_server :
    (alive : List Ref) (n : ℕ) (lb : LoadBalancer (Unit {0}))
    → 0 < length alive
    → ((r : Ref) → In r alive → count r alive ≡ 1)
    → IsEven alive n lb
    → IsEven alive (suc n) (next_server least_connections lb tt).0
IsEven-next_server alive n lb p once (same, sum, even) =
    let (r, e, listed, up, least) = next_server-least_connections lb (rw same p) in
    let least' : EarliestLeast lb.heap r alive = rw same at least in
    rw ((next_server_selected least_connections lb tt r e).1) (
      IsEven-increment alive n lb r (once r (EarliestLeast-In lb.heap r alive least'))
        (λ q i. EarliestLeast-le lb.heap r alive q least' i) (same, sum, even))

IsEven-begin_all :
    (k : ℕ) (alive : List Ref) (n m : ℕ) (lb : LoadBalancer (Unit {0}))
    → n + k ≡ m
    → 0 < length alive
    → ((r : Ref) → In r alive → count r alive ≡ 1)
    → IsEven alive n lb
    → IsEven alive m (begin_all k lb)
unfolding begin_all
IsEven-begin_all zero alive n m lb e p once even =
    let same : n ≡ m = omega (arith, e) in subst (λ x. IsEven alive x lb) same even
IsEven-begin_all (suc k) alive n m lb e p once even =
    IsEven-begin_all k alive (suc n) m (next_server least_connections lb tt).0 (omega (arith, e)) p
      once (IsEven-next_server alive n lb p once even)

-- Least connections spreads requests evenly: after n requests that begin one after the other on
-- healthy servers with none open, m of them and each once in the list, every one of these has n / m
-- open requests, rounded down or up.
pub begin_all_even :
    (n : ℕ) (lb : LoadBalancer (Unit {0})) (q : Ref)
    → ((r : Ref) → In r (healthy lb.heap lb.servers) → (lb.heap r).connections ≡ 0)
    → ((r : Ref) → In r (healthy lb.heap lb.servers) → count r (healthy lb.heap lb.servers) ≡ 1)
    → In q (healthy lb.heap lb.servers)
    → let m = length (healthy lb.heap lb.servers) in
      let open_requests = ((begin_all n lb).heap q).connections in
      (m * open_requests < n + m) × (n < m * (open_requests + 1))
begin_all_even n lb q idle once i =
    let alive = healthy lb.heap lb.servers in
    let start : IsEven alive 0 lb =
      (refl, sum_conns-idle lb.heap alive idle, λ p r j k. omega (arith, idle p j, idle r k)) in
    let (same, sum, even) =
      IsEven-begin_all n alive 0 n lb (omega arith) (In-length q alive i) once start in
    let h = (begin_all n lb).heap in
    (
      omega (
        arith,
        sum,
        sum_conns-above h (h q).connections alive q (λ r j. even q r i j) i (omega arith),
      ),
      omega (
        arith,
        sum,
        sum_conns-lt h ((h q).connections + 1) alive q (λ r j. even r q j i) i (omega arith),
      ),
    )
