-- ===== src/Balancer/Proxy/Outcomes.antt =====
-- What a proxied request leaves behind, on each of its paths.
use neura_balancer.Common.{◌≡◌, ◌∙◌, ap, false, if◌then◌else◌, ◌==◌, [], ◌++◌, arith}
use neura_balancer.Common.Text.{Text, codes}
use neura_balancer.Balancer.{
  Strategy, LoadBalancer, selected, no_healthy_servers, healthy, choose, next_server,
  release_server,
}
use neura_balancer.Balancer.Health.{mark_server_down}
use neura_balancer.Balancer.Proxy.{
  Request, Forwarded, not_created, not_answered, answered, http_error, finish, proxy_next,
  proxy_request,
}
use neura_balancer.Balancer.Proxy.Copy.{Sink}
use neura_balancer.Balancer.Selection.{next_server_selected}
use neura_balancer.Server.{Server, Ref, Heap, increment_conns, decrement_conns}

-- The server that a request leaves: down if the exchange failed, and else as it was.
abbrev pub served : Server → Forwarded → Server
served s not_created = s
served s not_answered = record s { alive = false }
served s (answered resp) = s

url-increment_conns : (h : Heap) (r : Ref) → (increment_conns h r r).url ≡ (h r).url
unfolding increment_conns
url-increment_conns h r = ground arith

finish-served :
    {S : Type 0} (lb : LoadBalancer S) (h : Heap) (r q : Ref) (req : Request) (client : Sink)
    (fwd : Forwarded)
    → lb.heap ≡ increment_conns h r
    → (finish lb r req client fwd).0.heap q ≡ (if q == r then served (h r) fwd else h q)
unfolding finish release_server increment_conns decrement_conns mark_server_down
finish-served lb h r q req client not_created e = rw e (ground arith)
finish-served lb h r q req client not_answered e = rw e (ground arith)
finish-served lb h r q req client (answered resp) e = rw e (ground arith)

-- A request that gets a server leaves every count of connections as it was, in an undisturbed run;
-- its server is marked down exactly on the path where no response came, and no other server changes.
pub proxy_request-served :
    (strat : Strategy) (lb : LoadBalancer strat.State) (world : strat.World) (req : Request)
    (client : Sink) (network : Text → Forwarded) (r q : Ref)
    → (next_server strat lb world).1 ≡ selected r
    → (proxy_request strat lb world req client network).0.heap q
      ≡ (if q == r then served (lb.heap r) (network ((lb.heap r).url ++ req.uri)) else lb.heap q)
unfolding proxy_request
proxy_request-served strat lb world req client network r q e =
    let grown = ap (λ b. b.heap) (next_server_selected strat lb world r e).1 in
    let same = url-increment_conns lb.heap r in
    rw (e, proxy_next)
      (finish-served (next_server strat lb world).0 lb.heap r q req client _ grown
        ∙ rw (grown, same))

next_server_empty :
    (strat : Strategy) (lb : LoadBalancer strat.State) (world : strat.World)
    → healthy lb.heap lb.servers ≡ []
    → next_server strat lb world ≡ (lb, no_healthy_servers, [])
unfolding next_server
next_server_empty strat lb world e = rw (e, choose)

-- With no server alive the client gets 503; nothing is forwarded, and neither the balancer, the
-- collector nor the database learns of the request.
pub proxy_request_refused :
    (strat : Strategy) (lb : LoadBalancer strat.State) (world : strat.World) (req : Request)
    (client : Sink) (network : Text → Forwarded)
    → healthy lb.heap lb.servers ≡ []
    → proxy_request strat lb world req client network
      ≡ (lb, http_error (codes "service unavailable") 503, [])
unfolding proxy_request proxy_next
proxy_request_refused strat lb world req client network e = rw (next_server_empty strat lb world e)
