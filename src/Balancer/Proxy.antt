-- ===== src/Balancer/Proxy.antt =====
-- `ProxyRequest` of backend/internal/loadbalancer/balancer.go. What `http.DefaultClient` does with
-- the forwarded request, and how the client takes the bytes of the reply, are arguments.
pub mod Outcomes
pub mod Copy
use neura_balancer.Common.{
  ℕ, Bool, true, false, Option, none, some, if◌then◌else◌, List, [], ◌∷◌, ◌++◌, ltb,
}
use neura_balancer.Common.Text.{Text, codes}
use neura_balancer.Balancer.{
  Strategy, LoadBalancer, Next, selected, no_healthy_servers, strategy_returned_nil,
  strategy_panicked, Effect, record_request, next_server, release_server,
}
use neura_balancer.Balancer.Health.{mark_server_down}
use neura_balancer.Balancer.Proxy.Copy.{Body, Sink, copy_response}
use neura_balancer.Server.{Ref}

-- `uri` is `r.URL.RequestURI()`.
pub record Request : Type 0 where
  pub method : Text
  pub path : Text
  pub uri : Text
  pub headers : List (Text × Text)

pub record Response : Type 0 where
  pub status : ℕ
  pub headers : List (Text × Text)
  pub body : Body

-- `http.NewRequestWithContext` and `http.DefaultClient.Do`: no request, no response, or a response.
pub data Forwarded : Type 0 where
  not_created : Forwarded
  not_answered : Forwarded
  answered : Response → Forwarded

-- What the client of the balancer gets. A panic of the strategy leaves it to the recovery
-- middleware.
pub data Reply : Type 0 where
  replied : ℕ → List (Text × Text) → Text → Reply
  panicked : Reply

-- The headers that `http.Error` sets.
abbrev pub error_headers : List (Text × Text)
error_headers =
    (codes "Content-Type", codes "text/plain; charset=utf-8")
    ∷ (codes "X-Content-Type-Options", codes "nosniff")
    ∷ []

-- `http.Error`, which ends its text with a new line.
abbrev pub http_error : Text → ℕ → Reply
http_error text status = replied status error_headers (text ++ 10 ∷ [])

-- From the forwarded request to the return, without the deferred release.
unfoldable pub forward :
    {S : Type 0}
    → LoadBalancer S
    → Ref
    → Request
    → Sink
    → Forwarded
    → LoadBalancer S × Reply × List Effect
forward lb r req client not_created = (lb, http_error (codes "bad gateway") 502, [])
forward lb r req client not_answered =
    let record_call = record_request (lb.heap r).id req.method req.path 502 false in
    let (lb', told) = mark_server_down lb r in
    (lb', http_error (codes "bad gateway") 502, record_call ∷ told)
forward lb r req client (answered resp) =
    let success = ltb resp.status 500 in
    (
      lb,
      replied resp.status resp.headers (copy_response client resp.body).0.delivered,
      record_request (lb.heap r).id req.method req.path resp.status success ∷ [],
    )

-- `defer lb.ReleaseServer(server)`
unfoldable pub finish :
    {S : Type 0}
    → LoadBalancer S
    → Ref
    → Request
    → Sink
    → Forwarded
    → LoadBalancer S × Reply × List Effect
unfolding forward
finish lb r req client fwd =
    let (lb₁, reply, told) = forward lb r req client fwd in
    let (lb₂, released) = release_server lb₁ r in (lb₂, reply, told ++ released)

unfoldable pub proxy_next :
    {S : Type 0}
    → LoadBalancer S
    → Request
    → Sink
    → (Text → Forwarded)
    → Next
    → List Effect
    → LoadBalancer S × Reply × List Effect
unfolding finish
proxy_next lb req client network (selected r) told =
    let (lb', reply, rest) = finish lb r req client (network ((lb.heap r).url ++ req.uri)) in
    (lb', reply, told ++ rest)
proxy_next lb req client network no_healthy_servers told =
    (lb, http_error (codes "service unavailable") 503, told)
proxy_next lb req client network strategy_returned_nil told =
    (lb, http_error (codes "service unavailable") 503, told)
proxy_next lb req client network strategy_panicked told = (lb, panicked, told)

unfoldable pub proxy_request :
    (strat : Strategy)
    → LoadBalancer strat.State
    → strat.World
    → Request
    → Sink
    → (Text → Forwarded)
    → LoadBalancer strat.State × Reply × List Effect
unfolding proxy_next
proxy_request strat lb world req client network =
    let (lb', next, told) = next_server strat lb world in
    proxy_next lb' req client network next told
