-- ===== src/Api/Serving.antt =====
-- A request through the router of backend/internal/api: the middleware in their order around the
-- handler of its route. What echo and its own middleware do is an argument.
pub mod Admission
pub mod Identified
use neura_balancer.Common.{
  ℕ, Bool, true, false, if◌then◌else◌, Option, none, some, List, [], ◌∷◌, ◌++◌,
}
use neura_balancer.Common.Text.{Text}
use neura_balancer.Api as Api
use neura_balancer.Api.Context.{
  Context, Content, live, probe, server_list, bytes, Handled, finished, panics,
}
use neura_balancer.Api.Middleware as Middleware
use neura_balancer.Api.Middleware.{LogLevel, CorsConfig, cors_config, rate_limit}
use neura_balancer.Api.Router as Router
use neura_balancer.Api.Router.{Handler, Route, new_router}
use neura_balancer.Balancer.{Strategy, LoadBalancer, Effect}
use neura_balancer.Balancer.Proxy.{Request, Forwarded, Reply, replied, panicked, proxy_request}
use neura_balancer.Balancer.Proxy.Copy.{Sink}

-- What the CORS middleware does before the next handler: it lets a request pass, or answers a
-- preflight itself.
pub data Crossing : Type 0 where
  passes : Context → Crossing
  answers : Handled → Crossing

-- Echo, by what the source uses of it: the status of a new `Response`, `c.JSON`, the router and its
-- handler of unknown paths, CORS, tracing, the rate limiter with what it does to a request that it
-- refuses, the recovery by whether `LogErrorFunc` returned nil, the handler of errors, and the
-- endpoint of Prometheus.
pub record Echo : Type 0 where
  pub initial_status : ℕ
  pub json : ℕ → Content → Context → Context
  pub find : List Route → Request → Option Handler
  pub not_found : Context → Handled
  pub cors : CorsConfig → Context → Crossing
  pub traced : Handled → Handled
  pub admits : ℕ → Context → Bool
  pub refuse : Context → Handled
  pub recovered : Bool → Context → Handled
  pub on_error : Context → Context
  pub scrape : Context → Handled

-- What a request meets besides: the network, its client, the time, and a new identifier.
pub record Visit (strat : Strategy) : Type 0 where
  pub world : strat.World
  pub network : Text → Forwarded
  pub client : Sink
  pub now : ℕ
  pub fresh : Text

-- What a handler leaves: the balancer, what happened to the context, what the collector and the
-- database were told, and the log lines.
pub record Answer (S : Type 0) : Type 0 where
  pub lb : LoadBalancer S
  pub handled : Handled
  pub told : List Effect
  pub lines : List LogLevel

-- `ProxyHandler` hands the writer below `Response` to `ProxyRequest`, so the status of `Response`
-- stays, and returns nil. The headers are added to those that are there.
unfoldable pub proxied : Context → Reply → Handled
proxied c (replied status headers body) =
    finished (record c { headers = c.headers ++ headers; written = some (status, bytes body) })
      false
proxied c panicked = panics c

module _ (strat : Strategy) (echo : Echo) (visit : Visit strat)
    (lb : LoadBalancer strat.State) where
  -- An answer that leaves the balancer alone.
  abbrev pub quiet : Handled → Answer strat.State
  quiet h = record { lb = lb; handled = h; told = []; lines = [] }

  unfoldable pub handle : Handler → Context → Answer strat.State
  unfolding proxied
  handle Router.health_check c =
      let (status, body) = Api.health_check visit.now in
      quiet (finished (echo.json status (live body) c) false)
  handle Router.readiness_check c =
      let p = Api.readiness_check lb in quiet (finished (echo.json p.status (probe p) c) false)
  handle Router.prometheus c = quiet (echo.scrape c)
  handle Router.servers_status c =
      quiet (finished (echo.json 200 (server_list (Api.servers_status lb)) c) false)
  handle Router.proxy_handler c =
      let (lb', reply, told) =
        proxy_request strat lb visit.world c.request visit.client visit.network in
      record { lb = lb'; handled = proxied c reply; told = told; lines = [] }

  unfoldable pub dispatch : Option Handler → Context → Answer strat.State
  unfolding handle
  dispatch none c = quiet (echo.not_found c)
  dispatch (some h) c = handle h c

  -- `Recover`, whose `LogErrorFunc` logs and returns nil.
  unfoldable pub recover : Answer strat.State → Handled → Answer strat.State
  recover a (finished c has_failed) = a
  recover a (panics c) = record a {
    handled = echo.recovered true c;
    lines = a.lines ++ LogLevel.error ∷ [];
  }

  abbrev cross : (Context → Answer strat.State) → Crossing → Answer strat.State
  cross next (passes c) = next c
  cross next (answers h) = quiet h

  -- One middleware around the next handler.
  unfoldable pub wrap :
      Router.Middleware → (Context → Answer strat.State) → Context → Answer strat.State
  unfolding recover Middleware.structured_logger Middleware.request_id
  wrap Router.recover next c = let a = next c in recover a a.handled
  wrap Router.request_id next c = next (Middleware.request_id visit.fresh c)
  wrap Router.cors next c = cross next (echo.cors cors_config c)
  wrap Router.structured_logger next c =
      let a = next c in record a { lines = a.lines ++ Middleware.structured_logger a.handled }
  wrap Router.tracing next c = let a = next c in record a { handled = echo.traced a.handled }
  wrap Router.rate_limiter next c =
      if echo.admits rate_limit c then next c else quiet (echo.refuse c)

  unfoldable pub stack :
      List Router.Middleware → (Context → Answer strat.State) → Context → Answer strat.State
  unfolding wrap
  stack [] next c = next c
  stack (m ∷ ms) next c = wrap m (λ d. stack ms next d) c

  abbrev pub opened : Request → Context
  opened req = record { request = req; headers = []; status = echo.initial_status; written = none }

  -- Echo gives a returned error to its handler of errors; a panic that nothing recovers ends the
  -- connection.
  abbrev pub closed : Handled → Option Context
  closed (finished c true) = some (echo.on_error c)
  closed (finished c false) = some c
  closed (panics c) = none

  -- A request, from its arrival to the end of its answer.
  unfoldable pub serve : Request → Answer strat.State × Option Context
  unfolding stack dispatch new_router
  serve req =
      let a =
        stack new_router.middleware (λ c. dispatch (echo.find new_router.routes req) c)
          (opened req) in
      (a, closed a.handled)

-- What `net/http` sends of a context: status 200 and no body where nothing was written.
unfoldable pub sent : Context → ℕ × Content
sent c = elim c.written [ none ↦ (200, bytes []) | some reply ↦ reply ]
