-- ===== src/Api/Serving/Admission.antt =====
-- Which requests the middleware lets through to a handler, and what becomes of them.
use neura_balancer.Common.{
  ◌≡◌, refl, ap, ◌∙◌, Bool, true, false, if◌then◌else◌, Option, none, some, List, [], ◌∷◌, ◌++◌,
}
use neura_balancer.Api.Context.{Context, bytes, Handled, finished, panics}
use neura_balancer.Api.Middleware.{
  LogLevel, error, request_level, request_id, structured_logger, cors_config, rate_limit,
}
use neura_balancer.Api.Router as Router
use neura_balancer.Api.Router.{new_router}
use neura_balancer.Api.Serving.{
  Crossing, passes, answers, cross, Echo, Visit, Answer, proxied, handle, dispatch, recover, wrap,
  stack, opened, closed, serve,
}
use neura_balancer.Balancer.{Strategy, LoadBalancer, Effect}
use neura_balancer.Balancer.Proxy.{Request, Reply, replied, panicked, proxy_request}

-- The context with which a request reaches its handler: CORS passes it and the limiter admits it.
abbrev let_in : Echo → Crossing → Option Context
let_in echo (passes c) = if echo.admits rate_limit c then some c else none
let_in echo (answers h) = none

abbrev pub admitted : {strat : Strategy} → Echo → Visit strat → Request → Option Context
admitted echo visit req = let_in echo (
    echo.cors cors_config (
      request_id visit.fresh
        (record { request = req; headers = []; status = echo.initial_status; written = none })))

-- What is seen of a proxied request by the reply of the balancer: the context at its end, and the log
-- lines.
abbrev pub seen : Context → Reply → Context × List LogLevel
seen c (replied status headers body) = (
  record c { headers = c.headers ++ headers; written = some (status, bytes body) },
  request_level false c.status ∷ [],
)
seen c panicked = (c, error ∷ [])

when_some :
    (b : Bool) (d c : Context) → (if b then some d else none) ≡ some c → (b ≡ true) × (d ≡ c)
when_some true d c h = (refl, cc)
when_some false d c h = cc

when_none : (b : Bool) (d : Context) → (if b then some d else none) ≡ none → b ≡ false
when_none true d h = cc
when_none false d h = refl

module _ (strat : Strategy) (echo : Echo) (visit : Visit strat)
    (lb : LoadBalancer strat.State) where
  abbrev LeavesAlone : Answer strat.State → Type 0
  LeavesAlone a = (a.lb ≡ lb) × (a.told ≡ [])

  recover-LeavesAlone :
      (a : Answer strat.State) (h : Handled)
      → LeavesAlone a
      → LeavesAlone (recover strat echo visit lb a h)
  unfolding recover
  recover-LeavesAlone a (finished c has_failed) alone = alone
  recover-LeavesAlone a (panics c) alone = alone

  -- The middleware from CORS on.
  abbrev inner : (Context → Answer strat.State) → Crossing → Answer strat.State
  inner next k =
      cross strat echo visit lb
        (λ c.
          stack strat echo visit lb
            (Router.structured_logger ∷ Router.tracing ∷ Router.rate_limiter ∷ []) next c)
        k

  abbrev crossing : Request → Crossing
  crossing req = echo.cors cors_config (request_id visit.fresh (opened strat echo visit lb req))

  abbrev dispatched : Request → Context → Answer strat.State
  dispatched req c = dispatch strat echo visit lb (echo.find new_router.routes req) c

  abbrev ended : Answer strat.State → Answer strat.State × Option Context
  ended a =
      let b = recover strat echo visit lb a a.handled in (b, closed strat echo visit lb b.handled)

  serve-inner :
      (req : Request)
      → serve strat echo visit lb req ≡ ended (inner (dispatched req) (crossing req))
  unfolding serve stack wrap new_router
  serve-inner req = refl

  inner-LeavesAlone :
      (next : Context → Answer strat.State) (k : Crossing)
      → let_in echo k ≡ none
      → LeavesAlone (inner next k)
  unfolding stack wrap
  inner-LeavesAlone next (answers h) out = (refl, refl)
  inner-LeavesAlone next (passes c) out =
      let refuses : echo.admits rate_limit c ≡ false = when_none (echo.admits rate_limit c) c out in
      rw refuses (refl, refl)

  -- A request that CORS answers itself, or that the rate limiter refuses, reaches no server: the
  -- balancer is left alone, and the collector and the database are told nothing.
  pub serve_refused :
      (req : Request)
      → admitted echo visit req ≡ none
      → let a = (serve strat echo visit lb req).0 in (a.lb ≡ lb) × (a.told ≡ [])
  serve_refused req out =
      let a = inner (dispatched req) (crossing req) in
      rw (serve-inner req)
        (recover-LeavesAlone a a.handled (inner-LeavesAlone (dispatched req) (crossing req) out))

  traced_proxied :
      (c : Context) (reply : Reply)
      → ((d : Context) → echo.traced (finished d false) ≡ finished d false)
      → ((d : Context) → echo.traced (panics d) ≡ panics d)
      → echo.traced (proxied c reply) ≡ proxied c reply
  unfolding proxied
  traced_proxied c (replied status headers body) plain aborts = plain _
  traced_proxied c panicked plain aborts = aborts c

  inner-proxied :
      (k : Crossing) (c : Context)
      → let_in echo k ≡ some c
      → ((d : Context) → echo.traced (finished d false) ≡ finished d false)
      → ((d : Context) → echo.traced (panics d) ≡ panics d)
      → let (lb', reply, told) =
          proxy_request strat lb visit.world c.request visit.client visit.network in
        let h = proxied c reply in
        inner (λ d. dispatch strat echo visit lb (some Router.proxy_handler) d) k
        ≡ record { lb = lb'; handled = h; told = told; lines = structured_logger h }
  unfolding stack wrap dispatch handle
  inner-proxied (answers h) c go plain aborts = cc
  inner-proxied (passes d) c go plain aborts =
      let (admits, same) = when_some (echo.admits rate_limit d) d c go in
      let out = proxy_request strat lb visit.world c.request visit.client visit.network in
      rw (admits, same, traced_proxied c out.1 plain aborts) refl

  ended_seen :
      (lb' : LoadBalancer strat.State) (told : List Effect) (c : Context) (reply : Reply)
      → ((d : Context) → echo.recovered true d ≡ finished d false)
      → let h = proxied c reply in
        let (end, lines) = seen c reply in
        ended (record { lb = lb'; handled = h; told = told; lines = structured_logger h })
        ≡ (record { lb = lb'; handled = finished end false; told = told; lines = lines }, some end)
  unfolding recover structured_logger proxied
  ended_seen lb' told c (replied status headers body) quietly = refl
  ended_seen lb' told c panicked quietly = rw (quietly c) refl

  -- A proxied request that is admitted changes the balancer as `proxy_request` says. The client gets
  -- the status and the body of the balancer's reply, with its headers after those of the middleware,
  -- and the log line has the level of the status in echo's response, whatever the status of the
  -- reply; after a panic of the strategy the client gets what the response had before. Tracing must
  -- pass on what a handler did that returns no error, and a panic, and echo must, as documented, end
  -- with no error where the function that logs a panic returns nil.
  pub serve_proxied_lem :
      (req : Request) (c : Context)
      → admitted echo visit req ≡ some c
      → echo.find new_router.routes req ≡ some Router.proxy_handler
      → ((d : Context) → echo.traced (finished d false) ≡ finished d false)
      → ((d : Context) → echo.traced (panics d) ≡ panics d)
      → ((d : Context) → echo.recovered true d ≡ finished d false)
      → let (lb', reply, told) =
          proxy_request strat lb visit.world c.request visit.client visit.network in
        let (end, lines) = seen c reply in
        serve strat echo visit lb req
        ≡ (record { lb = lb'; handled = finished end false; told = told; lines = lines }, some end)
  serve_proxied_lem req c go route plain aborts quietly =
      let out = proxy_request strat lb visit.world c.request visit.client visit.network in
      serve-inner req
      ∙ ap (λ o. ended (inner (λ d. dispatch strat echo visit lb o d) (crossing req))) route
      ∙ ap ended (inner-proxied (crossing req) c go plain aborts)
      ∙ ended_seen out.0 out.2 c out.1 quietly
