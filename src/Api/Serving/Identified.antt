-- ===== src/Api/Serving/Identified.antt =====
-- The identifier of a request in its answer.
use neura_balancer.Common.{
  ℕ, ◌≡◌, ◌≢◌, refl, sym, ap, ◌∙◌, Bool, Bool-cases, inl, inr, true, false, Option, none, some, [],
  ◌∷◌, ◌++◌,
}
use neura_balancer.Common.Text.{Text, text_eq, text_eq_refl}
use neura_balancer.Api.Context.{
  Context, Content, Headers, header_get, header_set, x_request_id, Handled, finished, panics,
  context_of,
}
use neura_balancer.Api.Middleware.{or_fresh, request_id, CorsConfig, rate_limit, cors_config}
use neura_balancer.Api.Router as Router
use neura_balancer.Api.Router.{Handler, new_router}
use neura_balancer.Api.Serving.{
  Crossing, passes, answers, Echo, Visit, Answer, proxied, handle, dispatch, recover, wrap, stack,
  cross, opened, closed, serve,
}
use neura_balancer.Balancer.{Strategy, LoadBalancer}
use neura_balancer.Balancer.Proxy.{Request, Reply, replied, panicked, proxy_request}

get-append :
    (key : Text) (hs more : Headers) {b : ℕ} {bs : Text}
    → header_get key hs ≡ b ∷ bs
    → header_get key (hs ++ more) ≡ b ∷ bs
unfolding header_get
get-append key [] more h = cc
get-append key ((k, v) ∷ hs) more h = elim (Bool-cases (text_eq k key)) [
  | inl same ↦ rw same (sym (rw same refl) ∙ h)
  | inr apart ↦ rw apart (get-append key hs more (sym (rw apart refl) ∙ h))
]

get_first : (key v : Text) (hs : Headers) → header_get key (header_set key v hs) ≡ v
unfolding header_get header_set
get_first key v hs = rw (text_eq_refl key) refl

-- The identifier in the headers of a response.
abbrev pub id_of : Context → Text
id_of c = header_get x_request_id c.headers

abbrev crossed : Crossing → Context
crossed (passes c) = c
crossed (answers h) = context_of h

-- Echo and its middleware leave the identifier that is set on a response, and the recovery ends with
-- no error where the function that logs a panic returns nil.
pub record KeepsIds (echo : Echo) : Type 0 where
  pub json : (n : ℕ) (b : Content) (c : Context) → id_of (echo.json n b c) ≡ id_of c
  pub not_found : (c : Context) → id_of (context_of (echo.not_found c)) ≡ id_of c
  pub cors : (config : CorsConfig) (c : Context) → id_of (crossed (echo.cors config c)) ≡ id_of c
  pub traced : (h : Handled) → id_of (context_of (echo.traced h)) ≡ id_of (context_of h)
  pub refuse : (c : Context) → id_of (context_of (echo.refuse c)) ≡ id_of c
  pub recovered : (c : Context) → echo.recovered true c ≡ finished c false
  pub on_error : (c : Context) → id_of (echo.on_error c) ≡ id_of c
  pub scrape : (c : Context) → id_of (context_of (echo.scrape c)) ≡ id_of c

module _ (strat : Strategy) (echo : Echo) (keeps : KeepsIds echo) (visit : Visit strat)
    (lb : LoadBalancer strat.State) (b : ℕ) (bs : Text) where
  -- A handler that leaves the identifier.
  abbrev Passes : (Context → Answer strat.State) → Type 0
  Passes next = (c : Context) → id_of c ≡ b ∷ bs → id_of (context_of (next c).handled) ≡ b ∷ bs

  proxied-id :
      (c : Context) (reply : Reply)
      → id_of c ≡ b ∷ bs
      → id_of (context_of (proxied c reply)) ≡ b ∷ bs
  unfolding proxied
  proxied-id c (replied status headers body) h = get-append x_request_id c.headers headers h
  proxied-id c panicked h = h

  dispatch-Passes : (o : Option Handler) → Passes (dispatch strat echo visit lb o)
  unfolding dispatch handle
  dispatch-Passes none c h = keeps.not_found c ∙ h
  dispatch-Passes (some Router.health_check) c h = keeps.json _ _ c ∙ h
  dispatch-Passes (some Router.readiness_check) c h = keeps.json _ _ c ∙ h
  dispatch-Passes (some Router.prometheus) c h = keeps.scrape c ∙ h
  dispatch-Passes (some Router.servers_status) c h = keeps.json _ _ c ∙ h
  dispatch-Passes (some Router.proxy_handler) c h =
      proxied-id c (proxy_request strat lb visit.world c.request visit.client visit.network).1 h

  recover-id :
      (a : Answer strat.State) (h : Handled)
      → id_of (context_of a.handled) ≡ b ∷ bs
      → a.handled ≡ h
      → (c : Context) × (has_failed : Bool) × ((recover strat echo visit lb a h).handled
          ≡ finished c has_failed)
        × (id_of c ≡ b ∷ bs)
  unfolding recover
  recover-id a (finished c has_failed) same e =
      (c, has_failed, e, sym (ap (λ h. id_of (context_of h)) e) ∙ same)
  recover-id a (panics c) same e =
      (c, false, keeps.recovered c, sym (ap (λ h. id_of (context_of h)) e) ∙ same)

  limiter-Passes :
      (next : Context → Answer strat.State)
      → Passes next
      → Passes (wrap strat echo visit lb Router.rate_limiter next)
  unfolding wrap
  limiter-Passes next through c h = elim (Bool-cases (echo.admits rate_limit c)) [
    | inl admits ↦ rw admits (through c h)
    | inr refuses ↦ rw refuses (keeps.refuse c ∙ h)
  ]

  cross-id :
      (next : Context → Answer strat.State) (k : Crossing)
      → Passes next
      → id_of (crossed k) ≡ b ∷ bs
      → id_of (context_of (cross strat echo visit lb next k).handled) ≡ b ∷ bs
  cross-id next (passes c) through h = through c h
  cross-id next (answers r) through h = h

  -- The middleware inside of CORS, around any handler.
  inner-Passes :
      (next : Context → Answer strat.State)
      → Passes next
      → Passes (
          stack strat echo visit lb
            (Router.structured_logger ∷ Router.tracing ∷ Router.rate_limiter ∷ [])
            next)
  unfolding stack wrap
  inner-Passes next through c h =
      keeps.traced (wrap strat echo visit lb Router.rate_limiter next c).handled
      ∙ limiter-Passes next through c h

  -- What the recovery leaves, after echo's handler of errors.
  closed-id :
      (a : Answer strat.State)
      → id_of (context_of a.handled) ≡ b ∷ bs
      → (c : Context) × (closed strat echo visit lb
            (recover strat echo visit lb a a.handled).handled
          ≡ some c)
        × (id_of c ≡ b ∷ bs)
  closed-id a h =
      let (c, has_failed, e, same) = recover-id a a.handled h refl in
      rw e (closing has_failed c same)
    where
      closing :
          (has_failed : Bool) (c : Context)
          → id_of c ≡ b ∷ bs
          → (d : Context) × (closed strat echo visit lb (finished c has_failed) ≡ some d)
            × (id_of d ≡ b ∷ bs)
      closing true c same = (echo.on_error c, refl, keeps.on_error c ∙ same)
      closing false c same = (c, refl, same)

  start-id :
      (req : Request)
      → id_of (request_id visit.fresh (opened strat echo visit lb req))
        ≡ or_fresh (header_get x_request_id req.headers) visit.fresh
  unfolding request_id
  start-id req =
      get_first x_request_id (or_fresh (header_get x_request_id req.headers) visit.fresh) []

  serve-id :
      (req : Request)
      → or_fresh (header_get x_request_id req.headers) visit.fresh ≡ b ∷ bs
      → (c : Context) × ((serve strat echo visit lb req).1 ≡ some c) × (id_of c ≡ b ∷ bs)
  unfolding serve stack wrap new_router
  serve-id req e =
      let next = dispatch strat echo visit lb (echo.find new_router.routes req) in
      let start = request_id visit.fresh (opened strat echo visit lb req) in
      let set : id_of start ≡ b ∷ bs = start-id req ∙ e in
      closed-id _ (
        cross-id _ (echo.cors cors_config start) (inner-Passes next (dispatch-Passes _))
          (keeps.cors cors_config start ∙ set))

or_fresh_some :
    (sent fresh : Text) → fresh ≢ [] → (b : ℕ) × (bs : Text) × (or_fresh sent fresh ≡ b ∷ bs)
or_fresh_some [] [] new = absurd (new refl)
or_fresh_some [] (b ∷ bs) new = (b, bs, refl)
or_fresh_some (b ∷ bs) fresh new = (b, bs, refl)

-- Every request is answered, a panic of its handler, a refusal and an unknown path included, and the
-- answer carries the identifier that the client has sent, or else the new one, which must not be
-- empty. Echo and its middleware must leave an identifier that is set on a response.
pub serve_identified :
    (strat : Strategy) (echo : Echo) (visit : Visit strat) (lb : LoadBalancer strat.State)
    (req : Request)
    → KeepsIds echo
    → visit.fresh ≢ []
    → (c : Context) × ((serve strat echo visit lb req).1 ≡ some c)
      × (id_of c ≡ or_fresh (header_get x_request_id req.headers) visit.fresh)
serve_identified strat echo visit lb req keeps new =
    let (b, bs, e) = or_fresh_some (header_get x_request_id req.headers) visit.fresh new in
    let (c, answered, same) = serve-id strat echo keeps visit lb b bs req e in
    (c, answered, same ∙ sym e)
