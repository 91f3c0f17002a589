-- ===== src/Tests/ServingCases.antt =====
-- Requests through the router: a proxied one, and the probe of a client with an identifier.
use neura_balancer.Common.{◌≡◌, refl, true, false, if◌then◌else◌, some, none, [], ◌∷◌}
use neura_balancer.Common.Text.{codes, text_eq}
use neura_balancer.Api.Context.{Context, header_get, x_request_id, finished, bytes}
use neura_balancer.Api.Middleware.{request_id}
use neura_balancer.Api.Router as Router
use neura_balancer.Api.Serving.{Echo, Visit, passes, serve}
use neura_balancer.Api.Serving.Admission.{serve_proxied_lem, seen}
use neura_balancer.Api.Serving.Identified.{KeepsIds, id_of, serve_identified}
use neura_balancer.Balancer.Proxy.{Request, proxy_request}
use neura_balancer.Factory.{least_connections}
use neura_balancer.Tests.BalancerCases as Fleet

-- Echo without its bodies of errors, with a limiter that admits everything.
abbrev echo : Echo
echo = record {
  initial_status = 200;
  json = λ n b c. record c { status = n; written = some (n, b) };
  find = λ routes req.
      if text_eq req.path (codes "/health/ready")
      then some Router.readiness_check
      else some Router.proxy_handler;
  not_found = λ c. finished c true;
  cors = λ config c. passes c;
  traced = λ h. h;
  admits = λ n c. true;
  refuse = λ c. finished (record c { status = 429; written = some (429, bytes []) }) false;
  recovered = λ quiet c. finished c false;
  on_error = λ c. c;
  scrape = λ c. finished c false;
}

abbrev visit : Visit least_connections
visit = record {
  world = tt;
  network = Fleet.unreachable;
  client = Fleet.taking;
  now = 5;
  fresh = codes "5f0c";
}

abbrev probe_request : Request
probe_request = record {
  method = codes "GET";
  path = codes "/health/ready";
  uri = codes "/health/ready";
  headers = (x_request_id, codes "probe-7") ∷ [];
}

abbrev start : Context
start = record { request = Fleet.request; headers = []; status = 200; written = none }

serve_proxied_lem_example :
    let c = request_id visit.fresh start in
    let (lb', reply, told) =
      proxy_request least_connections Fleet.balancer tt c.request Fleet.taking Fleet.unreachable in
    let (end, lines) = seen c reply in
    serve least_connections echo visit Fleet.balancer Fleet.request
    ≡ (record { lb = lb'; handled = finished end false; told = told; lines = lines }, some end)
unfolding text_eq
serve_proxied_lem_example =
    serve_proxied_lem least_connections echo visit Fleet.balancer Fleet.request
      (request_id visit.fresh start) refl refl (λ d. refl) (λ d. refl) (λ d. refl)

keeps : KeepsIds echo
keeps = record {
  json = λ n b c. refl;
  not_found = λ c. refl;
  cors = λ config c. refl;
  traced = λ h. refl;
  refuse = λ c. refl;
  recovered = λ c. refl;
  on_error = λ c. refl;
  scrape = λ c. refl;
}

serve_identified_example :
    (c : Context) × ((serve least_connections echo visit Fleet.balancer probe_request).1 ≡ some c)
    × (id_of c ≡ codes "probe-7")
unfolding text_eq header_get
serve_identified_example =
    serve_identified least_connections echo visit Fleet.balancer probe_request keeps (λ e. cc)
