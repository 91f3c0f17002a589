-- ===== src/Balancer/Gauges.antt =====
-- The gauge of open requests that the collector shows, against the counters of the servers: the
-- effects of the balancer's operations are carried out on the collector.
pub mod Follow
pub mod Watching
pub mod Steps
pub mod Histories
pub mod Picking
use neura_balancer.Common.{
  ◌≡◌, ◌≢◌, refl, sym, ap, ◌∙◌, Bool-cases, true, false, ltb, ◌==◌, ==_iff, inl, inr, List, [], ◌∷◌,
  ◌++◌, In, int_eq, int_eq_refl,
}
use neura_balancer.Balancer.{
  Strategy, LoadBalancer, Effect, ml_call, set_active_connections, record_request,
  update_server_status, effects_of, active_connections, accept, choose, next_server, release_server,
  healthy,
}
use neura_balancer.Metrics.Collector as Col
use neura_balancer.Metrics.Collector.{Collector, set_gauge}
use neura_balancer.Metrics.Float64.{Float64}
use neura_balancer.Ml.Strategy.{
  MlCall, set_circuit_open, record_cache_hit, record_cache_miss, record_inference, record_error,
}
use neura_balancer.Server.{Ref, Heap, increment_conns, decrement_conns}
use neura_balancer.Strategies.Pick.{Pick, nil_server, server, run_time_panic}

-- No two pointers of the list lead to servers with one identifier.
abbrev pub HasOwnIds : Heap → List Ref → Type 0
HasOwnIds h servers =
    (r q : Ref) → In r servers → In q servers → int_eq (h r).id (h q).id ≡ true → r ≡ q

-- A duration, which the effects leave out, is an argument.
module _ (fl : Float64) (seconds : fl.Carrier) where
  unfoldable pub tell_ml : Collector fl.Carrier → MlCall → Collector fl.Carrier
  tell_ml c (set_circuit_open tripped) = Col.set_circuit_open fl c tripped
  tell_ml c record_cache_hit = Col.record_ml_cache_hit fl c
  tell_ml c record_cache_miss = Col.record_ml_cache_miss fl c
  tell_ml c record_inference = Col.record_ml_inference fl c seconds
  tell_ml c record_error = Col.record_ml_error fl c

  unfoldable pub tell : Collector fl.Carrier → Effect → Collector fl.Carrier
  unfolding tell_ml
  tell c (ml_call m) = tell_ml c m
  tell c (set_active_connections id n) = Col.set_active_connections fl c id n
  tell c (record_request id method path status success) =
      (Col.record_request fl c (record {
        server_id = id;
        method = method;
        path = path;
        status = status;
        seconds = seconds;
        success = success;
      })).0
  tell c (update_server_status id up) = c

  unfoldable pub tell_all : Collector fl.Carrier → List Effect → Collector fl.Carrier
  unfolding tell
  tell_all c [] = c
  tell_all c (e ∷ es) = tell_all (tell c e) es

  -- Each server of the list is shown with its count of open requests.
  abbrev pub IsShown : Heap → List Ref → Collector fl.Carrier → Type 0
  IsShown h servers c =
      (r : Ref) → In r servers → c.active_conns (h r).id ≡ fl.of_count (h r).connections
