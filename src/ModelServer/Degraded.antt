-- ===== src/ModelServer/Degraded.antt =====
-- The ML strategy against a model server whose start has failed.
use neura_balancer.Common.{ℕ, map, ◌-◌, ◌≡◌, false, none, some, List, [], ◌∷◌, pos, ltb_ℤ}
use neura_balancer.Common.Float32.{Float32}
use neura_balancer.Common.Text.{Text}
use neura_balancer.Metrics.Readings.{Readings}
use neura_balancer.Ml.CacheKey.{build_cache_key}
use neura_balancer.Ml.CircuitBreaker.{is_open}
use neura_balancer.Ml.Exchange as Fetch
use neura_balancer.Ml.Exchange.{http_status, MlRequest}
use neura_balancer.Ml.Lru.{Lru}
use neura_balancer.Ml.Strategy.{
  MlStrategy, MlWorld, set_circuit_open, record_cache_miss, record_error, select,
}
use neura_balancer.Ml.Strategy.Fallback.{select_failed}
use neura_balancer.ModelServer.{Arithmetic, Startup, StartError, start_failed, new_model_server}
use neura_balancer.ModelServer.Contract.{Wire, send_to, fetch_predictions-degraded}
use neura_balancer.ModelServer.Process.{model_of}
use neura_balancer.Server.{Ref, Heap}
use neura_balancer.Strategies.WeightedRoundRobin

-- If the model server could not load its model, a call whose request can be encoded of the ML strategy with the breaker closed and
-- no cached predictions picks as weighted round robin does and reports the error, and the breaker is
-- open at any later time less than its window after the failure.
pub select-start_failed :
    (fl : Float32) {D : Type 0} (format_float : D → Text) (lru : Lru (List fl.Carrier))
    (ar : Arithmetic fl.Carrier) (narrow : D → fl.Carrier) (wire : Wire fl.Carrier D)
    (startup : Startup fl.Carrier) {e : StartError} (s : MlStrategy lru.Cache)
    (world : MlWorld fl.Carrier D) (h : Heap) (col : Readings D) (servers : List Ref)
    (c : lru.Cache) (body : Text) (later : ℕ)
    → new_model_server startup ≡ start_failed e
    → world.send ≡ send_to ar narrow wire (model_of (new_model_server startup))
    → wire.encode (record { servers = map (Fetch.features_of h col) servers; ts = world.sent_at })
      ≡ some body
    → (is_open s.breaker world.asked_at).1 ≡ false
    → s.cache ≡ some c
    → (lru.get c (build_cache_key format_float h col servers)).1 ≡ none
    → let outcome = select fl format_float lru s world h col servers in
      (outcome.pick ≡ (WeightedRoundRobin.select s.fallback h servers).1)
      × (outcome.calls ≡ set_circuit_open false ∷ record_cache_miss ∷ record_error ∷ [])
      × ((is_open outcome.strategy.breaker later).1
          ≡ ltb_ℤ (pos (later - world.failed_at)) s.breaker.reset_after)
unfolding model_of
select-start_failed fl format_float lru ar narrow wire startup s world h col servers c body later
      lost wired encoded o k m =
    select_failed fl format_float lru s world h col servers c (http_status 503) later o k m (
      rw (wired, lost)
        (fetch_predictions-degraded ar narrow wire h col world.sent_at servers body encoded))
