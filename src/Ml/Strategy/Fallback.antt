-- ===== src/Ml/Strategy/Fallback.antt =====
-- When the ML strategy leaves the choice to weighted round robin, and when it has no choice at all.
use neura_balancer.Common.{
  ℕ, ◌-◌, ◌≡◌, refl, true, false, none, some, List, [], ◌∷◌, ℤ, pos, pos_part, ltb_ℤ, All, arith,
}
use neura_balancer.Common.Float32.{Float32}
use neura_balancer.Common.Text.{Text}
use neura_balancer.Metrics.Readings.{Readings}
use neura_balancer.Ml.CacheKey.{build_cache_key}
use neura_balancer.Ml.CircuitBreaker.{is_open, record_failure, new_circuit_breaker}
use neura_balancer.Ml.Exchange.{FetchError, predictions, failed, fetch_predictions}
use neura_balancer.Ml.Lru.{Lru}
use neura_balancer.Ml.Scores.{pick_best_full}
use neura_balancer.Ml.Strategy.{
  MlStrategy, MlWorld, set_circuit_open, record_cache_miss, record_error, new_ml_strategy,
  fall_back, conclude, consult, select,
}
use neura_balancer.Server.{Ref, Heap, can_accept_request}
use neura_balancer.Strategies.Pick.{nil_server, run_time_panic}
use neura_balancer.Strategies.WeightedRoundRobin

module _ (fl : Float32) {D : Type 0} (format_float : D → Text) (lru : Lru (List fl.Carrier))
    (s : MlStrategy lru.Cache) (world : MlWorld fl.Carrier D) (h : Heap) (col : Readings D)
    (servers : List Ref) where
  -- While the breaker is open the pick is that of weighted round robin, the cache stays as it is,
  -- and nothing depends on what the model server would answer.
  pub select_opened :
      (is_open s.breaker world.asked_at).1 ≡ true
      → select fl format_float lru s world h col servers ≡ record {
        strategy = record s {
          breaker = (is_open s.breaker world.asked_at).0;
          fallback = (WeightedRoundRobin.select s.fallback h servers).0;
        };
        pick = (WeightedRoundRobin.select s.fallback h servers).1;
        calls = set_circuit_open true ∷ [];
      }
  unfolding select fall_back
  select_opened o = rw o

  -- With the breaker closed and no predictions in the cache, the exchange decides.
  pub select_missed :
      (c : lru.Cache)
      → (is_open s.breaker world.asked_at).1 ≡ false
      → s.cache ≡ some c
      → (lru.get c (build_cache_key format_float h col servers)).1 ≡ none
      → let key = build_cache_key format_float h col servers in
        select fl format_float lru s world h col servers
        ≡ conclude fl format_float lru
            (record s {
              breaker = (is_open s.breaker world.asked_at).0;
              cache = some (lru.get c key).0;
            })
            world
            h
            servers
            (lru.get c key).0
            key
            (fetch_predictions world.send h col world.sent_at servers)
  unfolding select
  select_missed c o k m = rw (o, k, consult) (rw (m, consult))

  -- A failed exchange: weighted round robin picks, and the breaker is open from then on, at any
  -- later time less than its window after the failure.
  pub select_failed :
      (c : lru.Cache) (e : FetchError) (later : ℕ)
      → (is_open s.breaker world.asked_at).1 ≡ false
      → s.cache ≡ some c
      → (lru.get c (build_cache_key format_float h col servers)).1 ≡ none
      → fetch_predictions world.send h col world.sent_at servers ≡ failed e
      → let outcome = select fl format_float lru s world h col servers in
        (outcome.pick ≡ (WeightedRoundRobin.select s.fallback h servers).1)
        × (outcome.calls ≡ set_circuit_open false ∷ record_cache_miss ∷ record_error ∷ [])
        × ((is_open outcome.strategy.breaker later).1
            ≡ ltb_ℤ (pos (later - world.failed_at)) s.breaker.reset_after)
  unfolding conclude fall_back is_open record_failure
  select_failed c e later o k m f = rw (select_missed c o k m, f) (refl, refl, ground arith)

  -- A call with the breaker closed and predictions in the cache does not fall back: with no
  -- server that has headroom there is no pick.
  pub select_cached_full :
      (c : lru.Cache) (ps : List fl.Carrier)
      → (is_open s.breaker world.asked_at).1 ≡ false
      → s.cache ≡ some c
      → (lru.get c (build_cache_key format_float h col servers)).1 ≡ some ps
      → All (λ r. can_accept_request (h r) ≡ false) servers
      → (select fl format_float lru s world h col servers).pick ≡ nil_server
  unfolding select
  select_cached_full c ps o k g full =
      rw (o, k, consult) (rw (g, consult, pick_best_full fl h servers ps full))

  -- A call with the breaker closed and no predictions in the cache falls back to weighted round
  -- robin in the same situation.
  pub select_uncached_full :
      (c : lru.Cache) (ps : List fl.Carrier)
      → (is_open s.breaker world.asked_at).1 ≡ false
      → s.cache ≡ some c
      → (lru.get c (build_cache_key format_float h col servers)).1 ≡ none
      → fetch_predictions world.send h col world.sent_at servers ≡ predictions ps
      → All (λ r. can_accept_request (h r) ≡ false) servers
      → (select fl format_float lru s world h col servers).pick
        ≡ (WeightedRoundRobin.select s.fallback h servers).1
  unfolding conclude fall_back
  select_uncached_full c ps o k g f full =
      rw (select_missed c o k g, f) (rw (pick_best_full fl h servers ps full))

  pub select_nil_cache :
      (is_open s.breaker world.asked_at).1 ≡ false
      → s.cache ≡ none
      → (select fl format_float lru s world h col servers).pick ≡ run_time_panic
  unfolding select
  select_nil_cache o k = rw (o, k, consult)

is_open-new :
    (reset_after : ℤ) (now : ℕ) → (is_open (new_circuit_breaker reset_after) now).1 ≡ false
unfolding is_open new_circuit_breaker
is_open-new reset_after now = refl

-- With a cache size that is not positive the first call of a new strategy panics.
pub select_new_panics :
    (fl : Float32) {D : Type 0} (format_float : D → Text) (lru : Lru (List fl.Carrier))
    (reset_sec cache_size : ℤ) (world : MlWorld fl.Carrier D) (h : Heap) (col : Readings D)
    (servers : List Ref)
    → pos_part cache_size ≡ 0
    → (select fl format_float lru
        (new_ml_strategy lru reset_sec cache_size)
        world
        h
        col
        servers).pick
      ≡ run_time_panic
unfolding new_ml_strategy
select_new_panics fl ff lru reset_sec cache_size world h col servers z =
    select_nil_cache fl ff lru (new_ml_strategy lru reset_sec cache_size) world h col servers
      (is_open-new _ world.asked_at) (lru.new_refused cache_size z)
