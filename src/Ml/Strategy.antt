-- ===== src/Ml/Strategy.antt =====
-- `MLStrategy` of backend/internal/loadbalancer/ml_strategy.go.
pub mod Fallback
pub mod Resets
pub mod Caching
pub mod Outage
use neura_balancer.Common.{
  ℕ, ◌^◌, ◌*◌, Bool, true, false, if◌then◌else◌, Option, none, some, List, [], ◌∷◌, ◌++◌, ℤ, scale,
  wrap_int,
}
use neura_balancer.Common.Float32.{Float32}
use neura_balancer.Common.Text.{Text}
use neura_balancer.Metrics.Readings.{Readings}
use neura_balancer.Ml.CacheKey.{build_cache_key}
use neura_balancer.Ml.CircuitBreaker.{
  CircuitBreaker, new_circuit_breaker, is_open, record_failure, record_success,
}
use neura_balancer.Ml.Exchange.{
  Exchange, MlRequest, Fetched, predictions, failed, fetch_predictions,
}
use neura_balancer.Ml.Lru.{Lru}
use neura_balancer.Ml.Scores.{pick_best}
use neura_balancer.Server.{Ref, Heap}
use neura_balancer.Strategies.Pick.{Pick, nil_server, server, run_time_panic}
use neura_balancer.Strategies.WeightedRoundRobin
use neura_balancer.Strategies.WeightedRoundRobin.{WeightedRoundRobin, new_weighted_round_robin}

-- The calls of the collector, in their order.
pub data MlCall : Type 0 where
  set_circuit_open : Bool → MlCall
  record_cache_hit : MlCall
  record_cache_miss : MlCall
  record_inference : MlCall
  record_error : MlCall

-- What one call of `Select` meets: the clock at its reads, and the exchange with the model server.
pub record MlWorld (F D : Type 0) : Type 0 where
  pub asked_at : ℕ
  pub sent_at : ℕ
  pub failed_at : ℕ
  pub send : MlRequest D → Exchange F

-- `cache` is `none` for what `lru.New` returns with an error, a cache with nothing in it whose methods
-- panic.
pub record MlStrategy (C : Type 0) : Type 0 where
  pub breaker : CircuitBreaker
  pub fallback : WeightedRoundRobin
  pub cache : Option C

pub record MlOutcome (C : Type 0) : Type 0 where
  pub strategy : MlStrategy C
  pub pick : Pick
  pub calls : List MlCall

abbrev pub or_nil : Option Ref → Pick
or_nil none = nil_server
or_nil (some r) = server r

module _ {C : Type 0} (s : MlStrategy C) (h : Heap) (servers : List Ref) (calls : List MlCall) where
  unfoldable pub fall_back : MlOutcome C
  fall_back =
      let (w, p) = WeightedRoundRobin.select s.fallback h servers in
      record { strategy = record s { fallback = w }; pick = p; calls = calls }

-- The error of `lru.New` is dropped, so a size that is not positive leaves a cache
-- whose first use panics.
unfoldable pub new_ml_strategy : {V : Type 0} (lru : Lru V) → ℤ → ℤ → MlStrategy lru.Cache
new_ml_strategy lru reset_sec cache_size = record {
  breaker = new_circuit_breaker (wrap_int (scale reset_sec 1_000_000_000));
  fallback = new_weighted_round_robin;
  cache = lru.new cache_size;
}

module _ (fl : Float32) {D : Type 0} (format_float : D → Text) (lru : Lru (List fl.Carrier)) where
  open fl use {Carrier}
  open lru use {Cache}

  abbrev pub or_fall_back :
      MlStrategy Cache → Heap → List Ref → List MlCall → Option Ref → MlOutcome Cache
  or_fall_back s h servers calls none = fall_back s h servers calls
  or_fall_back s h servers calls (some r) = record { strategy = s; pick = server r; calls = calls }

  -- What follows the exchange with the model server.
  unfoldable pub conclude :
      MlStrategy Cache
      → MlWorld Carrier D
      → Heap
      → List Ref
      → Cache
      → Text
      → Fetched Carrier
      → MlOutcome Cache
  conclude s world h servers c key (failed e) =
      fall_back (record s { breaker = record_failure s.breaker world.failed_at }) h servers
        (set_circuit_open false ∷ record_cache_miss ∷ record_error ∷ [])
  conclude s world h servers c key (predictions ps) =
      or_fall_back
        (record s { breaker = record_success s.breaker; cache = some (lru.add c key ps) }) h servers
        (set_circuit_open false ∷ record_cache_miss ∷ record_inference ∷ [])
        (pick_best fl h servers ps)

  -- With the breaker closed: the cache first, then the model server.
  unfoldable pub consult :
      MlStrategy Cache
      → MlWorld Carrier D
      → Heap
      → Readings D
      → List Ref
      → Option Cache
      → MlOutcome Cache
  unfolding conclude
  consult s world h col servers none = record {
    strategy = s;
    pick = run_time_panic;
    calls = set_circuit_open false ∷ [];
  }
  consult s world h col servers (some c) =
      let key = build_cache_key format_float h col servers in
      let (c', found) = lru.get c key in
      elim found [
        | none ↦
            conclude (record s { cache = some c' }) world h servers c' key
              (fetch_predictions world.send h col world.sent_at servers)
        | some ps ↦ record {
          strategy = record s { cache = some c' };
          pick = or_nil (pick_best fl h servers ps);
          calls = set_circuit_open false ∷ record_cache_hit ∷ [];
        }
      ]

  unfoldable pub select :
      MlStrategy Cache → MlWorld Carrier D → Heap → Readings D → List Ref → MlOutcome Cache
  unfolding fall_back consult
  select s world h col servers =
      let (breaker, opened) = is_open s.breaker world.asked_at in
      let s' = record s { breaker = breaker } in
      if opened
      then fall_back s' h servers (set_circuit_open true ∷ [])
      else consult s' world h col servers s'.cache
