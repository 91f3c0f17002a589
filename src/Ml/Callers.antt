-- ===== src/Ml/Callers.antt =====
-- Calls of `MLStrategy.Select` in backend/internal/loadbalancer/ml_strategy.go by any number of
-- goroutines at once, an access to shared state at a time: the breaker and the fallback have a mutex
-- each, the cache has its own, and nothing is held from one access to the next. The key, the features
-- with the exchange, and the choice each read the servers and the collector in one step; a step also
-- tells the collector what the code tells it directly after that access.
pub mod Breaker
pub mod Cached
use neura_balancer.Common.{
  ℕ, Bool, true, false, if◌then◌else◌, Option, none, some, List, [], ◌∷◌, ◌++◌, get_elem?, set_elem,
}
use neura_balancer.Common.Float32.{Float32}
use neura_balancer.Common.Text.{Text}
use neura_balancer.Metrics.Readings.{Readings}
use neura_balancer.Ml.CacheKey.{build_cache_key}
use neura_balancer.Ml.CircuitBreaker.{is_open, record_failure, record_success}
use neura_balancer.Ml.CircuitBreaker.Window.{Event, asked, failed, succeeded}
use neura_balancer.Ml.Exchange as Fetch
use neura_balancer.Ml.Exchange.{Exchange, MlRequest, Fetched, fetch_predictions}
use neura_balancer.Ml.Lru.{Lru}
use neura_balancer.Ml.Scores.{pick_best}
use neura_balancer.Ml.Strategy.{
  MlStrategy, MlCall, set_circuit_open, record_cache_hit, record_cache_miss, record_inference,
  record_error,
}
use neura_balancer.Server.{Ref, Heap}
use neura_balancer.Strategies.Pick.{Pick, nil_server, server, run_time_panic}
use neura_balancer.Strategies.WeightedRoundRobin

-- Where a call stands, with the local variables that are live there: its servers, its key, its
-- predictions.
pub data Phase (F : Type 0) : Type 0 where
  asking : List Ref → Phase F  -- before `isOpen`
  keying : List Ref → Phase F  -- before the key is built
  looking : List Ref → Text → Phase F  -- before the cache is read
  fetching : List Ref → Text → Phase F  -- before the exchange with the model server
  failing : List Ref → Phase F  -- before `recordFailure`
  succeeding : List Ref → Text → List F → Phase F  -- before `recordSuccess`
  storing : List Ref → Text → List F → Phase F  -- before `cache.Add`
  choosing : List Ref → List F → Bool → Phase F  -- before `pickBest`, with a fallback or without
  falling : List Ref → Phase F  -- before `fallback.Select`
  decided : Pick → Phase F

-- What a step of a call meets: the clock, the servers, the readings, the model server.
pub record Input (F D : Type 0) : Type 0 where
  pub now : ℕ
  pub heap : Heap
  pub readings : Readings D
  pub send : MlRequest D → Exchange F

module _ (fl : Float32) {D : Type 0} (format_float : D → Text) (lru : Lru (List fl.Carrier)) where
  open fl use {Carrier}
  open lru use {Cache}

  abbrev pub Moved : Type 0
  Moved = MlStrategy Cache × Phase Carrier × List MlCall

  abbrev pub found_in_cache :
      MlStrategy Cache → List Ref → Text → Cache × Option (List Carrier) → Moved
  found_in_cache s rs key (c, none) =
      (record s { cache = some c }, fetching rs key, record_cache_miss ∷ [])
  found_in_cache s rs key (c, some ps) =
      (record s { cache = some c }, choosing rs ps false, record_cache_hit ∷ [])

  abbrev pub look_up : MlStrategy Cache → List Ref → Text → Option Cache → Moved
  look_up s rs key none = (s, decided run_time_panic, [])
  look_up s rs key (some c) = found_in_cache s rs key (lru.get c key)

  abbrev pub fetched : MlStrategy Cache → List Ref → Text → Fetched Carrier → Moved
  fetched s rs key (Fetch.predictions ps) = (s, succeeding rs key ps, record_inference ∷ [])
  fetched s rs key (Fetch.failed e) = (s, failing rs, [])

  abbrev pub store : MlStrategy Cache → List Ref → Text → List Carrier → Option Cache → Moved
  store s rs key ps none = (s, decided run_time_panic, [])
  store s rs key ps (some c) =
      (record s { cache = some (lru.add c key ps) }, choosing rs ps true, [])

  abbrev pub chosen : List Ref → Bool → Option Ref → Phase Carrier
  chosen rs with_fallback (some r) = decided (server r)
  chosen rs true none = falling rs
  chosen rs false none = decided nil_server

  -- One step of a call; a call that has decided makes none.
  unfoldable pub move : Input Carrier D → MlStrategy Cache → Phase Carrier → Option Moved
  move x s (asking rs) =
      let (breaker, opened) = is_open s.breaker x.now in
      some (
        record s { breaker = breaker },
        if opened then falling rs else keying rs,
        set_circuit_open opened ∷ [],
      )
  move x s (keying rs) =
      some (s, looking rs (build_cache_key format_float x.heap x.readings rs), [])
  move x s (looking rs key) = some (look_up s rs key s.cache)
  move x s (fetching rs key) =
      some (fetched s rs key (fetch_predictions x.send x.heap x.readings x.now rs))
  move x s (failing rs) =
      some (record s { breaker = record_failure s.breaker x.now }, falling rs, record_error ∷ [])
  move x s (succeeding rs key ps) =
      some (record s { breaker = record_success s.breaker }, storing rs key ps, [])
  move x s (storing rs key ps) = some (store s rs key ps s.cache)
  move x s (choosing rs ps with_fallback) =
      some (s, chosen rs with_fallback (pick_best fl x.heap rs ps), [])
  move x s (falling rs) =
      let (w, p) = WeightedRoundRobin.select s.fallback x.heap rs in
      some (record s { fallback = w }, decided p, [])
  move x s (decided p) = none

  -- What a step tells the breaker, and when.
  abbrev pub tells : ℕ → Phase Carrier → List (ℕ × Event)
  tells now (asking rs) = (now, asked) ∷ []
  tells now (keying rs) = []
  tells now (looking rs key) = []
  tells now (fetching rs key) = []
  tells now (failing rs) = (now, failed) ∷ []
  tells now (succeeding rs key ps) = (now, succeeded) ∷ []
  tells now (storing rs key ps) = []
  tells now (choosing rs ps with_fallback) = []
  tells now (falling rs) = []
  tells now (decided p) = []

  -- `told` is what the collector has been told, `log` what the breaker has been.
  pub record System : Type 0 where
    pub strategy : MlStrategy Cache
    pub callers : List (Phase Carrier)
    pub told : List MlCall
    pub log : List (ℕ × Event)

  abbrev pub settle : System → ℕ → List (ℕ × Event) → Option Moved → System
  settle y i noted none = y
  settle y i noted (some (s', p', told)) = record {
    strategy = s';
    callers = set_elem y.callers i p';
    told = y.told ++ told;
    log = y.log ++ noted;
  }

  unfoldable pub resume : System → ℕ → Input Carrier D → Option (Phase Carrier) → System
  resume y i x none = y
  resume y i x (some p) = settle y i (tells x.now p) (move x y.strategy p)

  pub data Turn : Type 0 where
    calls : List Ref → Turn
    moves : ℕ → Input Carrier D → Turn

  unfoldable pub step : System → Turn → System
  unfolding resume
  step y (calls rs) = record y { callers = y.callers ++ asking rs ∷ [] }
  step y (moves i x) = resume y i x (get_elem? y.callers i)

  unfoldable pub run : System → List Turn → System
  unfolding step
  run y [] = y
  run y (t ∷ ts) = run (step y t) ts
