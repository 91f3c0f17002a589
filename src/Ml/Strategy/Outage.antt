-- ===== src/Ml/Strategy/Outage.antt =====
-- An outage of the model server: the failed call, the calls while the breaker is open, and the first
-- call after that.
use neura_balancer.Common.{
  ℕ, ◌-◌, ◌≡◌, refl, ap, ◌∙◌, true, false, none, some, List, [], ◌∷◌, ℤ, pos, ltb_ℤ, leb_ℤ, All,
  arith,
}
use neura_balancer.Common.Float32.{Float32}
use neura_balancer.Common.Text.{Text}
use neura_balancer.Metrics.Readings.{Readings}
use neura_balancer.Ml.CacheKey.{build_cache_key}
use neura_balancer.Ml.CircuitBreaker.{CircuitBreaker, is_open, record_failure}
use neura_balancer.Ml.Exchange.{FetchError, predictions, failed, fetch_predictions}
use neura_balancer.Ml.Lru.{Lru}
use neura_balancer.Ml.Scores.{pick_best}
use neura_balancer.Ml.Strategy.{MlStrategy, MlWorld, fall_back, conclude, select}
use neura_balancer.Ml.Strategy.Caching.{or_pick, select_fetched}
use neura_balancer.Ml.Strategy.Fallback.{select_opened, select_missed}
use neura_balancer.Server.{Ref, Heap}
use neura_balancer.Strategies.Pick.{Pick}
use neura_balancer.Strategies.WeightedRoundRobin
use neura_balancer.Strategies.WeightedRoundRobin.{WeightedRoundRobin}

-- What one call of `Select` is given.
pub record Call (F D : Type 0) : Type 0 where
  pub world : MlWorld F D
  pub heap : Heap
  pub readings : Readings D
  pub servers : List Ref

-- The picks of weighted round robin alone.
abbrev pub fall_backs : {F D : Type 0} → WeightedRoundRobin → List (Call F D) → List Pick
fall_backs w [] = []
fall_backs w (call ∷ calls) =
    let (w', p) = WeightedRoundRobin.select w call.heap call.servers in p ∷ fall_backs w' calls

-- A breaker that has tripped at a time.
abbrev pub tripped : ℕ → ℤ → CircuitBreaker
tripped at reset_after = record { opened = true; last_failure = at; reset_after = reset_after }

abbrev pub IsDuring : {F D : Type 0} → ℕ → ℤ → Call F D → Type 0
IsDuring at reset_after call = ltb_ℤ (pos (call.world.asked_at - at)) reset_after ≡ true

is_open-tripped :
    (at now : ℕ) (reset_after : ℤ)
    → ltb_ℤ (pos (now - at)) reset_after ≡ true
    → is_open (tripped at reset_after) now ≡ (tripped at reset_after, true)
unfolding is_open
is_open-tripped at now reset_after h =
    let shut : leb_ℤ reset_after (pos (now - at)) ≡ false = ground arith in rw shut refl

is_open-later :
    (at now : ℕ) (reset_after : ℤ)
    → ltb_ℤ (pos (now - at)) reset_after ≡ false
    → (is_open (tripped at reset_after) now).1 ≡ false
unfolding is_open
is_open-later at now reset_after h = ground arith

module _ (fl : Float32) {D : Type 0} (format_float : D → Text) (lru : Lru (List fl.Carrier)) where
  -- Calls one after the other: their picks, and the state that they leave.
  unfoldable pub select_all :
      MlStrategy lru.Cache → List (Call fl.Carrier D) → List Pick × MlStrategy lru.Cache
  select_all s [] = ([], s)
  select_all s (call ∷ calls) =
      let outcome = select fl format_float lru s call.world call.heap call.readings call.servers in
      let (ps, s') = select_all outcome.strategy calls in (outcome.pick ∷ ps, s')

  select_all-tripped :
      (s : MlStrategy lru.Cache) (at : ℕ) (reset_after : ℤ) (calls : List (Call fl.Carrier D))
      → s.breaker ≡ tripped at reset_after
      → All (IsDuring at reset_after) calls
      → ((select_all s calls).0 ≡ fall_backs s.fallback calls)
        × ((select_all s calls).1.breaker ≡ tripped at reset_after)
        × ((select_all s calls).1.cache ≡ s.cache)
  unfolding select_all
  select_all-tripped s at reset_after [] b during = (refl, b, refl)
  select_all-tripped s at reset_after (call ∷ calls) b (now, during) =
      let stays : is_open s.breaker call.world.asked_at ≡ (tripped at reset_after, true) =
        rw b (is_open-tripped at call.world.asked_at reset_after now) in
      let w' = (WeightedRoundRobin.select s.fallback call.heap call.servers).0 in
      let s' : MlStrategy lru.Cache = record s {
        breaker = (is_open s.breaker call.world.asked_at).0;
        fallback = w';
      } in
      let (picks, breaker, cache) =
        select_all-tripped s' at reset_after calls (ap (λ x. x.0) stays) during in
      rw
        (select_opened fl format_float lru s call.world call.heap call.readings call.servers
          (ap (λ x. x.1) stays))
        (
          ap (λ ps. (WeightedRoundRobin.select s.fallback call.heap call.servers).1 ∷ ps) picks,
          breaker,
          cache,
        )

  module _ (s : MlStrategy lru.Cache) (first : Call fl.Carrier D) (c : lru.Cache) {e : FetchError}
      (closed : (is_open s.breaker first.world.asked_at).1 ≡ false) (cached : s.cache ≡ some c)
      (missed : (lru.get c (build_cache_key format_float first.heap first.readings first.servers)).1
        ≡ none)
      (broken : fetch_predictions first.world.send first.heap first.readings first.world.sent_at
          first.servers
        ≡ failed e) where
    -- What the failed call leaves.
    abbrev after_failure : MlStrategy lru.Cache
    after_failure =
        (select fl format_float lru s first.world first.heap first.readings first.servers).strategy

    failed_state :
        let outcome =
          select fl format_float lru s first.world first.heap first.readings first.servers in
        (outcome.strategy.breaker ≡ tripped first.world.failed_at s.breaker.reset_after)
        × (outcome.strategy.cache
            ≡ some
                (lru.get c
                  (build_cache_key format_float first.heap first.readings first.servers)).0)
        × (outcome.strategy.fallback
            ≡ (WeightedRoundRobin.select s.fallback first.heap first.servers).0)
    unfolding conclude fall_back is_open record_failure
    failed_state =
        rw
          (
            select_missed fl format_float lru s first.world first.heap first.readings first.servers
                c closed cached missed,
            broken,
          )
          (ground arith, refl, refl)

    -- After a call whose exchange fails, the calls at times less than the breaker's window after the
    -- failure get the picks of weighted round robin, whatever the model server would answer. The first
    -- call after the window, if its predictions are not cached and its exchange succeeds, closes the
    -- breaker and gets the best server by the predictions, or else that of weighted round robin.
    pub select_outage :
        (calls : List (Call fl.Carrier D)) (last : Call fl.Carrier D) (ps : List fl.Carrier)
        → let c' =
            (lru.get c (build_cache_key format_float first.heap first.readings first.servers)).0 in
          All (IsDuring first.world.failed_at s.breaker.reset_after) calls
          → ltb_ℤ (pos (last.world.asked_at - first.world.failed_at)) s.breaker.reset_after ≡ false
          → (lru.get c' (build_cache_key format_float last.heap last.readings last.servers)).1
            ≡ none
          → fetch_predictions last.world.send last.heap last.readings last.world.sent_at
              last.servers
            ≡ predictions ps
          → let outage =
              select_all
                (select fl format_float lru s first.world first.heap first.readings
                  first.servers).strategy
                calls in
            let outcome =
              select fl format_float lru outage.1 last.world last.heap last.readings last.servers in
            (outage.0
              ≡ fall_backs (WeightedRoundRobin.select s.fallback first.heap first.servers).0 calls)
            × (outcome.strategy.breaker.opened ≡ false)
            × (outcome.pick
                ≡ or_pick
                    (pick_best fl last.heap last.servers ps)
                    (WeightedRoundRobin.select outage.1.fallback last.heap last.servers).1)
    select_outage calls last ps during later missed' fetched =
        let (b, k, w) = failed_state in
        let (picks, breaker, cache) =
          select_all-tripped after_failure first.world.failed_at s.breaker.reset_after calls b
            during in
        let shut : (is_open (select_all after_failure calls).1.breaker last.world.asked_at).1
            ≡ false =
          rw breaker
            (is_open-later first.world.failed_at last.world.asked_at s.breaker.reset_after later) in
        let (shut', stored, picked) =
          select_fetched fl format_float lru (select_all after_failure calls).1 last.world last.heap
            last.readings last.servers _ ps shut (cache ∙ k) missed' fetched in
        (picks ∙ ap (λ x. fall_backs x calls) w, shut', picked)
