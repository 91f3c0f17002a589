-- ===== src/Ml/Strategy/Caching.antt =====
-- What an exchange that succeeded leaves behind, and the calls that use it.
use neura_balancer.Common.{◌≡◌, refl, false, inl, inr, Option, none, some, Option-cases, List}
use neura_balancer.Common.Float32.{Float32}
use neura_balancer.Common.Text.{Text}
use neura_balancer.Metrics.Readings.{Readings}
use neura_balancer.Ml.CacheKey.{build_cache_key}
use neura_balancer.Ml.CircuitBreaker.{is_open, record_success}
use neura_balancer.Ml.Exchange.{predictions, fetch_predictions}
use neura_balancer.Ml.Lru.{Lru}
use neura_balancer.Ml.Scores.{pick_best}
use neura_balancer.Ml.Strategy.{MlStrategy, MlWorld, fall_back, conclude, consult, select, or_nil}
use neura_balancer.Ml.Strategy.Fallback.{select_missed}
use neura_balancer.Server.{Ref, Heap}
use neura_balancer.Strategies.Pick.{Pick, server}
use neura_balancer.Strategies.WeightedRoundRobin

-- The server, or else the pick of the fallback.
abbrev pub or_pick : Option Ref → Pick → Pick
or_pick none p = p
or_pick (some r) p = server r

-- A call with the breaker shut and predictions in the cache.
cached_pick :
    (fl : Float32) {D : Type 0} (format_float : D → Text) (lru : Lru (List fl.Carrier))
    (s : MlStrategy lru.Cache) (world : MlWorld fl.Carrier D) (h : Heap) (col : Readings D)
    (servers : List Ref) (ps : List fl.Carrier) (c : lru.Cache)
    → s.breaker.opened ≡ false
    → s.cache ≡ some c
    → (lru.get c (build_cache_key format_float h col servers)).1 ≡ some ps
    → (select fl format_float lru s world h col servers).pick ≡ or_nil (pick_best fl h servers ps)
unfolding select is_open
cached_pick fl format_float lru s world h col servers ps c o k g =
    rw (o, k, consult) (rw (g, consult))

module _ (fl : Float32) {D : Type 0} (format_float : D → Text) (lru : Lru (List fl.Carrier))
    (s : MlStrategy lru.Cache) (world : MlWorld fl.Carrier D) (h : Heap) (col : Readings D)
    (servers : List Ref) (c : lru.Cache) (ps : List fl.Carrier)
    (closed : (is_open s.breaker world.asked_at).1 ≡ false) (cached : s.cache ≡ some c)
    (missed : (lru.get c (build_cache_key format_float h col servers)).1 ≡ none)
    (fetched : fetch_predictions world.send h col world.sent_at servers ≡ predictions ps) where
  -- The pick is the best server where there is one and else that of weighted round robin; the breaker
  -- is closed and the predictions are in the cache under the key of this call.
  pub select_fetched :
      let outcome = select fl format_float lru s world h col servers in
      let key = build_cache_key format_float h col servers in
      (outcome.strategy.breaker.opened ≡ false)
      × (outcome.strategy.cache ≡ some (lru.add (lru.get c key).0 key ps))
      × (outcome.pick
          ≡ or_pick (pick_best fl h servers ps) (WeightedRoundRobin.select s.fallback h servers).1)
  unfolding conclude fall_back record_success
  select_fetched = elim (Option-cases (pick_best fl h servers ps)) [
    | inl e ↦
        rw (select_missed fl format_float lru s world h col servers c closed cached missed, fetched)
          (rw e (refl, refl, refl))
    | inr (q, e) ↦
        rw (select_missed fl format_float lru s world h col servers c closed cached missed, fetched)
          (rw e (refl, refl, refl))
  ]

  -- The next call with the same cache key takes the same predictions, at the state that the servers
  -- have by then, and whatever the model server would answer; it has no fallback.
  pub select_again :
      (world' : MlWorld fl.Carrier D) (h' : Heap) (col' : Readings D) (servers' : List Ref)
      → build_cache_key format_float h' col' servers' ≡ build_cache_key format_float h col servers
      → (select fl format_float lru
          (select fl format_float lru s world h col servers).strategy
          world'
          h'
          col'
          servers').pick
        ≡ or_nil (pick_best fl h' servers' ps)
  select_again world' h' col' servers' same =
      cached_pick fl format_float lru _ world' h' col' servers' ps
        (lru.add (lru.get c (build_cache_key format_float h col servers)).0
          (build_cache_key format_float h col servers) ps)
        select_fetched.0 select_fetched.1 (rw same (lru.get-add _ _ ps))

  -- With the breaker closed, no cached predictions and an exchange that succeeds, the pick is the
  -- best server where there is one and else that of weighted round robin, the breaker is closed, and
  -- the predictions are stored under the key of the call; the next call with the same key takes the
  -- same predictions at the servers' present state, whatever the model server would answer, and has
  -- no fallback.
  pub select_twice :
      (world' : MlWorld fl.Carrier D) (h' : Heap) (col' : Readings D) (servers' : List Ref)
      → build_cache_key format_float h' col' servers' ≡ build_cache_key format_float h col servers
      → let outcome = select fl format_float lru s world h col servers in
        let key = build_cache_key format_float h col servers in
        (outcome.strategy.breaker.opened ≡ false)
        × (outcome.strategy.cache ≡ some (lru.add (lru.get c key).0 key ps))
        × (outcome.pick
            ≡ or_pick
                (pick_best fl h servers ps)
                (WeightedRoundRobin.select s.fallback h servers).1)
        × ((select fl format_float lru outcome.strategy world' h' col' servers').pick
            ≡ or_nil (pick_best fl h' servers' ps))
  select_twice world' h' col' servers' same =
      let (shut, stored, picked) = select_fetched in
      (shut, stored, picked, select_again world' h' col' servers' same)
