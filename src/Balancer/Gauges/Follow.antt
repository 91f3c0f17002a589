-- ===== src/Balancer/Gauges/Follow.antt =====
-- The gauges of open requests after the operations of the balancer.
use neura_balancer.Common.{
  ◌≡◌, ◌≢◌, refl, sym, ap, ◌∙◌, Bool-cases, true, false, ltb, ◌==◌, ==_iff, inl, inr, List, [], ◌∷◌,
  ◌++◌, In, int_eq, int_eq_refl,
}
use neura_balancer.Balancer.{
  Strategy, LoadBalancer, Effect, effects_of, active_connections, accept, choose, next_server,
  release_server, healthy,
}
use neura_balancer.Metrics.Collector as Col
use neura_balancer.Metrics.Collector.{Collector, set_gauge}
use neura_balancer.Metrics.Float64.{Float64}
use neura_balancer.Ml.Strategy.{
  MlCall, set_circuit_open, record_cache_hit, record_cache_miss, record_inference, record_error,
}
use neura_balancer.Server.{Ref, Heap, increment_conns, decrement_conns}
use neura_balancer.Strategies.Pick.{Pick, nil_server, server, run_time_panic}
use neura_balancer.Balancer.Gauges.{tell_ml, tell, tell_all, IsShown, HasOwnIds}

true-false : true ≡ false → ⊥
true-false e = cc

module _ (fl : Float64) (seconds : fl.Carrier) where
  tell_all-append :
      (c : Collector fl.Carrier) (es fs : List Effect)
      → tell_all fl seconds c (es ++ fs) ≡ tell_all fl seconds (tell_all fl seconds c es) fs
  unfolding tell_all
  tell_all-append c [] fs = refl
  tell_all-append c (e ∷ es) fs = tell_all-append (tell fl seconds c e) es fs

  tell_ml-active :
      (c : Collector fl.Carrier) (m : MlCall)
      → (tell_ml fl seconds c m).active_conns ≡ c.active_conns
  unfolding tell_ml Col.set_circuit_open Col.record_ml_cache_hit Col.record_ml_cache_miss
      Col.record_ml_inference Col.record_ml_error
  tell_ml-active c (set_circuit_open tripped) = refl
  tell_ml-active c record_cache_hit = refl
  tell_ml-active c record_cache_miss = refl
  tell_ml-active c record_inference = refl
  tell_ml-active c record_error = refl

  tell_all-effects_of :
      (c : Collector fl.Carrier) (ms : List MlCall)
      → (tell_all fl seconds c (effects_of ms)).active_conns ≡ c.active_conns
  unfolding tell_all tell
  tell_all-effects_of c [] = refl
  tell_all-effects_of c (m ∷ ms) =
      tell_all-effects_of (tell_ml fl seconds c m) ms ∙ tell_ml-active c m

  -- A count is shown after it has changed.
  tell-IsShown :
      (h h' : Heap) (servers : List Ref) (c : Collector fl.Carrier) (r : Ref)
      → HasOwnIds h servers
      → ((q : Ref) → (h' q).id ≡ (h q).id)
      → ((q : Ref) → q ≢ r → (h' q).connections ≡ (h q).connections)
      → In r servers
      → IsShown fl seconds h servers c
      → IsShown fl seconds h' servers (tell fl seconds c (active_connections h' r))
  unfolding tell Col.set_active_connections
  tell-IsShown h h' servers c r own ids others i shown q j =
      elim (Bool-cases (int_eq (h' q).id (h' r).id)) [
        | inl same ↦
            let e : q ≡ r = own q r j i (rw (ids q, ids r) at same) in
            rw same (ap (λ p. fl.of_count (h' p).connections) (sym e))
        | inr apart ↦
            let ne : q ≢ r = λ e. absurd (
              true-false
                (sym (ap (λ p. int_eq (h' p).id (h' r).id) e ∙ int_eq_refl (h' r).id) ∙ apart)) in
            rw apart (ap c.active_conns (ids q) ∙ shown q j ∙ ap fl.of_count (sym (others q ne)))
      ]

  pub increment-ids : (h : Heap) (r q : Ref) → (increment_conns h r q).id ≡ (h q).id
  unfolding increment_conns
  increment-ids h r q = elim (Bool-cases (q == r)) [
    | inl same ↦ rw same (ap (λ p. (h p).id) (sym ((==_iff q r).0 same)))
    | inr apart ↦ rw apart
  ]

  increment-others :
      (h : Heap) (r q : Ref) → q ≢ r → (increment_conns h r q).connections ≡ (h q).connections
  unfolding increment_conns
  increment-others h r q ne = elim (Bool-cases (q == r)) [
    | inl same ↦ absurd (ne ((==_iff q r).0 same))
    | inr apart ↦ rw apart
  ]

  pub decrement-ids : (h : Heap) (r q : Ref) → (decrement_conns h r q).id ≡ (h q).id
  unfolding decrement_conns
  decrement-ids h r q = elim (Bool-cases (ltb 0 (h r).connections)) [
    | inr idle ↦ rw idle
    | inl busy ↦ elim (Bool-cases (q == r)) [
      | inl same ↦ rw (busy, same) (ap (λ p. (h p).id) (sym ((==_iff q r).0 same)))
      | inr apart ↦ rw (busy, apart)
    ]
  ]

  decrement-others :
      (h : Heap) (r q : Ref) → q ≢ r → (decrement_conns h r q).connections ≡ (h q).connections
  unfolding decrement_conns
  decrement-others h r q ne = elim (Bool-cases (ltb 0 (h r).connections)) [
    | inr idle ↦ rw idle
    | inl busy ↦ elim (Bool-cases (q == r)) [
      | inl same ↦ absurd (ne ((==_iff q r).0 same))
      | inr apart ↦ rw (busy, apart)
    ]
  ]

  -- After a release, with the collector told, every server of the list is shown with its count.
  pub release_server-IsShown :
      {S : Type 0} (lb : LoadBalancer S) (c : Collector fl.Carrier) (r : Ref)
      → HasOwnIds lb.heap lb.servers
      → In r lb.servers
      → IsShown fl seconds lb.heap lb.servers c
      → IsShown fl seconds
          (release_server lb r).0.heap
          lb.servers
          (tell_all fl seconds c (release_server lb r).1)
  unfolding release_server tell_all
  release_server-IsShown lb c r own i shown =
      tell-IsShown lb.heap (decrement_conns lb.heap r) lb.servers c r own (decrement-ids lb.heap r)
        (decrement-others lb.heap r) i shown

  accept-IsShown :
      {S : Type 0} (lb : LoadBalancer S) (c : Collector fl.Carrier) (ms : List MlCall) (p : Pick)
      → HasOwnIds lb.heap lb.servers
      → ((r : Ref) → p ≡ server r → In r lb.servers)
      → IsShown fl seconds lb.heap lb.servers c
      → IsShown fl seconds
          (accept lb (effects_of ms) p).0.heap
          lb.servers
          (tell_all fl seconds c (accept lb (effects_of ms) p).2)
  unfolding accept tell_all
  accept-IsShown lb c ms nil_server own i shown r j =
      ap (λ g. g (lb.heap r).id) (tell_all-effects_of c ms) ∙ shown r j
  accept-IsShown lb c ms run_time_panic own i shown r j =
      ap (λ g. g (lb.heap r).id) (tell_all-effects_of c ms) ∙ shown r j
  accept-IsShown lb c ms (server q) own i shown r j =
      let h' = increment_conns lb.heap q in
      let c' = tell_all fl seconds c (effects_of ms) in
      let shown' : IsShown fl seconds lb.heap lb.servers c' =
        λ r j. ap (λ g. g (lb.heap r).id) (tell_all-effects_of c ms) ∙ shown r j in
      ap (λ d. d.active_conns (h' r).id)
        (tell_all-append c (effects_of ms) (active_connections h' q ∷ []))
      ∙ tell-IsShown lb.heap h' lb.servers c' q own (increment-ids lb.heap q)
          (increment-others lb.heap q) (i q refl) shown' r j

  pub choose-IsShown :
      (strat : Strategy) (lb : LoadBalancer strat.State) (world : strat.World)
      (c : Collector fl.Carrier) (alive : List Ref)
      → HasOwnIds lb.heap lb.servers
      → ((r : Ref) → (strat.select lb.strategy world lb.heap alive).1 ≡ server r → In r lb.servers)
      → IsShown fl seconds lb.heap lb.servers c
      → IsShown fl seconds
          (choose strat lb world alive).0.heap
          lb.servers
          (tell_all fl seconds c (choose strat lb world alive).2)
  unfolding choose tell_all
  choose-IsShown strat lb world c [] own picks shown = shown
  choose-IsShown strat lb world c (r ∷ rs) own picks shown =
      let (s', p, told) = strat.select lb.strategy world lb.heap (r ∷ rs) in
      accept-IsShown (record lb { strategy = s' }) c told p own picks shown

  -- With one identifier to each server of the list, and each server's gauge at its count, the gauges
  -- are at the counts again after NextServer, if the strategy picks from the list, and after the
  -- release of any server of the list.
  pub gauges_follow :
      (strat : Strategy) (lb : LoadBalancer strat.State) (world : strat.World)
      (c : Collector fl.Carrier) (q : Ref)
      → In q lb.servers
      → HasOwnIds lb.heap lb.servers
      → ((r : Ref)
          → (strat.select lb.strategy world lb.heap (healthy lb.heap lb.servers)).1 ≡ server r
          → In r lb.servers)
      → IsShown fl seconds lb.heap lb.servers c
      → IsShown fl seconds
          (next_server strat lb world).0.heap
          lb.servers
          (tell_all fl seconds c (next_server strat lb world).2)
        × IsShown fl seconds
            (release_server lb q).0.heap
            lb.servers
            (tell_all fl seconds c (release_server lb q).1)
  unfolding next_server
  gauges_follow strat lb world c q i own picks shown = (
    choose-IsShown strat lb world c (healthy lb.heap lb.servers) own picks shown,
    release_server-IsShown lb c q own i shown,
  )
