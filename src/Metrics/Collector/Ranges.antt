-- ===== src/Metrics/Collector/Ranges.antt =====
-- The usages that the collector shows stay in their range.
use neura_balancer.Common.{
  ℕ, ◌≡◌, Bool, Bool-cases, false, inl, inr, Option, none, some, List, [], ◌∷◌, ℤ, int_eq, ◌==◌,
}
use neura_balancer.Metrics.Collector.{
  Collector, Request, Gauges, set_gauge, Polled, not_created, not_answered, answered, new_collector,
  update_error_rate, record_request, out_of_range, fetch_server_metrics, set_server_metrics,
  update_server_metrics, set_active_connections, record_ml_inference, record_ml_error,
  record_ml_cache_hit, record_ml_cache_miss, set_circuit_open,
}
use neura_balancer.Metrics.Float64.{Float64}

-- A call of the collector that changes it.
pub data Event (D : Type 0) : Type 0 where
  requested : Request D → Event D
  polled : ℤ → Option D → Polled D → Event D
  connections : ℤ → ℕ → Event D
  inferred : D → Event D
  ml_error : Event D
  cache_hit : Event D
  cache_miss : Event D
  circuit : Bool → Event D

module _ (fl : Float64) where
  unfoldable pub handle : Collector fl.Carrier → Event fl.Carrier → Collector fl.Carrier
  unfolding record_request update_server_metrics set_active_connections record_ml_inference
      record_ml_error record_ml_cache_hit record_ml_cache_miss set_circuit_open
  handle c (requested r) = (record_request fl c r).0
  handle c (polled id rate p) = (update_server_metrics fl c id rate p).0
  handle c (connections id n) = set_active_connections fl c id n
  handle c (inferred seconds) = record_ml_inference fl c seconds
  handle c ml_error = record_ml_error fl c
  handle c cache_hit = record_ml_cache_hit fl c
  handle c cache_miss = record_ml_cache_miss fl c
  handle c (circuit tripped) = set_circuit_open fl c tripped

  unfoldable pub run : Collector fl.Carrier → List (Event fl.Carrier) → Collector fl.Carrier
  unfolding handle
  run c [] = c
  run c (e ∷ es) = run (handle c e) es

  abbrev InRange : Gauges fl.Carrier → Type 0
  InRange g = (id : ℤ) → out_of_range fl (g id) ≡ false

  abbrev UsagesInRange : Collector fl.Carrier → Type 0
  UsagesInRange c = InRange c.cpu_usage × InRange c.memory_usage

  set_gauge-InRange :
      (g : Gauges fl.Carrier) (id : ℤ) (v : fl.Carrier)
      → InRange g
      → out_of_range fl v ≡ false
      → InRange (set_gauge g id v)
  set_gauge-InRange g id v all h other = elim (Bool-cases (int_eq other id)) [
    | inl same ↦ rw same h
    | inr apart ↦ rw apart (all other)
  ]

  abbrev Accepted : Option (fl.Carrier × fl.Carrier) → Type 0
  Accepted none = Unit
  Accepted (some (cpu, mem)) = (out_of_range fl cpu ≡ false) × (out_of_range fl mem ≡ false)

  fetch_server_metrics-Accepted : (p : Polled fl.Carrier) → Accepted (fetch_server_metrics fl p)
  unfolding fetch_server_metrics
  fetch_server_metrics-Accepted not_created = tt
  fetch_server_metrics-Accepted not_answered = tt
  fetch_server_metrics-Accepted (answered status none) = tt
  fetch_server_metrics-Accepted (answered status (some (cpu, mem))) =
      elim (Bool-cases (status == 200)) [
        | inr refused ↦ rw refused tt
        | inl fine ↦ elim (Bool-cases (out_of_range fl cpu)) [
          | inl high ↦ rw (fine, high) tt
          | inr low ↦ elim (Bool-cases (out_of_range fl mem)) [
            | inl full ↦ rw (fine, low, full) tt
            | inr free ↦ rw (fine, low, free) (low, free)
          ]
        ]
      ]

  set_server_metrics-InRange :
      (c : Collector fl.Carrier) (id : ℤ) (rate : Option fl.Carrier)
      (values : Option (fl.Carrier × fl.Carrier))
      → Accepted values
      → UsagesInRange c
      → UsagesInRange (set_server_metrics fl c id rate values).0
  unfolding set_server_metrics
  set_server_metrics-InRange c id rate none h all = all
  set_server_metrics-InRange c id rate (some (cpu, mem)) h all = (
    set_gauge-InRange c.cpu_usage id cpu all.0 h.0,
    set_gauge-InRange c.memory_usage id mem all.1 h.1,
  )

  record_request-InRange :
      (c : Collector fl.Carrier) (r : Request fl.Carrier)
      → UsagesInRange c
      → UsagesInRange (record_request fl c r).0
  unfolding record_request update_error_rate
  record_request-InRange c r all = elim (Bool-cases r.success) [
    | inl well ↦ rw well all
    | inr failed ↦ rw failed all
  ]

  handle-InRange :
      (c : Collector fl.Carrier) (e : Event fl.Carrier)
      → UsagesInRange c
      → UsagesInRange (handle c e)
  unfolding handle update_server_metrics set_active_connections record_ml_inference record_ml_error
      record_ml_cache_hit record_ml_cache_miss set_circuit_open
  handle-InRange c (requested r) all = record_request-InRange c r all
  handle-InRange c (polled id rate p) all =
      set_server_metrics-InRange c id rate (fetch_server_metrics fl p)
        (fetch_server_metrics-Accepted p) all
  handle-InRange c (connections id n) all = all
  handle-InRange c (inferred seconds) all = all
  handle-InRange c ml_error all = all
  handle-InRange c cache_hit all = all
  handle-InRange c cache_miss all = all
  handle-InRange c (circuit tripped) all = all

  run-InRange :
      (c : Collector fl.Carrier) (es : List (Event fl.Carrier))
      → UsagesInRange c
      → UsagesInRange (run c es)
  unfolding run
  run-InRange c [] all = all
  run-InRange c (e ∷ es) all = run-InRange (handle c e) es (handle-InRange c e all)

  new_collector-InRange : UsagesInRange (new_collector fl)
  unfolding new_collector
  new_collector-InRange =
      ((λ id. rw (fl.lt_zero, fl.hundred_lt)), (λ id. rw (fl.lt_zero, fl.hundred_lt)))

  -- Whatever the collector of a new balancer is told, no usage of processor or memory that it shows
  -- is below 0 or above 100.
  pub usages_in_range :
      (es : List (Event fl.Carrier)) (id : ℤ)
      → (out_of_range fl ((run (new_collector fl) es).cpu_usage id) ≡ false)
        × (out_of_range fl ((run (new_collector fl) es).memory_usage id) ≡ false)
  usages_in_range es id =
      let (cpu, mem) = run-InRange (new_collector fl) es new_collector-InRange in (cpu id, mem id)
