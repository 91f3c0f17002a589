-- ===== src/Balancer/Polling.antt =====
-- `runMetricsPolling` of backend/internal/loadbalancer/balancer.go: what one tick does. How the
-- exchange with a server's /metrics goes, and the success rates of the database, are arguments.
use neura_balancer.Common.{
  ℕ, ◌≡◌, refl, ◌∙◌, Bool, Bool-cases, true, false, ◌&&◌, if◌then◌else◌, inl, inr, Option, none,
  some, List, [], ◌∷◌, ℤ, pos, negsuc, ltb_ℤ, int_eq, arith,
}
use neura_balancer.Common.Text.{Text}
use neura_balancer.Balancer.{LoadBalancer}
use neura_balancer.Metrics.Collector.{
  Collector, Polled, fetch_server_metrics, set_server_metrics, update_server_metrics,
}
use neura_balancer.Metrics.Float64.{Float64}
use neura_balancer.Server.{Server, Ref, Heap}

unfoldable pub is_polled : Server → Bool
is_polled s = s.alive && ltb_ℤ (pos 0) s.id

module _ (fl : Float64) (fetch : Text → Polled fl.Carrier) (rates : ℤ → Option fl.Carrier) where
  unfoldable pub poll_one : Heap → Collector fl.Carrier → Ref → Collector fl.Carrier
  unfolding is_polled
  poll_one h c r =
      if is_polled (h r)
      then (update_server_metrics fl c (h r).id (rates (h r).id) (fetch (h r).url)).0
      else c

  unfoldable pub poll_from : Heap → Collector fl.Carrier → List Ref → Collector fl.Carrier
  unfolding poll_one
  poll_from h c [] = c
  poll_from h c (r ∷ rs) = poll_from h (poll_one h c r) rs

  unfoldable pub poll_servers :
      {S : Type 0} → LoadBalancer S → Collector fl.Carrier → Collector fl.Carrier
  unfolding poll_from
  poll_servers lb c = poll_from lb.heap c lb.servers

  set_server_metrics-other :
      (c : Collector fl.Carrier) (id other : ℤ) (rate : Option fl.Carrier)
      (values : Option (fl.Carrier × fl.Carrier))
      → int_eq other id ≡ false
      → (set_server_metrics fl c id rate values).0.cpu_usage other ≡ c.cpu_usage other
  unfolding set_server_metrics
  set_server_metrics-other c id other rate none h = refl
  set_server_metrics-other c id other rate (some (cpu, mem)) h = rw h

  negative-other : (k : ℕ) (id : ℤ) → ltb_ℤ (pos 0) id ≡ true → int_eq (negsuc k) id ≡ false
  negative-other k (pos n) h = ground arith
  negative-other k (negsuc n) h = absurd (ground arith)

  poll_one-negative :
      (h : Heap) (c : Collector fl.Carrier) (r : Ref) (k : ℕ)
      → (poll_one h c r).cpu_usage (negsuc k) ≡ c.cpu_usage (negsuc k)
  unfolding poll_one is_polled update_server_metrics
  poll_one-negative h c r k = elim (Bool-cases (h r).alive) [
    | inr down ↦ rw down
    | inl up ↦ elim (Bool-cases (ltb_ℤ (pos 0) (h r).id)) [
      | inr unknown ↦ rw (up, unknown)
      | inl known ↦
          rw (up, known)
            (set_server_metrics-other c (h r).id (negsuc k) (rates (h r).id)
              (fetch_server_metrics fl (fetch (h r).url)) (negative-other k (h r).id known))
    ]
  ]

  poll_from-negative :
      (h : Heap) (c : Collector fl.Carrier) (rs : List Ref) (k : ℕ)
      → (poll_from h c rs).cpu_usage (negsuc k) ≡ c.cpu_usage (negsuc k)
  unfolding poll_from
  poll_from-negative h c [] k = refl
  poll_from-negative h c (r ∷ rs) k =
      poll_from-negative h (poll_one h c r) rs k ∙ poll_one-negative h c r k

  -- A server that the database does not know has a negative identifier, and no poll ever changes
  -- its processor usage.
  pub poll_servers-negative :
      {S : Type 0} (lb : LoadBalancer S) (c : Collector fl.Carrier) (k : ℕ)
      → (poll_servers lb c).cpu_usage (negsuc k) ≡ c.cpu_usage (negsuc k)
  unfolding poll_servers
  poll_servers-negative lb c k = poll_from-negative lb.heap c lb.servers k
