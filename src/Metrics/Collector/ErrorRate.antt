-- ===== src/Metrics/Collector/ErrorRate.antt =====
-- The error rate of a server after a sequence of requests.
use neura_balancer.Common.{
  ℕ, zero, suc, ◌+◌, ◌≡◌, refl, sym, ap, ◌∙◌, Bool-cases, not, ◌&&◌, if◌then◌else◌, inl, inr, List,
  [], ◌∷◌, ℤ, int_eq, eq_of_int_eq, arith,
}
use neura_balancer.Metrics.Collector.{
  Collector, Request, set_gauge, blend, update_error_rate, record_request,
}
use neura_balancer.Metrics.Float64.{Float64}

abbrev pub iterate {ℓ} : {A : Type ℓ} → ℕ → (A → A) → A → A
iterate zero f a = a
iterate (suc n) f a = iterate n f (f a)

module _ (fl : Float64) where
  unfoldable pub record_requests :
      Collector fl.Carrier → List (Request fl.Carrier) → Collector fl.Carrier
  unfolding record_request
  record_requests c [] = c
  record_requests c (r ∷ rs) = record_requests (record_request fl c r).0 rs

  -- The requests of a server that did not succeed.
  abbrev pub failures : ℤ → List (Request fl.Carrier) → ℕ
  failures id [] = 0
  failures id (r ∷ rs) = (if not r.success && int_eq id r.server_id then 1 else 0) + failures id rs

  blended :
      (g : ℤ → fl.Carrier) (id at : ℤ)
      → set_gauge g at (blend fl (g at)) id
        ≡ iterate (if int_eq id at then 1 else 0) (blend fl) (g id)
  blended g id at = elim (Bool-cases (int_eq id at)) [
    | inl same ↦ rw same (ap (λ a. blend fl (g a)) (sym (eq_of_int_eq id at same)))
    | inr apart ↦ rw apart
  ]

  step :
      (c : Collector fl.Carrier) (id : ℤ) (r : Request fl.Carrier)
      → (record_request fl c r).0.error_rate id
        ≡ iterate
            (if not r.success && int_eq id r.server_id then 1 else 0)
            (blend fl)
            (c.error_rate id)
  unfolding record_request update_error_rate
  step c id r = elim (Bool-cases r.success) [
    | inl well ↦ rw well
    | inr failed ↦ rw failed (blended c.error_rate id r.server_id)
  ]

  pub iterate-iterate :
      (m n : ℕ) (a : fl.Carrier)
      → iterate n (blend fl) (iterate m (blend fl) a) ≡ iterate (m + n) (blend fl) a
  iterate-iterate zero n a = let e : n ≡ 0 + n = omega arith in ap (λ k. iterate k (blend fl) a) e
  iterate-iterate (suc m) n a =
      let e : suc (m + n) ≡ suc m + n = omega arith in
      iterate-iterate m n (blend fl a) ∙ ap (λ k. iterate k (blend fl) a) e

  -- After any requests, the error rate of a server is the blend of the one before, as often as one
  -- of its requests failed: a request that succeeds never lowers it, and the order is of no account.
  pub error_rate-record_requests :
      (c : Collector fl.Carrier) (id : ℤ) (rs : List (Request fl.Carrier))
      → (record_requests c rs).error_rate id ≡ iterate (failures id rs) (blend fl) (c.error_rate id)
  unfolding record_requests
  error_rate-record_requests c id [] = refl
  error_rate-record_requests c id (r ∷ rs) =
      error_rate-record_requests (record_request fl c r).0 id rs
      ∙ ap (iterate (failures id rs) (blend fl)) (step c id r)
      ∙ iterate-iterate (if not r.success && int_eq id r.server_id then 1 else 0) (failures id rs)
          (c.error_rate id)
