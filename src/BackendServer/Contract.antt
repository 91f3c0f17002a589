-- ===== src/BackendServer/Contract.antt =====
-- The metrics of a backend server against the checks of the load balancer's collector.
use neura_balancer.Common.{
  ◌≡◌, Bool, Bool-cases, ◌||◌, arith, false, inl, inr, Option, none, some, List, [], ◌∷◌,
}
use neura_balancer.BackendServer.{
  clamp, Sampler, next_smoothed, update_metrics, sample_all, new_sampler, Rounding, one_decimal,
  handle_metrics,
}
use neura_balancer.Metrics.Collector.{out_of_range, answered, fetch_server_metrics}
use neura_balancer.Metrics.Float64.{Float64}

module _ (fl : Float64) (three_tenths seven_tenths : fl.Carrier) where
  clamp-range : (v : fl.Carrier) → out_of_range fl (clamp fl v fl.zero_value fl.hundred) ≡ false
  unfolding clamp
  clamp-range v = elim (Bool-cases (fl.lt v fl.zero_value)) [
    | inl below ↦ rw (below, fl.lt_zero, fl.hundred_lt)
    | inr above ↦ elim (Bool-cases (fl.lt fl.hundred v)) [
      | inl over ↦ rw (above, over, fl.hundred_lt, fl.lt_hundred)
      | inr under ↦ rw (above, under, above, under)
    ]
  ]

  abbrev Shown : Sampler fl.Carrier → Type 0
  Shown s = (out_of_range fl s.cpu ≡ false) × (out_of_range fl s.memory ≡ false)

  update_metrics-Shown :
      (s : Sampler fl.Carrier) (x : Option (fl.Carrier × fl.Carrier))
      → Shown s
      → Shown (update_metrics fl three_tenths seven_tenths s x)
  unfolding update_metrics
  update_metrics-Shown s none h = h
  update_metrics-Shown s (some (cpu, mem)) h =
      let next = next_smoothed fl three_tenths seven_tenths s.smoothed cpu mem in
      (clamp-range next.0, clamp-range next.1)

  sample_all-Shown :
      (s : Sampler fl.Carrier) (xs : List (Option (fl.Carrier × fl.Carrier)))
      → Shown s
      → Shown (sample_all fl three_tenths seven_tenths s xs)
  unfolding sample_all
  sample_all-Shown s [] h = h
  sample_all-Shown s (x ∷ xs) h =
      sample_all-Shown (update_metrics fl three_tenths seven_tenths s x) xs
        (update_metrics-Shown s x h)

  new_sampler-Shown : Shown (new_sampler fl)
  unfolding new_sampler
  new_sampler-Shown = (rw (fl.lt_zero, fl.hundred_lt), rw (fl.lt_zero, fl.hundred_lt))

  -- The laws of rounding: each of its steps keeps a value between the bounds, of which `thousand`
  -- is ten times the upper one.
  pub record RoundingLaws (rd : Rounding fl.Carrier) (thousand : fl.Carrier) : Type 0 where
    pub tenfold_low :
        (v : fl.Carrier)
        → fl.lt v fl.zero_value ≡ false
        → fl.lt (rd.tenfold v) fl.zero_value ≡ false
    pub tenfold_high :
        (v : fl.Carrier) → fl.lt fl.hundred v ≡ false → fl.lt thousand (rd.tenfold v) ≡ false
    pub round_low :
        (v : fl.Carrier) → fl.lt v fl.zero_value ≡ false → fl.lt (rd.round v) fl.zero_value ≡ false
    pub round_high :
        (v : fl.Carrier) → fl.lt thousand v ≡ false → fl.lt thousand (rd.round v) ≡ false
    pub tenth_low :
        (v : fl.Carrier) → fl.lt v fl.zero_value ≡ false → fl.lt (rd.tenth v) fl.zero_value ≡ false
    pub tenth_high :
        (v : fl.Carrier) → fl.lt thousand v ≡ false → fl.lt fl.hundred (rd.tenth v) ≡ false

  or_false : (a b : Bool) → (a || b) ≡ false → (a ≡ false) × (b ≡ false)
  or_false a b h = ground arith

  one_decimal-range :
      (rd : Rounding fl.Carrier) (thousand : fl.Carrier) (v : fl.Carrier)
      → RoundingLaws rd thousand
      → out_of_range fl v ≡ false
      → out_of_range fl (one_decimal rd v) ≡ false
  unfolding one_decimal
  one_decimal-range rd thousand v laws h =
      let (low, high) = or_false (fl.lt v fl.zero_value) (fl.lt fl.hundred v) h in
      rw (
        laws.tenth_low _ (laws.round_low _ (laws.tenfold_low v low)),
        laws.tenth_high _ (laws.round_high _ (laws.tenfold_high v high)),
      )

  accepts :
      (a b : fl.Carrier)
      → out_of_range fl a ≡ false
      → out_of_range fl b ≡ false
      → fetch_server_metrics fl (answered 200 (some (a, b))) ≡ some (a, b)
  unfolding fetch_server_metrics
  accepts a b h k = rw (h, k)

  -- Whatever a backend server samples, the rounded usages that its /metrics shows are accepted by the
  -- collector when they arrive with status 200. The steps of the rounding must keep the bounds.
  pub fetch_server_metrics-handle_metrics :
      (rd : Rounding fl.Carrier) (thousand : fl.Carrier)
      (xs : List (Option (fl.Carrier × fl.Carrier)))
      → RoundingLaws rd thousand
      → fetch_server_metrics fl (
          answered 200 (
            some (handle_metrics rd (sample_all fl three_tenths seven_tenths (new_sampler fl) xs))))
        ≡ some (handle_metrics rd (sample_all fl three_tenths seven_tenths (new_sampler fl) xs))
  unfolding handle_metrics
  fetch_server_metrics-handle_metrics rd thousand xs laws =
      let s = sample_all fl three_tenths seven_tenths (new_sampler fl) xs in
      let (cpu, mem) = sample_all-Shown (new_sampler fl) xs new_sampler-Shown in
      accepts (one_decimal rd s.cpu) (one_decimal rd s.memory)
        (one_decimal-range rd thousand s.cpu laws cpu)
        (one_decimal-range rd thousand s.memory laws mem)
