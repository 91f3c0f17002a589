-- ===== src/Tests/CollectorCases.antt =====
-- The collector at concrete inputs; floats are numbers of tenths.
use neura_balancer.Common.{
  sum, ◌⊎◌, ◌≤◌, ◌++◌, replicate, ℕ, ◌+◌, ◌*◌, ◌/◌, ◌≡◌, refl, ltb, ◌==◌, false, true, Option, none,
  some, List, [], ◌∷◌, pos, arith,
}
use neura_balancer.Common.Text.{codes}
use neura_balancer.Tests.Fixtures.{backend}
use neura_balancer.BackendServer.Process.{Settings, Body, health_body, usages, identity, serve}
use neura_balancer.BackendServer.Serving.{arrived, fetch_server_metrics-serve}
use neura_balancer.Balancer.Health as Checked
use neura_balancer.Balancer.Health.{ping_server}
use neura_balancer.BackendServer.{new_sampler, sample_all, Rounding, handle_metrics}
use neura_balancer.BackendServer.Contract.{RoundingLaws}
use neura_balancer.Metrics.Collector.{
  Request, answered, new_collector, blend, record_request, update_error_rate,
  get_response_percentile, find_quantile, fetch_server_metrics,
}
use neura_balancer.Metrics.Collector.ErrorRate.{iterate, record_requests}
use neura_balancer.Metrics.Collector.Overlap.{Turn, records, moves, run}
use neura_balancer.Metrics.Collector.Overlap.Blended.{starting, wrote, error_rate-run}
use neura_balancer.Metrics.Collector.Overlap.Orders.{overtaking, error_rate-run_lost}
use neura_balancer.Metrics.Collector.Ranges.{Event, requested, polled}
use neura_balancer.Metrics.Float64.{Float64}

abbrev pub tenths : Float64
tenths = record {
  Carrier = ℕ;
  lt = ltb;
  equal = λ a b. a == b;
  add = λ a b. a + b;
  mul = λ a b. a * b / 10;
  zero_value = 0;
  one_value = 10;
  one_tenth = 1;
  nine_tenths = 9;
  hundred = 1000;
  of_count = λ n. n * 10;
  lt_zero = refl;
  hundred_lt = refl;
  lt_hundred = refl;
}

abbrev pub lost : Request ℕ
lost = record {
  server_id = pos 1;
  method = codes "GET";
  path = codes "/";
  status = 502;
  seconds = 3;
  success = false;
}

abbrev pub won : Request ℕ
won = record lost { status = 200; success = true }

-- One failed request moves the rate from 0 to 0.1, and one that succeeds leaves it there.
rate_stays :
    (record_requests tenths (new_collector tenths) (lost ∷ won ∷ [])).error_rate (pos 1) ≡ 1
unfolding record_requests record_request update_error_rate blend new_collector
rate_stays = refl

-- The percentile of the second server is that of the first.
percentile_of_first :
    get_response_percentile tenths (((9, 40) ∷ []) ∷ ((9, 2) ∷ []) ∷ []) (pos 2) 9 ≡ 40
unfolding get_response_percentile find_quantile
percentile_of_first = refl

-- Three requests at once, of which two fail and one of those is lost.
abbrev at_once : List (Turn tenths)
at_once = records won ∷ (overtaking tenths lost lost ++ replicate 5 (moves 2))

error_rate-run_example :
    let y = run tenths (starting tenths (new_collector tenths)) at_once in
    let w = sum (wrote tenths (pos 1)) y.callers in
    (n : ℕ) × (y.collector.error_rate (pos 1)
      ≡ iterate n (blend tenths) ((new_collector tenths).error_rate (pos 1)))
    × (((n ≡ 0) × (w ≡ 0)) ⊎ ((1 ≤ n) × (n ≤ w)))
error_rate-run_example = error_rate-run tenths (new_collector tenths) (pos 1) at_once

error_rate-run_lost_example :
    (run tenths
        (starting tenths (new_collector tenths))
        (overtaking tenths lost lost)).collector.error_rate
      (pos 1)
    ≡ blend tenths ((new_collector tenths).error_rate (pos 1))
error_rate-run_lost_example =
    error_rate-run_lost tenths (new_collector tenths) lost lost refl refl refl

abbrev told : List (Event ℕ)
told =
    polled (pos 1) none (answered 200 (some (500, 250)))
    ∷ requested lost
    ∷ polled (pos 1) none (answered 200 (some (2000, 0)))
    ∷ []

abbrev samples : List (Option (ℕ × ℕ))
samples = some (5000, 120) ∷ none ∷ some (300, 130) ∷ []

-- Whole numbers of tenths need no rounding.
abbrev rounding : Rounding ℕ
rounding = record { tenfold = λ a. 10 * a; round = λ a. a; tenth = λ a. a / 10 }

rounding-laws : RoundingLaws tenths 3 7 rounding 10000
rounding-laws = record {
  tenfold_low = λ v h. ground arith;
  tenfold_high = λ v h. ground arith;
  round_low = λ v h. h;
  round_high = λ v h. h;
  tenth_low = λ v h. ground arith;
  tenth_high = λ v h. ground arith;
}

abbrev settings : Settings
settings = record { port = codes "8001"; instance_id = codes "backend-8001"; development = false }

abbrev decoded : Body ℕ → Option (ℕ × ℕ)
decoded (usages u) = some u
decoded (health_body id) = some (0, 0)
decoded (identity id port) = some (0, 0)

fetch_server_metrics-serve_example :
    let sm = sample_all tenths 3 7 (new_sampler tenths) samples in
    (fetch_server_metrics tenths (arrived decoded (serve settings rounding sm (codes "/metrics")))
      ≡ some (handle_metrics rounding sm))
    × (ping_server
          (pos 3)
          (λ url i. Checked.answered (serve settings rounding sm (codes "/health")).0)
          (backend 0 0)
        ≡ true)
fetch_server_metrics-serve_example =
    fetch_server_metrics-serve tenths 3 7 rounding 10000 decoded (λ v. Unit) settings samples
      (pos 3) (backend 0 0) rounding-laws (λ u a b. refl) (tt, tt) (omega arith)
