-- ===== src/BackendServer/Serving.antt =====
-- The answers of a backend server against the two things that the load balancer asks of it.
use neura_balancer.Common.{ℕ, ◌<◌, ◌≡◌, refl, ap, true, Option, some, List, ℤ, pos_part, arith}
use neura_balancer.Common.Text.{codes, text_eq}
use neura_balancer.Balancer.Health as Checked
use neura_balancer.Balancer.Health.{ping_server}
use neura_balancer.Balancer.Health.Pings.{ping_server_iff}
use neura_balancer.BackendServer.{Rounding, Sampler, handle_metrics, new_sampler, sample_all}
use neura_balancer.BackendServer.Contract.{RoundingLaws, fetch_server_metrics-handle_metrics}
use neura_balancer.BackendServer.Process.{Settings, Body, usages, serve}
use neura_balancer.Metrics.Collector.{Polled, answered, fetch_server_metrics}
use neura_balancer.Metrics.Float64.{Float64}
use neura_balancer.Server.{Server}

-- An answer as it arrives at the collector, whose JSON decoder is an argument.
abbrev pub arrived : {D : Type 0} → (Body D → Option (D × D)) → ℕ × Body D → Polled D
arrived decode (status, body) = answered status (decode body)

serve-metrics :
    {D : Type 0} (c : Settings) (rd : Rounding D) (sm : Sampler D)
    → serve c rd sm (codes "/metrics") ≡ (200, usages (handle_metrics rd sm))
unfolding serve text_eq
serve-metrics c rd sm = refl

serve-health :
    {D : Type 0} (c : Settings) (rd : Rounding D) (sm : Sampler D)
    → (serve c rd sm (codes "/health")).0 ≡ 200
unfolding serve text_eq
serve-health c rd sm = refl

-- After any samples from which a backend server shows numbers (JSON has no other floats), its answer
-- at /metrics is accepted by the collector, with the rounded usages, and its answer at /health lets
-- the balancer's ping succeed, if there is a retry at all. The steps of the rounding must keep the
-- bounds, and JSON must keep a pair of numbers.
pub fetch_server_metrics-serve :
    (fl : Float64) (three_tenths seven_tenths : fl.Carrier) (rd : Rounding fl.Carrier)
    (thousand : fl.Carrier) (decode : Body fl.Carrier → Option (fl.Carrier × fl.Carrier))
    (IsNumber : fl.Carrier → Type 0) (c : Settings) (xs : List (Option (fl.Carrier × fl.Carrier)))
    (retries : ℤ) (s : Server)
    → RoundingLaws fl three_tenths seven_tenths rd thousand
    → ((u : fl.Carrier × fl.Carrier) → IsNumber u.0 → IsNumber u.1 → decode (usages u) ≡ some u)
    → (let shown =
          handle_metrics rd (sample_all fl three_tenths seven_tenths (new_sampler fl) xs) in
        IsNumber shown.0 × IsNumber shown.1)
    → 0 < pos_part retries
    → let sm = sample_all fl three_tenths seven_tenths (new_sampler fl) xs in
      (fetch_server_metrics fl (arrived decode (serve c rd sm (codes "/metrics")))
        ≡ some (handle_metrics rd sm))
      × (ping_server retries (λ url i. Checked.answered (serve c rd sm (codes "/health")).0) s
          ≡ true)
fetch_server_metrics-serve fl three_tenths seven_tenths rd thousand decode IsNumber c xs retries s
      laws keeps numbers tries =
    let sm = sample_all fl three_tenths seven_tenths (new_sampler fl) xs in
    (
      rw (serve-metrics c rd sm, keeps (handle_metrics rd sm) numbers.0 numbers.1)
          (fetch_server_metrics-handle_metrics fl three_tenths seven_tenths rd thousand xs laws),
      (ping_server_iff retries (λ url i. Checked.answered (serve c rd sm (codes "/health")).0) s).1
          (0, tries, ap Checked.answered (serve-health c rd sm), λ j l. absurd (omega arith)),
    )
