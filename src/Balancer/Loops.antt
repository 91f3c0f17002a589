-- ===== src/Balancer/Loops.antt =====
-- `runHealthChecks`, the select loop of `runMetricsPolling`, and `Stop` of
-- backend/internal/loadbalancer/balancer.go. A loop gets the sequence
-- of what its `select` takes, a tick or the closing of `stop`: where both are ready Go takes either, so
-- every order is a run. A tick comes with what other goroutines have made of the balancer until then.
use neura_balancer.Common.{
  Bool, true, false, if◌then◌else◌, Option, none, some, List, [], ◌∷◌, ◌++◌, ℤ, pos, ltb_ℤ, scale,
  wrap_int, ℕ,
}
use neura_balancer.Common.Text.{Text}
use neura_balancer.Balancer.{LoadBalancer, Effect}
use neura_balancer.Balancer.Health.{Attempt, check_all_servers}
use neura_balancer.Balancer.Polling.{poll_servers}
use neura_balancer.Metrics.Collector.{Collector, Polled}
use neura_balancer.Metrics.Float64.{Float64}

pub data LoopEnd : Type 0 where
  waiting : LoopEnd
  returned : LoopEnd
  panicked : LoopEnd

-- `close(lb.stop)`: whether it is closed, and `none` for the panic of a second call.
unfoldable pub stop : Bool → Option Bool
stop true = none
stop false = some true

-- The body of a tick: what was done before it, and what the network answers to its pings.
pub data Wake (S : Type 0) : Type 0 where
  ticked : (LoadBalancer S → LoadBalancer S) → (Text → ℕ → Attempt) → Wake S
  stopped : Wake S

-- The interval in nanoseconds, in 64 bits.
abbrev pub interval : ℤ → ℤ
interval seconds = wrap_int (scale seconds 1_000_000_000)

module _ {S : Type 0} (retries : ℤ) where
  unfoldable pub health_loop :
      LoadBalancer S → List (Wake S) → LoadBalancer S × LoopEnd × List Effect
  health_loop lb [] = (lb, waiting, [])
  health_loop lb (stopped ∷ wakes) = (lb, returned, [])
  health_loop lb (ticked meanwhile network ∷ wakes) =
      let (lb₁, told) = check_all_servers (meanwhile lb) retries network in
      let (lb₂, end, rest) = health_loop lb₁ wakes in (lb₂, end, told ++ rest)

  -- `time.NewTicker` panics with an interval that is not positive.
  unfoldable pub run_health_checks :
      ℤ → LoadBalancer S → List (Wake S) → LoadBalancer S × LoopEnd × List Effect
  unfolding health_loop
  run_health_checks seconds lb wakes =
      if ltb_ℤ (pos 0) (interval seconds) then health_loop lb wakes else (lb, panicked, [])

-- The loop of the metrics poller, at its ticks and at the closing of `stop`.
pub data PollWake (S D : Type 0) : Type 0 where
  ticked : (LoadBalancer S → LoadBalancer S) → (Text → Polled D) → (ℤ → Option D) → PollWake S D
  stopped : PollWake S D

unfoldable pub run_metrics_polling :
    {S : Type 0} (fl : Float64)
    → LoadBalancer S
    → Collector fl.Carrier
    → List (PollWake S fl.Carrier)
    → LoadBalancer S × Collector fl.Carrier × LoopEnd
run_metrics_polling fl lb c [] = (lb, c, waiting)
run_metrics_polling fl lb c (PollWake.stopped ∷ wakes) = (lb, c, returned)
run_metrics_polling fl lb c (PollWake.ticked meanwhile fetch rates ∷ wakes) =
    let lb₁ = meanwhile lb in run_metrics_polling fl lb₁ (poll_servers fl fetch rates lb₁ c) wakes
