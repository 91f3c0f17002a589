-- ===== src/BackendServer.antt =====
-- backend/cmd/server/main.go: how the sampled usages of a backend server become the metrics that it
-- shows, and its handlers. The samples, the float arithmetic and `math.Round` are arguments.
pub mod Contract
pub mod Process
pub mod Serving
use neura_balancer.Common.{
  ◌≡◌, refl, Bool, Bool-cases, true, false, ◌||◌, if◌then◌else◌, inl, inr, Option, none, some, List,
  [], ◌∷◌,
}
use neura_balancer.Metrics.Collector.{out_of_range, answered, fetch_server_metrics}
use neura_balancer.Metrics.Float64.{Float64}

unfoldable pub clamp : (fl : Float64) → fl.Carrier → fl.Carrier → fl.Carrier → fl.Carrier
clamp fl v low high = if fl.lt v low then low else (if fl.lt high v then high else v)

-- The smoothed usages, `none` before the first sample, and the metrics that are shown.
pub record Sampler (D : Type 0) : Type 0 where
  pub smoothed : Option (D × D)
  pub cpu : D
  pub memory : D

unfoldable pub new_sampler : (fl : Float64) → Sampler fl.Carrier
new_sampler fl = record { smoothed = none; cpu = fl.zero_value; memory = fl.zero_value }

module _ (fl : Float64) (three_tenths seven_tenths : fl.Carrier) where
  abbrev pub smooth : fl.Carrier → fl.Carrier → fl.Carrier
  smooth old current = fl.add (fl.mul seven_tenths old) (fl.mul three_tenths current)

  abbrev pub next_smoothed :
      Option (fl.Carrier × fl.Carrier) → fl.Carrier → fl.Carrier → fl.Carrier × fl.Carrier
  next_smoothed none cpu mem = (cpu, mem)
  next_smoothed (some (old_cpu, old_mem)) cpu mem = (smooth old_cpu cpu, smooth old_mem mem)

  abbrev pub show : fl.Carrier × fl.Carrier → Sampler fl.Carrier
  show (cpu, mem) = record {
    smoothed = some (cpu, mem);
    cpu = clamp fl cpu fl.zero_value fl.hundred;
    memory = clamp fl mem fl.zero_value fl.hundred;
  }

  -- One turn of the loop; a sample that failed is `none`.
  unfoldable pub update_metrics :
      Sampler fl.Carrier → Option (fl.Carrier × fl.Carrier) → Sampler fl.Carrier
  unfolding clamp
  update_metrics s none = s
  update_metrics s (some (cpu, mem)) = show (next_smoothed s.smoothed cpu mem)

  unfoldable pub sample_all :
      Sampler fl.Carrier → List (Option (fl.Carrier × fl.Carrier)) → Sampler fl.Carrier
  unfolding update_metrics
  sample_all s [] = s
  sample_all s (x ∷ xs) = sample_all (update_metrics s x) xs

-- `v * 10`, `math.Round` and `v / 10`.
pub record Rounding (D : Type 0) : Type 0 where
  pub tenfold : D → D
  pub round : D → D
  pub tenth : D → D

unfoldable pub one_decimal : {D : Type 0} → Rounding D → D → D
one_decimal rd v = rd.tenth (rd.round (rd.tenfold v))

-- The body of the handler of /metrics, which answers 200 always.
unfoldable pub handle_metrics : {D : Type 0} → Rounding D → Sampler D → D × D
unfolding one_decimal
handle_metrics rd s = (one_decimal rd s.cpu, one_decimal rd s.memory)
