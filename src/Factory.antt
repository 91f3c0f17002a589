-- ===== src/Factory.antt =====
-- backend/internal/loadbalancer/factory.go, and the strategies as values of the interface.
use neura_balancer.Common.{ℕ, Option, none, some, List, [], ℤ, if◌then◌else◌}
use neura_balancer.Common.Float32.{Float32}
use neura_balancer.Common.Text.{Text, codes, text_eq}
use neura_balancer.Balancer.{Strategy}
use neura_balancer.Metrics.Readings.{Readings}
use neura_balancer.Ml.Lru.{Lru}
use neura_balancer.Ml.Strategy as MlSelect
use neura_balancer.Ml.Strategy.{MlStrategy, MlWorld, new_ml_strategy}
use neura_balancer.Strategies.LeastConnections
use neura_balancer.Strategies.Random
use neura_balancer.Strategies.RoundRobin
use neura_balancer.Strategies.RoundRobin.{RoundRobin, new_round_robin}
use neura_balancer.Strategies.WeightedRoundRobin
use neura_balancer.Strategies.WeightedRoundRobin.{WeightedRoundRobin, new_weighted_round_robin}

abbrev pub round_robin : Strategy
round_robin = record {
  State = RoundRobin;
  World = Unit {0};
  select = λ s world h servers. let (s', p) = RoundRobin.select s servers in (s', p, []);
}

abbrev pub weighted_round_robin : Strategy
weighted_round_robin = record {
  State = WeightedRoundRobin;
  World = Unit {0};
  select = λ s world h servers. let (s', p) = WeightedRoundRobin.select s h servers in (s', p, []);
}

abbrev pub least_connections : Strategy
least_connections = record {
  State = Unit {0};
  World = Unit {0};
  select = λ s world h servers. (s, LeastConnections.select h servers, []);
}

-- The world of a call is what `rand.Intn` draws.
abbrev pub random : Strategy
random = record {
  State = Unit {0};
  World = ℕ → ℕ;
  select = λ s intn h servers. (s, Random.select intn servers, []);
}

module _ (fl : Float32) (D : Type 0) (format_float : D → Text) (lru : Lru (List fl.Carrier)) where
  abbrev pub ml : Strategy
  ml = record {
    State = MlStrategy lru.Cache;
    World = MlWorld fl.Carrier D × Readings D;
    select = λ s world h servers.
        let outcome = MlSelect.select fl format_float lru s world.0 h world.1 servers in
        (outcome.strategy, outcome.pick, outcome.calls);
  }

  -- A strategy with its first state.
  abbrev pub Started : Type 1
  Started = (strat : Strategy) × strat.State

  -- `reset_sec` and `cache_size` are the fields of the configuration that the ML strategy reads.
  unfoldable pub new_strategy : Text → ℤ → ℤ → Option Started
  new_strategy name reset_sec cache_size =
      if text_eq name (codes "round_robin")
      then some (round_robin, new_round_robin)
      else (if text_eq name (codes "weighted_round_robin")
          then some (weighted_round_robin, new_weighted_round_robin)
          else (if text_eq name (codes "least_connections")
              then some (least_connections, tt)
              else (if text_eq name (codes "random")
                  then some (random, tt)
                  else (if text_eq name (codes "ml")
                      then some (ml, new_ml_strategy lru reset_sec cache_size)
                      else none))))
