-- ===== src/Tests/StrategyCases.antt =====
-- The strategies without a model, at the inputs of
-- backend/internal/loadbalancer/strategies_test.go.
use neura_balancer.Common.{◌*◌, ◌^◌, ◌≡◌, refl, [], ◌∷◌, length, count, arith}
use neura_balancer.Strategies.LeastConnections
use neura_balancer.Strategies.LeastConnections.{scan}
use neura_balancer.Strategies.Pick.{nil_server, server, run_time_panic, index_mod, picks, hits}
use neura_balancer.Strategies.RoundRobin
use neura_balancer.Strategies.RoundRobin.{RoundRobin}
use neura_balancer.Strategies.RoundRobin.Fairness.{hits-picks_even, select_panics}
use neura_balancer.Strategies.WeightedRoundRobin
use neura_balancer.Strategies.WeightedRoundRobin.{
  WeightedRoundRobin, new_weighted_round_robin, build_slots, share,
}
use neura_balancer.Strategies.WeightedRoundRobin.Shares.{settled, hits-picks_weighted}
use neura_balancer.Tests.Fixtures.{fleet, weighted, three}

empty_pool : (RoundRobin.select (record { counter = 0 }) []).1 ≡ nil_server
unfolding RoundRobin.select
empty_pool = refl

fewest : LeastConnections.select fleet three ≡ server 1
unfolding LeastConnections.select
fewest = refl

three_to_one :
    hits 0
      (picks (λ w. WeightedRoundRobin.select w weighted (0 ∷ 1 ∷ [])) 400 new_weighted_round_robin)
    ≡ 300
unfolding hits picks WeightedRoundRobin.select new_weighted_round_robin build_slots share index_mod
three_to_one = refl

hits-picks_even_example :
    hits 1 (picks (λ st. RoundRobin.select st three) (100 * length three) (record { counter = 7 }))
    ≡ 100 * count 1 three
hits-picks_even_example = hits-picks_even three 1 100 7 (omega arith) (omega arith)

select_panics_example : (RoundRobin.select (record { counter = 2 ^ 63 }) three).1 ≡ run_time_panic
select_panics_example =
    select_panics (2 ^ 63) three (omega arith) (omega arith) (omega arith) (omega arith)

hits-picks_weighted_example :
    hits 0 (
      picks
        (λ w. WeightedRoundRobin.select w weighted three)
        (100 * length (build_slots weighted three))
        (settled weighted three 2))
    ≡ 100 * (count 0 three * share (weighted 0).weight)
unfolding build_slots share
hits-picks_weighted_example = hits-picks_weighted weighted three 0 100 2 (omega arith) (omega arith)
