-- ===== src/Strategies/WeightedRoundRobin.antt =====
-- `WeightedRoundRobin` of backend/internal/loadbalancer/strategies.go. `current` is the 64-bit
-- pattern of the `int`; the mutex makes each call one step.
pub mod Shares
pub mod Stale
use neura_balancer.Common.{
  ℕ, zero, suc, ◌+◌, ◌%◌, ◌^◌, List, [], ◌∷◌, ◌++◌, length, replicate, ℤ, pos, negsuc, ◌==◌,
  if◌then◌else◌,
}
use neura_balancer.Server.{Ref, Heap}
use neura_balancer.Strategies.Pick.{Pick, nil_server, server, index_mod}

pub record WeightedRoundRobin : Type 0 where
  pub current : ℕ
  pub slots : List Ref
  pub last_pool_size : ℕ

unfoldable pub new_weighted_round_robin : WeightedRoundRobin
new_weighted_round_robin = record { current = 0; slots = []; last_pool_size = 0 }

-- The slots of one server: a weight of 0 or less counts as 1.
unfoldable pub share : ℤ → ℕ
share (pos zero) = 1
share (pos (suc n)) = suc n
share (negsuc n) = 1

unfoldable pub build_slots : Heap → List Ref → List Ref
build_slots h [] = []
build_slots h (r ∷ rs) = replicate (share (h r).weight) r ++ build_slots h rs

-- The slot pool is rebuilt when the length of the list has changed.
unfoldable pub refresh : WeightedRoundRobin → Heap → List Ref → WeightedRoundRobin
refresh w h servers =
    if length servers == w.last_pool_size
    then w
    else record { current = 0; slots = build_slots h servers; last_pool_size = length servers }

-- The pick from the slots; the first server where there are none.
unfoldable pub advance : WeightedRoundRobin → Ref → List Ref → WeightedRoundRobin × Pick
advance w first [] = (w, server first)
advance w first (s ∷ ss) =
    (record w { current = (w.current + 1) % 2 ^ 64 }, index_mod (s ∷ ss) w.current)

unfoldable pub select : WeightedRoundRobin → Heap → List Ref → WeightedRoundRobin × Pick
unfolding refresh advance
select w h [] = (w, nil_server)
select w h (r ∷ rs) = let w' = refresh w h (r ∷ rs) in advance w' r w'.slots
