-- ===== src/Balancer/Selection/StaleSlots.antt =====
-- Weighted round robin keeps slots of servers that have left the healthy list, and `NextServer`
-- returns them.
use neura_balancer.Common.{
  ℕ, ◌%◌, ◌^◌, ◌<◌, ◌≡◌, ◌∙◌, sym, false, some, List, length, get_elem?, arith,
}
use neura_balancer.Balancer.{LoadBalancer, selected, healthy, next_server}
use neura_balancer.Balancer.Selection.Alive.{ReturnsAlive, next_server_picks}
use neura_balancer.Factory.{weighted_round_robin}
use neura_balancer.Server.{Ref, Heap}
use neura_balancer.Strategies.WeightedRoundRobin.{WeightedRoundRobin, build_slots}
use neura_balancer.Strategies.WeightedRoundRobin.Shares.{settled, select_settled}

selected_injective : {q r : Ref} → selected q ≡ selected r → q ≡ r
selected_injective e = cc

module _ (lb : LoadBalancer WeightedRoundRobin) (h : Heap) (old : List Ref) (c : ℕ) (r : Ref)
    (built : lb.strategy ≡ settled h old c) (some_server : 0 < length old)
    (same_length : length (healthy lb.heap lb.servers) ≡ length old) (small : c < 2 ^ 63)
    (slot : get_elem? (build_slots h old) (c % length (build_slots h old)) ≡ some r) where
  -- While the healthy list has the length of the list that the slots were built from, the server of
  -- the next slot is returned, whatever its state.
  pub next_server_slot : (next_server weighted_round_robin lb tt).1 ≡ selected r
  next_server_slot = next_server_picks weighted_round_robin lb tt r (omega arith) (
      rw built (
        rw (
          select_settled h lb.heap old (healthy lb.heap lb.servers) c some_server same_length small,
          slot,
        )))

  -- So where that server is down, the server that is returned is not alive.
  pub next_server_returns_down :
      (lb.heap r).alive ≡ false → ¬ ReturnsAlive weighted_round_robin lb tt
  next_server_returns_down down alive =
      let same : r ≡ alive.0 = selected_injective (sym next_server_slot ∙ alive.1) in cc
