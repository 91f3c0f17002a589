-- ===== src/Strategies/LeastConnections.antt =====
-- `LeastConnections` of backend/internal/loadbalancer/strategies.go.
pub mod Minimal
use neura_balancer.Common.{
  Bool, true, false, ◌||◌, Option, none, some, List, [], ◌∷◌, ℤ, pos, negsuc, ltb_ℤ, if◌then◌else◌,
}
use neura_balancer.Server.{Ref, Heap}
use neura_balancer.Strategies.Pick.{Pick, nil_server, server}

abbrev is_nil : Option Ref → Bool
is_nil none = true
is_nil (some r) = false

-- The loop, from the best server so far and its count of connections.
unfoldable pub scan : Heap → Option Ref → ℤ → List Ref → Option Ref
scan h best best_conns [] = best
scan h best best_conns (r ∷ rs) =
    let conns = pos (h r).connections in
    let better = is_nil best || ltb_ℤ conns best_conns in
    scan h (if better then some r else best) (if better then conns else best_conns) rs

abbrev pub or_nil : Option Ref → Pick
or_nil none = nil_server
or_nil (some r) = server r

unfoldable pub select : Heap → List Ref → Pick
unfolding scan
select h servers = or_nil (scan h none (negsuc 0) servers)
