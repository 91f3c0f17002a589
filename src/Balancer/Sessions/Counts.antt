-- ===== src/Balancer/Sessions/Counts.antt =====
-- The counts of open requests under every interleaving.
use neura_balancer.Common.{
  ◌+◌, ◌≡◌, if◌then◌else◌, ◌==◌, ==_iff, List, ◌∷◌, ◌++◌, count, count-append, arith,
}
use neura_balancer.Balancer.{Strategy, LoadBalancer, selected, healthy, choose, release_server}
use neura_balancer.Balancer.Health.{mark_server_down}
use neura_balancer.Balancer.Selection.{choose_selected, heap-choose_refused}
use neura_balancer.Balancer.Sessions.{
  System, Step, begins, refused, marks_down, ends, checks, Reach, here, next, any_check, no_reset,
  AtMost, Exact, conns-increment, conns-decrement, conns-check_server,
}
use neura_balancer.Server.{Ref}

pub conns-mark_server_down :
    {S : Type 0} (lb : LoadBalancer S) (r q : Ref)
    → ((mark_server_down lb r).0.heap q).connections ≡ (lb.heap q).connections
unfolding mark_server_down
conns-mark_server_down lb r q = ground arith

module _ (strat : Strategy) where
  conns-choose :
      (lb : LoadBalancer strat.State) (world : strat.World) (alive : List Ref) (r q : Ref)
      → (choose strat lb world alive).1 ≡ selected r
      → ((choose strat lb world alive).0.heap q).connections
        ≡ (lb.heap q).connections + (if q == r then 1 else 0)
  conns-choose lb world alive r q e =
      rw ((choose_selected strat lb world alive r e).1) (conns-increment lb.heap r q)

  count-split :
      (q r : Ref) (pending before after : List Ref)
      → pending ≡ before ++ r ∷ after
      → count q pending ≡ (if q == r then 1 else 0) + count q (before ++ after)
  count-split q r pending before after split =
      rw split (omega (arith, count-append q before (r ∷ after), count-append q before after))

  Step-AtMost : (s t : System strat.State) → Step strat any_check s t → AtMost s → AtMost t
  unfolding release_server
  Step-AtMost s t (begins seen world r e eq) inv q =
      rw eq (omega (arith, conns-choose s.lb world (healthy seen s.lb.servers) r q e, inv q))
  Step-AtMost s t (refused seen world never eq) inv q =
      rw (eq, heap-choose_refused strat s.lb world (healthy seen s.lb.servers) never) (inv q)
  Step-AtMost s t (marks_down r eq) inv q = rw (eq, conns-mark_server_down s.lb r q) (inv q)
  Step-AtMost s t (ends r before after split eq) inv q = rw eq (
      ground
        (arith, conns-decrement s.lb.heap r q, inv q, count-split q r s.pending before after split))
  Step-AtMost s t (checks r alive ok eq) inv q =
      rw eq (ground (arith, conns-check_server s.lb.heap r q alive, inv q))

  -- In every interleaving, with any answers of the health checks, no server counts more open
  -- requests than it has, if that holds at the start.
  pub Reach-AtMost : (s t : System strat.State) → AtMost s → Reach strat any_check s t → AtMost t
  Reach-AtMost s t inv here = inv
  Reach-AtMost s t inv (next {t = u} reach step) = Step-AtMost u t step (Reach-AtMost s u inv reach)

  Step-Exact : (s t : System strat.State) → Step strat no_reset s t → Exact s → Exact t
  unfolding release_server
  Step-Exact s t (begins seen world r e eq) inv q =
      rw eq (omega (arith, conns-choose s.lb world (healthy seen s.lb.servers) r q e, inv q))
  Step-Exact s t (refused seen world never eq) inv q =
      rw (eq, heap-choose_refused strat s.lb world (healthy seen s.lb.servers) never) (inv q)
  Step-Exact s t (marks_down r eq) inv q = rw (eq, conns-mark_server_down s.lb r q) (inv q)
  Step-Exact s t (ends r before after split eq) inv q = rw eq (
      ground (
        arith,
        conns-decrement s.lb.heap r q,
        inv q,
        inv r,
        ==_iff q r,
        count-split q r s.pending before after split,
        count-split r r s.pending before after split,
      ))
  Step-Exact s t (checks r alive ok eq) inv q =
      rw eq (ground (arith, conns-check_server s.lb.heap r q alive, inv q))

  -- In every interleaving where no health check takes down a server that was alive, each server
  -- counts exactly the requests that are open on it, if that holds at the start.
  pub Reach-Exact : (s t : System strat.State) → Exact s → Reach strat no_reset s t → Exact t
  Reach-Exact s t inv here = inv
  Reach-Exact s t inv (next {t = u} reach step) = Step-Exact u t step (Reach-Exact s u inv reach)
