-- ===== src/Balancer/Sessions.antt =====
-- Requests that overlap: backend/internal/loadbalancer/balancer.go seen as the steps that its
-- goroutines take between their locks, in any order. A request begins with `NextServer`, whose copy
-- of the healthy servers may be old by the time of the choice (`seen`); it may mark its server down,
-- and ends with `ReleaseServer`. The health checks go server by server.
pub mod Counts
use neura_balancer.Common.{
  ◌+◌, ◌≤◌, ◌≡◌, ◌≢◌, false, Bool, not, ◌&&◌, if◌then◌else◌, ◌==◌, List, ◌∷◌, ◌++◌, count, arith,
}
use neura_balancer.Balancer.{Strategy, LoadBalancer, selected, choose, healthy, release_server}
use neura_balancer.Balancer.Health.{check_server, mark_server_down}
use neura_balancer.Server.{Ref, Heap, increment_conns, decrement_conns}

-- `pending` holds the server of each request that has begun and not ended.
pub record System (S : Type 0) : Type 0 where
  pub lb : LoadBalancer S
  pub pending : List Ref

-- What a health check may find: `h r` is the server before, and the truth value is the ping's.
abbrev pub Checks : Type 1
Checks = Heap → Ref → Bool → Type 0

module _ (strat : Strategy) (Allowed : Checks) where
  pub data Step (s t : System strat.State) : Type 0 where
    begins :
        (seen : Heap) (world : strat.World) (r : Ref)
        → (choose strat s.lb world (healthy seen s.lb.servers)).1 ≡ selected r
        → t ≡ record {
          lb = (choose strat s.lb world (healthy seen s.lb.servers)).0;
          pending = r ∷ s.pending;
        }
        → Step s t
    refused :
        (seen : Heap) (world : strat.World)
        → ((r : Ref) → (choose strat s.lb world (healthy seen s.lb.servers)).1 ≢ selected r)
        → t ≡ record {
          lb = (choose strat s.lb world (healthy seen s.lb.servers)).0;
          pending = s.pending;
        }
        → Step s t
    marks_down :
        (r : Ref) → t ≡ record { lb = (mark_server_down s.lb r).0; pending = s.pending } → Step s t
    ends :
        (r : Ref) (before after : List Ref)
        → s.pending ≡ before ++ r ∷ after
        → t ≡ record { lb = (release_server s.lb r).0; pending = before ++ after }
        → Step s t
    checks :
        (r : Ref) (alive : Bool)
        → Allowed s.lb.heap r alive
        → t ≡ record {
          lb = record s.lb { heap = (check_server s.lb.heap r alive).0 };
          pending = s.pending;
        }
        → Step s t

  pub data Reach (s : System strat.State) : System strat.State → Type 0 where
    here : Reach s s
    next : {t u : System strat.State} → Reach s t → Step t u → Reach s u

-- Any answer of a check; or only answers that take no server down that was alive.
abbrev pub any_check : Checks
any_check h r alive = Unit {0}

abbrev pub no_reset : Checks
no_reset h r alive = ((h r).alive && not alive) ≡ false

-- No server counts more open requests than it has; every server counts exactly those that it has.
abbrev pub AtMost : {S : Type 0} → System S → Type 0
AtMost s = (q : Ref) → (s.lb.heap q).connections ≤ count q s.pending

abbrev pub Exact : {S : Type 0} → System S → Type 0
Exact s = (q : Ref) → (s.lb.heap q).connections ≡ count q s.pending

module _ (h : Heap) (r q : Ref) where
  pub conns-increment :
      (increment_conns h r q).connections ≡ (h q).connections + (if q == r then 1 else 0)
  unfolding increment_conns
  conns-increment = ground arith

  pub conns-decrement :
      (decrement_conns h r q).connections + (if q == r then 1 else 0)
      ≡ (if (q == r) && ((h r).connections == 0) then 1 else (h q).connections)
  unfolding decrement_conns
  conns-decrement = ground arith

  pub conns-check_server :
      (alive : Bool)
      → ((check_server h r alive).0 q).connections
        ≡ (if (q == r) && ((h r).alive && not alive) then 0 else (h q).connections)
  unfolding check_server
  conns-check_server alive = ground arith
