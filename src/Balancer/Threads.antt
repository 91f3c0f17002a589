-- ===== src/Balancer/Threads.antt =====
-- The goroutines of backend/internal/loadbalancer/balancer.go, an access to shared state at a time:
-- the requests of `ProxyRequest`, in any number, beside the rounds of `checkAllServers`, which hold
-- `lb.mu` from their beginning to their end. Between two steps of one goroutine any others may move; a
-- call of `Select` is one step.
pub mod Counts
pub mod Alone
pub mod Progress
pub mod Waiting
pub mod Race
pub mod Service
use neura_balancer.Common.{
  ℕ, zero, suc, Bool, true, false, if◌then◌else◌, ltb, Option, none, some, List, [], ◌∷◌, ◌++◌,
  get_elem?, set_elem,
}
use neura_balancer.Balancer.{
  Strategy, LoadBalancer, Effect, record_request, set_active_connections, effects_of, healthy,
}
use neura_balancer.Balancer.Health.{check_server, mark_server_down}
use neura_balancer.Balancer.Proxy.{Request, Forwarded, not_created, not_answered, answered}
use neura_balancer.Server.{Ref, Heap, increment_conns, decrement_conns}
use neura_balancer.Strategies.Pick.{Pick, nil_server, server, run_time_panic}

-- Where a request stands, with the local variables that are live there.
pub data Phase : Type 0 where
  arrived : Phase  -- before the copy of the healthy servers
  copied : List Ref → Phase  -- before `Select`
  picked : Ref → Phase  -- before `incrementConns`
  counted : Ref → Phase  -- before `selected.Connections` is read for the gauge
  telling : Ref → ℕ → Phase  -- before `SetActiveConnections`
  forwarding : Ref → Phase
  failed : Ref → Phase  -- before `markServerDown`
  leaving : Ref → Phase  -- before `decrementConns`, in the deferred `ReleaseServer`
  released : Ref → Phase  -- before `s.Connections` is read for the gauge
  retelling : Ref → ℕ → Phase
  finished : Phase

-- What a step of a request meets. `Select` reads the servers while others change them: `seen` is what
-- it finds, and `outcome` is how the exchange with the server has ended, if it has: there is no
-- timeout on it.
pub record Input (strat : Strategy) : Type 0 where
  pub seen : Heap
  pub world : strat.World
  pub request : Request
  pub outcome : Option Forwarded

abbrev pub after_pick : Pick → Phase
after_pick nil_server = finished
after_pick run_time_panic = finished
after_pick (server r) = picked r

abbrev pub after_forward : Ref → Forwarded → Phase
after_forward r not_created = leaving r
after_forward r not_answered = failed r
after_forward r (answered resp) = leaving r

abbrev pub recorded : Heap → Ref → Request → Forwarded → List Effect
recorded h r req not_created = []
recorded h r req not_answered = record_request (h r).id req.method req.path 502 false ∷ []
recorded h r req (answered resp) =
    record_request (h r).id req.method req.path resp.status (ltb resp.status 500) ∷ []

abbrev pub advance :
    {S : Type 0}
    → LoadBalancer S
    → Ref
    → Request
    → Option Forwarded
    → Option (LoadBalancer S × Phase × List Effect)
advance lb r req none = none
advance lb r req (some f) = some (lb, after_forward r f, recorded lb.heap r req f)

-- One step of a request, where it can make one (what it writes to its client is its own affair); `locked` is whether a round of checks holds `lb.mu`.
unfoldable pub move :
    (strat : Strategy)
    → Input strat
    → LoadBalancer strat.State
    → Bool
    → Phase
    → Option (LoadBalancer strat.State × Phase × List Effect)
move strat x lb locked arrived =
    if locked then none else some (lb, copied (healthy lb.heap lb.servers), [])
move strat x lb locked (copied []) = some (lb, finished, [])
move strat x lb locked (copied (r ∷ rs)) =
    let (s', p, told) = strat.select lb.strategy x.world x.seen (r ∷ rs) in
    some (record lb { strategy = s' }, after_pick p, effects_of told)
move strat x lb locked (picked r) =
    some (record lb { heap = increment_conns lb.heap r }, counted r, [])
move strat x lb locked (counted r) = some (lb, telling r (lb.heap r).connections, [])
move strat x lb locked (telling r n) =
    some (lb, forwarding r, set_active_connections (lb.heap r).id n ∷ [])
move strat x lb locked (forwarding r) = advance lb r x.request x.outcome
move strat x lb locked (failed r) =
    if locked
    then none
    else (let (lb', told) = mark_server_down lb r in some (lb', leaving r, told))
move strat x lb locked (leaving r) =
    some (record lb { heap = decrement_conns lb.heap r }, released r, [])
move strat x lb locked (released r) = some (lb, retelling r (lb.heap r).connections, [])
move strat x lb locked (retelling r n) =
    some (lb, finished, set_active_connections (lb.heap r).id n ∷ [])
move strat x lb locked finished = none

-- `round` holds the servers that a round of checks still has to ping. `told` is what the collector
-- and the database have been told.
pub record System (S : Type 0) : Type 0 where
  pub lb : LoadBalancer S
  pub round : Option (List Ref)
  pub threads : List Phase
  pub told : List Effect

abbrev pub is_locked : Option (List Ref) → Bool
is_locked none = false
is_locked (some rs) = true

abbrev pub settle :
    {S : Type 0} → System S → ℕ → Option (LoadBalancer S × Phase × List Effect) → System S
settle s i none = s
settle s i (some (lb', p', told)) = record {
  lb = lb';
  round = s.round;
  threads = set_elem s.threads i p';
  told = s.told ++ told;
}

-- A goroutine that is blocked, or over, stays where it is when it is scheduled.
unfoldable pub resume :
    (strat : Strategy) → System strat.State → ℕ → Input strat → Option Phase → System strat.State
unfolding move
resume strat s i x none = s
resume strat s i x (some p) = settle s i (move strat x s.lb (is_locked s.round) p)

-- One access of a round of checks, with what the ping says: the lock is taken, a server is checked,
-- the lock is given back.
unfoldable pub check_next : {S : Type 0} → System S → Option (List Ref) → Bool → System S
check_next s none alive = record s { round = some s.lb.servers }
check_next s (some []) alive = record s { round = none }
check_next s (some (r ∷ rs)) alive =
    let (h', told) = check_server s.lb.heap r alive in
    record {
      lb = record s.lb { heap = h' };
      round = some rs;
      threads = s.threads;
      told = s.told ++ told;
    }

pub data Event (strat : Strategy) : Type 0 where
  arrives : Event strat
  moves : ℕ → Input strat → Event strat
  checks : Bool → Event strat

unfoldable pub step : (strat : Strategy) → System strat.State → Event strat → System strat.State
unfolding resume check_next
step strat s arrives = record s { threads = s.threads ++ arrived ∷ [] }
step strat s (moves i x) = resume strat s i x (get_elem? s.threads i)
step strat s (checks alive) = check_next s s.round alive

unfoldable pub run :
    (strat : Strategy) → System strat.State → List (Event strat) → System strat.State
unfolding step
run strat s [] = s
run strat s (e ∷ es) = run strat (step strat s e) es
