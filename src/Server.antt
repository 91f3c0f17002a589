-- ===== src/Server.antt =====
-- `Server` of backend/internal/loadbalancer/balancer.go, and the heap that its pointers point into.
pub mod Resets
use neura_balancer.Common.{ℕ, ◌+◌, ◌-◌, Bool, ◌&&◌, List, ℤ, pos, ltb, ltb_ℤ, ◌==◌, if◌then◌else◌}

-- The counter of open requests starts at 0 and its decrement is guarded, so it is a natural number as
-- long as no reset falls between a guard and its decrement.
-- A text is the list of its code points.
pub record Server : Type 0 where
  pub id : ℤ
  pub url : List ℕ
  pub alive : Bool
  pub weight : ℤ
  pub capacity : ℤ
  pub connections : ℕ

-- A `*Server`. Servers are shared: the balancer's list, the lists handed to a strategy and the slots
-- that a strategy keeps all hold pointers to the same objects.
abbrev pub Ref : Type 0
Ref = ℕ

abbrev pub Heap : Type 0
Heap = Ref → Server

-- `*r = s`.
abbrev pub update : Heap → Ref → Server → Heap
update h r s q = if q == r then s else h q

unfoldable pub can_accept_request : Server → Bool
can_accept_request s = s.alive && ltb_ℤ (pos s.connections) s.capacity

-- `s.Connections++` and the guarded `s.Connections--`, each one step: the mutex of the server keeps
-- other increments and decrements out, and no reset, which does not take it, comes between. Resets has
-- them an access at a time, with the resets between.
unfoldable pub increment_conns : Heap → Ref → Heap
increment_conns h r = update h r (record (h r) { connections = (h r).connections + 1 })

unfoldable pub decrement_conns : Heap → Ref → Heap
decrement_conns h r =
    if ltb 0 (h r).connections
    then update h r (record (h r) { connections = (h r).connections - 1 })
    else h
