-- ===== src/Balancer/Threads/Race.antt =====
-- The gauge of open requests when the requests of one server tell it in another order than they
-- counted themselves: `NextServer` and `ReleaseServer` read the count and set the gauge after the
-- lock of the server is given back.
use neura_balancer.Common.{◌+◌, ◌≡◌, refl, true, ◌==◌, ==_iff, Option, List, [], ◌∷◌, ◌++◌, arith}
use mathlib.Core.List.{append_assoc}
use neura_balancer.Balancer.{Strategy, LoadBalancer, Effect, set_active_connections}
use neura_balancer.Balancer.Threads.{
  Phase, picked, forwarding, Input, move, resume, Event, moves, step, run,
}
use neura_balancer.Server.{Ref, Heap, increment_conns}

-- The first counts itself and reads the count; the second does, and tells it; then the first tells.
abbrev pub overtaken : {strat : Strategy} → Input strat → List (Event strat)
overtaken x = moves 0 x ∷ moves 0 x ∷ moves 1 x ∷ moves 1 x ∷ moves 1 x ∷ moves 0 x ∷ []

counted_once : (h : Heap) (r : Ref) → (increment_conns h r r).connections ≡ (h r).connections + 1
unfolding increment_conns
counted_once h r = let self : (r == r) ≡ true = (==_iff r r).1 refl in rw self refl

id_kept : (h : Heap) (r : Ref) → (increment_conns h r r).id ≡ (h r).id
unfolding increment_conns
id_kept h r = let self : (r == r) ≡ true = (==_iff r r).1 refl in rw self refl

counted_twice :
    (h : Heap) (r : Ref)
    → (increment_conns (increment_conns h r) r r).connections ≡ (h r).connections + 2
counted_twice h r = omega (arith, counted_once (increment_conns h r) r, counted_once h r)

-- Two requests that are given the same server may tell its gauge in the wrong order, in any state:
-- the server then counts two requests more than before, and the last thing that the collector is told
-- is one more.
pub run-overtaken :
    (strat : Strategy) (x : Input strat) (lb : LoadBalancer strat.State) (round : Option (List Ref))
    (r : Ref) (rest : List Phase) (told : List Effect)
    → let s =
        run strat
          (record { lb = lb; round = round; threads = picked r ∷ picked r ∷ rest; told = told })
          (overtaken x) in
      let n = (lb.heap r).connections in
      (s.threads ≡ forwarding r ∷ forwarding r ∷ rest)
      × ((s.lb.heap r).connections ≡ n + 2)
      × (s.told
          ≡ (told ++ set_active_connections (lb.heap r).id (n + 2) ∷ [])
            ++ set_active_connections (lb.heap r).id (n + 1) ∷ [])
unfolding run step resume move
run-overtaken strat x lb round r rest told =
    rw
      (
        counted_twice lb.heap r,
        counted_once lb.heap r,
        id_kept (increment_conns lb.heap r) r,
        id_kept lb.heap r,
      )
      (refl, refl, simp append_assoc refl)
