-- ===== src/Balancer/Selection.antt =====
-- What `NextServer` promises, for any strategy that picks from the list that it is given.
pub mod Alive
pub mod StaleSlots
pub mod Totals
pub mod Balanced
use neura_balancer.Common.{
  ℕ, ◌+◌, ◌-◌, ◌≡◌, ◌≢◌, refl, true, false, inl, inr, Bool-cases, List, [], ◌∷◌, In, arith,
}
use neura_balancer.Balancer.{
  Strategy, LoadBalancer, Next, selected, Effect, effects_of, healthy, accept, choose, next_server,
  release_server,
}
use neura_balancer.Server.{Ref, Heap, increment_conns, decrement_conns}
use neura_balancer.Strategies.Pick.{Pick, nil_server, server, run_time_panic}

pub healthy-In :
    (h : Heap) (r : Ref) (servers : List Ref)
    → In r (healthy h servers)
    → In r servers × ((h r).alive ≡ true)
unfolding healthy
healthy-In h r [] i = elim i [ ]
healthy-In h r (q ∷ qs) i = elim (Bool-cases (h q).alive) [
  | inl up ↦ elim (let i' : In r (q ∷ healthy h qs) = rw up at i in i') [
    | inl e ↦ (inl e, rw e up)
    | inr j ↦ let (k, a) = healthy-In h r qs j in (inr k, a)
  ]
  | inr down ↦ let (j, a) = healthy-In h r qs (rw down at i) in (inr j, a)
]

accept_selected :
    {S : Type 0} (lb : LoadBalancer S) (told : List Effect) (p : Pick) (r : Ref)
    → (accept lb told p).1 ≡ selected r
    → (p ≡ server r) × ((accept lb told p).0 ≡ record lb { heap = increment_conns lb.heap r })
unfolding accept
accept_selected lb told nil_server r e = ground arith
accept_selected lb told (server q) r e = ground arith
accept_selected lb told run_time_panic r e = ground arith

accept_refused :
    {S : Type 0} (lb : LoadBalancer S) (told : List Effect) (p : Pick)
    → ((r : Ref) → (accept lb told p).1 ≢ selected r)
    → (accept lb told p).0.heap ≡ lb.heap
unfolding accept
accept_refused lb told nil_server never = refl
accept_refused lb told (server q) never = absurd (never q refl)
accept_refused lb told run_time_panic never = refl

pub choose_selected :
    (strat : Strategy) (lb : LoadBalancer strat.State) (world : strat.World) (alive : List Ref)
    (r : Ref)
    → (choose strat lb world alive).1 ≡ selected r
    → let picked = strat.select lb.strategy world lb.heap alive in
      (picked.1 ≡ server r)
      × ((choose strat lb world alive).0
          ≡ record { heap = increment_conns lb.heap r; servers = lb.servers; strategy = picked.0 })
unfolding choose
choose_selected strat lb world [] r e = ground arith
choose_selected strat lb world (q ∷ qs) r e =
    let picked = strat.select lb.strategy world lb.heap (q ∷ qs) in
    accept_selected (record lb { strategy = picked.0 }) (effects_of picked.2) picked.1 r e

-- Where no server is selected the servers stay as they are.
pub heap-choose_refused :
    (strat : Strategy) (lb : LoadBalancer strat.State) (world : strat.World) (alive : List Ref)
    → ((r : Ref) → (choose strat lb world alive).1 ≢ selected r)
    → (choose strat lb world alive).0.heap ≡ lb.heap
unfolding choose
heap-choose_refused strat lb world [] never = refl
heap-choose_refused strat lb world (q ∷ qs) never =
    let picked = strat.select lb.strategy world lb.heap (q ∷ qs) in
    accept_refused (record lb { strategy = picked.0 }) (effects_of picked.2) picked.1 never

-- A server that is returned is what the strategy picked from the healthy servers; its count of
-- connections goes up by one, and the server list stays.
pub next_server_selected :
    (strat : Strategy) (lb : LoadBalancer strat.State) (world : strat.World) (r : Ref)
    → (next_server strat lb world).1 ≡ selected r
    → let picked = strat.select lb.strategy world lb.heap (healthy lb.heap lb.servers) in
      (picked.1 ≡ server r)
      × ((next_server strat lb world).0
          ≡ record { heap = increment_conns lb.heap r; servers = lb.servers; strategy = picked.0 })
unfolding next_server
next_server_selected strat lb world r e =
    choose_selected strat lb world (healthy lb.heap lb.servers) r e

-- A release right after the selection gives every server its count back.
pub release-next_server :
    (strat : Strategy) (lb : LoadBalancer strat.State) (world : strat.World) (r q : Ref)
    → (next_server strat lb world).1 ≡ selected r
    → (release_server (next_server strat lb world).0 r).0.heap q ≡ lb.heap q
unfolding release_server increment_conns decrement_conns
release-next_server strat lb world r q e =
    rw ((next_server_selected strat lb world r e).1) (ground arith)
