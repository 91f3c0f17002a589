-- ===== src/Balancer/Threads/Counts.antt =====
-- The counts of open requests, whatever the order of the goroutines' steps.
use neura_balancer.Common.{
  ℕ, ◌+◌, ◌≤◌, ◌≡◌, ◌⊎◌, refl, inl, inr, Bool, true, false, not, ◌&&◌, if◌then◌else◌, ◌==◌, Option,
  Option-cases, none, some, List, [], ◌∷◌, get_elem?, Ensures, sum, sum-append, sum-set_elem, arith,
}
use neura_balancer.Balancer.{Strategy, LoadBalancer, Effect}
use neura_balancer.Balancer.Proxy.{Request, Forwarded, not_created, not_answered, answered}
use neura_balancer.Balancer.Sessions.{conns-increment, conns-check_server}
use neura_balancer.Balancer.Sessions.Counts.{conns-mark_server_down}
use neura_balancer.Balancer.Threads.{
  Phase, arrived, copied, picked, counted, telling, forwarding, failed, leaving, released,
  retelling, finished, Input, after_pick, after_forward, advance, move, System, is_locked, settle,
  resume, check_next, Event, arrives, moves, checks, step, run,
}
use neura_balancer.Server.{Ref, Heap, decrement_conns}
use neura_balancer.Strategies.Pick.{Pick, nil_server, server, run_time_panic}

-- Whether a request is open on a server: from its count to its release.
abbrev pub holds : Ref → Phase → ℕ
holds q arrived = 0
holds q (copied rs) = 0
holds q (picked r) = 0
holds q (counted r) = if q == r then 1 else 0
holds q (telling r n) = if q == r then 1 else 0
holds q (forwarding r) = if q == r then 1 else 0
holds q (failed r) = if q == r then 1 else 0
holds q (leaving r) = if q == r then 1 else 0
holds q (released r) = 0
holds q (retelling r n) = 0
holds q finished = 0

-- What a step of one request does to the count of a server: it keeps pace with the requests that are
-- open on it, unless the server has no count to take off any more.
abbrev KeepsPace : Ref → {S : Type 0} → LoadBalancer S → Phase → LoadBalancer S → Phase → Type 0
KeepsPace q lb p lb' p' =
    ((lb'.heap q).connections + holds q p ≡ (lb.heap q).connections + holds q p')
    ⊎ (((lb.heap q).connections ≡ 0)
        × ((lb'.heap q).connections ≡ 0)
        × (holds q p ≡ 1)
        × (holds q p' ≡ 0))

holds-after_pick : (q : Ref) (p : Pick) → holds q (after_pick p) ≡ 0
holds-after_pick q nil_server = refl
holds-after_pick q (server r) = refl
holds-after_pick q run_time_panic = refl

holds-after_forward :
    (q r : Ref) (f : Forwarded) → holds q (after_forward r f) ≡ holds q (forwarding r)
holds-after_forward q r not_created = refl
holds-after_forward q r not_answered = refl
holds-after_forward q r (answered resp) = refl

release-pace :
    (h : Heap) (r q : Ref)
    → ((decrement_conns h r q).connections + holds q (leaving r) ≡ (h q).connections + 0)
      ⊎ (((h q).connections ≡ 0)
          × ((decrement_conns h r q).connections ≡ 0)
          × (holds q (leaving r) ≡ 1))
unfolding decrement_conns
release-pace h r q = ground arith

module _ (strat : Strategy) where
  advance-KeepsPace :
      (q : Ref) (lb : LoadBalancer strat.State) (r : Ref) (req : Request) (o : Option Forwarded)
      → Ensures
          (λ (out : LoadBalancer strat.State × Phase × List Effect).
            KeepsPace q lb (forwarding r) out.0 out.1)
          (advance lb r req o)
  advance-KeepsPace q lb r req none = tt
  advance-KeepsPace q lb r req (some f) = inl (rw (holds-after_forward q r f) refl)

  move-KeepsPace :
      (q : Ref) (x : Input strat) (lb : LoadBalancer strat.State) (locked : Bool) (p : Phase)
      → Ensures
          (λ (out : LoadBalancer strat.State × Phase × List Effect). KeepsPace q lb p out.0 out.1)
          (move strat x lb locked p)
  unfolding move
  move-KeepsPace q x lb true arrived = tt
  move-KeepsPace q x lb false arrived = inl refl
  move-KeepsPace q x lb locked (copied []) = inl refl
  move-KeepsPace q x lb locked (copied (r ∷ rs)) =
      let picked = (strat.select lb.strategy x.world x.seen (r ∷ rs)).1 in
      inl (rw (holds-after_pick q picked) refl)
  move-KeepsPace q x lb locked (picked r) = inl (omega (arith, conns-increment lb.heap r q))
  move-KeepsPace q x lb locked (counted r) = inl refl
  move-KeepsPace q x lb locked (telling r n) = inl refl
  move-KeepsPace q x lb locked (forwarding r) = advance-KeepsPace q lb r x.request x.outcome
  move-KeepsPace q x lb true (failed r) = tt
  move-KeepsPace q x lb false (failed r) = inl (rw (conns-mark_server_down lb r q) refl)
  move-KeepsPace q x lb locked (leaving r) = elim (release-pace lb.heap r q) [
    | inl pace ↦ inl pace
    | inr (a, b, c) ↦ inr (a, b, c, refl)
  ]
  move-KeepsPace q x lb locked (released r) = inl refl
  move-KeepsPace q x lb locked (retelling r n) = inl refl
  move-KeepsPace q x lb locked finished = tt

  -- No server counts more than is open on it; each counts exactly what is open on it.
  abbrev pub AtMost : System strat.State → Type 0
  AtMost s = (q : Ref) → (s.lb.heap q).connections ≤ sum (holds q) s.threads

  abbrev pub Exact : System strat.State → Type 0
  Exact s = (q : Ref) → (s.lb.heap q).connections ≡ sum (holds q) s.threads

  settle-counts :
      (q : Ref) (s : System strat.State) (i : ℕ) (p : Phase)
      (out : Option (LoadBalancer strat.State × Phase × List Effect))
      → get_elem? s.threads i ≡ some p
      → Ensures
          (λ (o : LoadBalancer strat.State × Phase × List Effect). KeepsPace q s.lb p o.0 o.1)
          out
      → ((s.lb.heap q).connections ≤ sum (holds q) s.threads
          → ((settle s i out).lb.heap q).connections ≤ sum (holds q) (settle s i out).threads)
        × ((s.lb.heap q).connections ≡ sum (holds q) s.threads
            → ((settle s i out).lb.heap q).connections ≡ sum (holds q) (settle s i out).threads)
  settle-counts q s i p none here pace = ((λ h. h), (λ h. h))
  settle-counts q s i p (some (lb', p', told)) here (inl pace) =
      let moved = sum-set_elem (holds q) s.threads i p p' here in
      ((λ h. omega (arith, moved, pace)), (λ h. omega (arith, moved, pace)))
  settle-counts q s i p (some (lb', p', told)) here (inr (a, b, c, d)) =
      let moved = sum-set_elem (holds q) s.threads i p p' here in
      ((λ h. omega (arith, b)), (λ h. absurd (omega (arith, moved, a, c, d, h))))

  resume-counts :
      (q : Ref) (s : System strat.State) (i : ℕ) (x : Input strat)
      → let s' = resume strat s i x (get_elem? s.threads i) in
        ((s.lb.heap q).connections ≤ sum (holds q) s.threads
          → (s'.lb.heap q).connections ≤ sum (holds q) s'.threads)
        × ((s.lb.heap q).connections ≡ sum (holds q) s.threads
            → (s'.lb.heap q).connections ≡ sum (holds q) s'.threads)
  unfolding resume
  resume-counts q s i x = elim (Option-cases (get_elem? s.threads i)) [
    | inl missing ↦ rw missing ((λ h. h), (λ h. h))
    | inr (p, here) ↦ rw here (
        settle-counts q s i p (move strat x s.lb (is_locked s.round) p) here
          (move-KeepsPace q x s.lb (is_locked s.round) p))
  ]

  -- The check that a step makes, if it makes one, takes no server down that was alive.
  abbrev pub SparesNext : System strat.State → Option (List Ref) → Bool → Type 0
  SparesNext s none alive = Unit
  SparesNext s (some []) alive = Unit
  SparesNext s (some (r ∷ rs)) alive = ((s.lb.heap r).alive && not alive) ≡ false

  abbrev pub Spares : System strat.State → Event strat → Type 0
  Spares s arrives = Unit
  Spares s (moves i x) = Unit
  Spares s (checks alive) = SparesNext s s.round alive

  abbrev pub SparesAll : System strat.State → List (Event strat) → Type 0
  SparesAll s [] = Unit
  SparesAll s (e ∷ es) = Spares s e × SparesAll (step strat s e) es

  check_next-Exact :
      (s : System strat.State) (round : Option (List Ref)) (alive : Bool)
      → SparesNext s round alive
      → Exact s
      → Exact (check_next s round alive)
  unfolding check_next
  check_next-Exact s none alive spares h q = h q
  check_next-Exact s (some []) alive spares h q = h q
  check_next-Exact s (some (r ∷ rs)) alive spares h q =
      ground (arith, conns-check_server s.lb.heap r q alive, spares, h q)

  step-Exact :
      (s : System strat.State) (e : Event strat) → Spares s e → Exact s → Exact (step strat s e)
  unfolding step
  step-Exact s arrives spares h q =
      omega (arith, sum-append (holds q) s.threads (arrived ∷ []), h q)
  step-Exact s (moves i x) spares h q = (resume-counts q s i x).1 (h q)
  step-Exact s (checks alive) spares h q = check_next-Exact s s.round alive spares h q

  -- In every interleaving of the accesses of any number of requests and of the health checks in which
  -- no check takes down a server that was alive, each server counts exactly the requests that have
  -- counted themselves on it and not released it, if it does at the start.
  pub run-Exact :
      (s : System strat.State) (es : List (Event strat))
      → SparesAll s es
      → Exact s
      → Exact (run strat s es)
  unfolding run
  run-Exact s [] spares h = h
  run-Exact s (e ∷ es) spares h = run-Exact (step strat s e) es spares.1 (step-Exact s e spares.0 h)
