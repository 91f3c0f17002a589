-- ===== src/Balancer/Gauges/Steps.antt =====
-- The gauges after each step of a history.
use neura_balancer.Common.{
  ◌≡◌, refl, Bool, Bool-cases, false, ltb_ℤ, pos, inl, inr, List, [], ◌∷◌, In, arith,
}
use neura_balancer.Balancer.{
  Strategy, LoadBalancer, Effect, selected, accept, choose, release_server, healthy, effects_of,
}
use neura_balancer.Balancer.Gauges.{tell, tell_all, IsShown, HasOwnIds}
use neura_balancer.Balancer.Gauges.Follow.{
  increment-ids, decrement-ids, choose-IsShown, release_server-IsShown,
}
use neura_balancer.Balancer.Health.{check_server, mark_server_down, status_update, same_bool}
use neura_balancer.Balancer.Selection.{healthy-In, choose_selected}
use neura_balancer.Balancer.Sessions.{System, no_reset, conns-check_server}
use neura_balancer.Balancer.Sessions.Counts.{conns-mark_server_down}
use neura_balancer.Metrics.Collector.{Collector}
use neura_balancer.Metrics.Float64.{Float64}
use neura_balancer.Server.{Server, Ref, Heap, decrement_conns}
use neura_balancer.Strategies.Pick.{Pick, nil_server, server, run_time_panic}
use neura_balancer.Balancer.Gauges.Watching.{
  PicksFrom, HasOwnIds-same, ids-mark_server_down, ids-check_server,
}

module _ (fl : Float64) (seconds : fl.Carrier) where
  -- A change that leaves identifiers and counts, and that tells nothing about them, leaves the gauges.
  IsShown-same :
      (h h' : Heap) (servers : List Ref) (c c' : Collector fl.Carrier)
      → ((q : Ref) → (h' q).id ≡ (h q).id)
      → ((q : Ref) → (h' q).connections ≡ (h q).connections)
      → c'.active_conns ≡ c.active_conns
      → IsShown fl seconds h servers c
      → IsShown fl seconds h' servers c'
  IsShown-same h h' servers c c' ids conns told shown r i = rw (told, ids r, conns r) (shown r i)

  tell_all-status_update :
      (c : Collector fl.Carrier) (s : Server) (alive : Bool)
      → (tell_all fl seconds c (status_update s alive)).active_conns ≡ c.active_conns
  unfolding tell_all tell
  tell_all-status_update c s alive = elim (Bool-cases (ltb_ℤ (pos 0) s.id)) [
    | inl known ↦ rw known refl
    | inr unknown ↦ rw unknown refl
  ]

  tell_all-check_server :
      (c : Collector fl.Carrier) (h : Heap) (r : Ref) (alive : Bool)
      → (tell_all fl seconds c (check_server h r alive).1).active_conns ≡ c.active_conns
  unfolding check_server tell_all
  tell_all-check_server c h r alive = elim (Bool-cases (same_bool (h r).alive alive)) [
    | inl same ↦ rw same refl
    | inr changed ↦ rw changed (tell_all-status_update c (h r) alive)
  ]

  module _ (strat : Strategy) (law : PicksFrom strat) where
    -- What a choice among servers of the list leaves.
    abbrev Keeps : LoadBalancer strat.State → LoadBalancer strat.State → Type 0
    Keeps lb lb' =
        (lb'.servers ≡ lb.servers)
        × ((q : Ref) → (lb'.heap q).id ≡ (lb.heap q).id)
        × law.Good lb.servers lb'.strategy

    accept-Keeps :
        (lb : LoadBalancer strat.State) (told : List Effect) (p : Pick)
        → law.Good lb.servers lb.strategy
        → Keeps lb (accept lb told p).0
    unfolding accept
    accept-Keeps lb told nil_server good = (refl, (λ q. refl), good)
    accept-Keeps lb told run_time_panic good = (refl, (λ q. refl), good)
    accept-Keeps lb told (server r) good = (refl, increment-ids fl seconds lb.heap r, good)

    choose-Keeps :
        (lb : LoadBalancer strat.State) (world : strat.World) (alive : List Ref)
        → ((q : Ref) → In q alive → In q lb.servers)
        → law.Good lb.servers lb.strategy
        → Keeps lb (choose strat lb world alive).0
    unfolding choose
    choose-Keeps lb world [] sub good = (refl, (λ q. refl), good)
    choose-Keeps lb world (r ∷ rs) sub good =
        let (s', p, told) = strat.select lb.strategy world lb.heap (r ∷ rs) in
        accept-Keeps (record lb { strategy = s' }) (effects_of told) p
          (law.keeps lb.servers lb.strategy world lb.heap (r ∷ rs) good sub)

    -- The servers have identifiers of their own, and the gauges are at their counts.
    abbrev pub Watched : LoadBalancer strat.State → Collector fl.Carrier → Type 0
    Watched lb c =
        HasOwnIds lb.heap lb.servers
        × law.Good lb.servers lb.strategy
        × IsShown fl seconds lb.heap lb.servers c

    pub choose-Watched :
        (lb : LoadBalancer strat.State) (c : Collector fl.Carrier) (seen : Heap)
        (world : strat.World)
        → Watched lb c
        → let out = choose strat lb world (healthy seen lb.servers) in
          Watched out.0 (tell_all fl seconds c out.2) × (out.0.servers ≡ lb.servers)
    choose-Watched lb c seen world (own, good, shown) =
        let alive = healthy seen lb.servers in
        let sub : (q : Ref) → In q alive → In q lb.servers =
          λ q i. (healthy-In seen q lb.servers i).0 in
        let (kept, ids, good') = choose-Keeps lb world alive sub good in
        let shown' =
          choose-IsShown fl seconds strat lb world c alive own
            (λ r e. law.picks lb.servers lb.strategy world lb.heap alive r good sub e) shown in
        (
          (
            rw kept
                (HasOwnIds-same lb.heap (choose strat lb world alive).0.heap lb.servers ids own),
            rw kept good',
            rw kept shown',
          ),
          kept,
        )

    -- The from requests too are on servers of the list.
    abbrev pub Watches : System strat.State → Collector fl.Carrier → Type 0
    Watches s c = Watched s.lb c × ((q : Ref) → In q s.pending → In q s.lb.servers)

    pub selected-In :
        (lb : LoadBalancer strat.State) (seen : Heap) (world : strat.World) (r : Ref)
        → law.Good lb.servers lb.strategy
        → (choose strat lb world (healthy seen lb.servers)).1 ≡ selected r
        → In r lb.servers
    selected-In lb seen world r good e =
        law.picks lb.servers lb.strategy world lb.heap (healthy seen lb.servers) r good
          (λ q i. (healthy-In seen q lb.servers i).0)
          ((choose_selected strat lb world (healthy seen lb.servers) r e).0)

    pub release-Watched :
        (lb : LoadBalancer strat.State) (c : Collector fl.Carrier) (r : Ref)
        → In r lb.servers
        → Watched lb c
        → Watched (release_server lb r).0 (tell_all fl seconds c (release_server lb r).1)
    unfolding release_server
    release-Watched lb c r i (own, good, shown) = (
      HasOwnIds-same lb.heap (decrement_conns lb.heap r) lb.servers
          (decrement-ids fl seconds lb.heap r) own,
      good,
      release_server-IsShown fl seconds lb c r own i shown,
    )

    pub mark-Watched :
        (lb : LoadBalancer strat.State) (c : Collector fl.Carrier) (r : Ref)
        → Watched lb c
        → Watched (mark_server_down lb r).0 (tell_all fl seconds c (mark_server_down lb r).1)
    unfolding mark_server_down
    mark-Watched lb c r (own, good, shown) =
        let h' = (mark_server_down lb r).0.heap in
        let told = tell_all-status_update c (lb.heap r) false in
        (
          HasOwnIds-same lb.heap h' lb.servers (ids-mark_server_down lb r) own,
          good,
          IsShown-same lb.heap h' lb.servers c
              (tell_all fl seconds c (status_update (lb.heap r) false)) (ids-mark_server_down lb r)
              (conns-mark_server_down lb r) told shown,
        )

    pub check-Watched :
        (lb : LoadBalancer strat.State) (c : Collector fl.Carrier) (r : Ref) (alive : Bool)
        → no_reset lb.heap r alive
        → Watched lb c
        → let out = check_server lb.heap r alive in
          Watched (record lb { heap = out.0 }) (tell_all fl seconds c out.1)
    check-Watched lb c r alive ok (own, good, shown) =
        let h' = (check_server lb.heap r alive).0 in
        let ids : (q : Ref) → (h' q).id ≡ (lb.heap q).id =
          λ q. ids-check_server lb.heap r q alive in
        let conns : (q : Ref) → (h' q).connections ≡ (lb.heap q).connections =
          λ q. ground (arith, conns-check_server lb.heap r q alive, ok) in
        (
          HasOwnIds-same lb.heap h' lb.servers ids own,
          good,
          IsShown-same lb.heap h' lb.servers c
              (tell_all fl seconds c (check_server lb.heap r alive).1) ids conns
              (tell_all-check_server c lb.heap r alive) shown,
        )
