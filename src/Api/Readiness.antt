-- ===== src/Api/Readiness.antt =====
-- The readiness probe against the selection and the list of servers.
use neura_balancer.Common.{
  suc, ◌≡◌, ◌≢◌, ◌↔◌, refl, sym, ap, ◌∙◌, Bool-cases, inl, inr, List, [], ◌∷◌, map, length, keep,
  arith,
}
use neura_balancer.Api.{
  count_alive, readiness_check, ServerInfo, server_info, servers, servers_status,
}
use neura_balancer.Balancer.{
  Strategy, LoadBalancer, no_healthy_servers, Effect, healthy, accept, choose, next_server,
}
use neura_balancer.Server.{Ref, Heap}
use neura_balancer.Strategies.Pick.{Pick, nil_server, server, run_time_panic}

pub count_alive-healthy : (h : Heap) (rs : List Ref) → count_alive h rs ≡ length (healthy h rs)
unfolding count_alive healthy
count_alive-healthy h [] = refl
count_alive-healthy h (r ∷ rs) = elim (Bool-cases (h r).alive) [
  | inl up ↦ rw up (ap suc (count_alive-healthy h rs))
  | inr down ↦ rw down (count_alive-healthy h rs)
]

accept-chosen :
    {S : Type 0} (lb : LoadBalancer S) (told : List Effect) (p : Pick)
    → (accept lb told p).1 ≢ no_healthy_servers
unfolding accept
accept-chosen lb told nil_server = ground arith
accept-chosen lb told run_time_panic = ground arith
accept-chosen lb told (server r) = ground arith

choose-refused :
    (strat : Strategy) (lb : LoadBalancer strat.State) (world : strat.World) (alive : List Ref)
    → ((choose strat lb world alive).1 ≡ no_healthy_servers) ↔ (length alive ≡ 0)
unfolding choose
choose-refused strat lb world [] = ((λ e. refl), (λ e. refl))
choose-refused strat lb world (r ∷ rs) =
    ((λ e. absurd (accept-chosen _ _ _ e)), (λ e. absurd (ground arith)))

status-zero :
    {S : Type 0} (lb : LoadBalancer S)
    → ((readiness_check lb).status ≡ 503) ↔ (count_alive lb.heap lb.servers ≡ 0)
unfolding readiness_check servers
status-zero lb = ground arith

-- The readiness probe answers 503 exactly if NextServer finds no healthy server, whatever the
-- strategy and its world.
pub readiness_check-next_server :
    (strat : Strategy) (lb : LoadBalancer strat.State) (world : strat.World)
    → ((readiness_check lb).status ≡ 503) ↔ ((next_server strat lb world).1 ≡ no_healthy_servers)
unfolding next_server
readiness_check-next_server strat lb world =
    let e = count_alive-healthy lb.heap lb.servers in
    let (to, from) = status-zero lb in
    let (to', from') = choose-refused strat lb world (healthy lb.heap lb.servers) in
    ((λ s. from' (sym e ∙ to s)), (λ n. from (e ∙ to' n)))

count_alive-listed :
    (h : Heap) (rs : List Ref)
    → length (keep (λ (i : ServerInfo). i.alive) (map (server_info h) rs)) ≡ count_alive h rs
unfolding count_alive server_info
count_alive-listed h [] = refl
count_alive-listed h (r ∷ rs) = elim (Bool-cases (h r).alive) [
  | inl up ↦ rw up (ap suc (count_alive-listed h rs))
  | inr down ↦ rw down (count_alive-listed h rs)
]

length-map {ℓ κ} :
    {A : Type ℓ} {B : Type κ} (f : A → B) (xs : List A) → length (map f xs) ≡ length xs
length-map f [] = refl
length-map f (x ∷ xs) = ap suc (length-map f xs)

probe-numbers :
    {S : Type 0} (lb : LoadBalancer S)
    → ((readiness_check lb).healthy ≡ count_alive lb.heap lb.servers)
      × ((readiness_check lb).total ≡ length lb.servers)
unfolding readiness_check servers
probe-numbers lb = (ground arith, ground arith)

-- The readiness probe counts what the list of servers shows: its total is the number of the rows,
-- its healthy count that of the rows that are alive.
pub readiness_check-servers_status :
    {S : Type 0} (lb : LoadBalancer S)
    → ((readiness_check lb).total ≡ length (servers_status lb))
      × ((readiness_check lb).healthy
          ≡ length (keep (λ (i : ServerInfo). i.alive) (servers_status lb)))
unfolding servers_status servers
readiness_check-servers_status lb =
    let (h, t) = probe-numbers lb in
    (
      t ∙ sym (length-map (server_info lb.heap) lb.servers),
      h ∙ sym (count_alive-listed lb.heap lb.servers),
    )
