-- ===== src/Balancer/Health/Recovery.antt =====
-- What a round of health checks makes possible: a server that answers is found again.
use neura_balancer.Common.{
  ℕ, ◌<◌, ◌≡◌, refl, sym, ap, ◌∙◌, true, Bool-cases, inl, inr, List, [], ◌∷◌, length, In, ℤ, arith,
}
use neura_balancer.Common.Text.{Text}
use neura_balancer.Api.{servers, readiness_check}
use neura_balancer.Api.Readiness.{count_alive-healthy}
use neura_balancer.Balancer.{LoadBalancer, selected, healthy, next_server}
use neura_balancer.Balancer.Health.{Attempt, ping_server, check_all_servers}
use neura_balancer.Balancer.Health.Checks.{check_all_servers_lem}
use neura_balancer.Balancer.Selection.Alive.{next_server-least_connections}
use neura_balancer.Factory.{least_connections}
use neura_balancer.Server.{Ref, Heap}

healthy-nonempty :
    (h : Heap) (rs : List Ref) (q : Ref) → In q rs → (h q).alive ≡ true → 0 < length (healthy h rs)
unfolding healthy
healthy-nonempty h [] q i up = elim i [ ]
healthy-nonempty h (r ∷ rs) q (inl e) up =
    let up' : (h r).alive ≡ true = ap (λ p. (h p).alive) (sym e) ∙ up in rw up' (omega arith)
healthy-nonempty h (r ∷ rs) q (inr i) up = elim (Bool-cases (h r).alive) [
  | inl yes_alive ↦ rw yes_alive (omega arith)
  | inr down ↦ rw down (healthy-nonempty h rs q i up)
]

ready-status :
    {S : Type 0} (lb : LoadBalancer S)
    → 0 < length (healthy lb.heap lb.servers)
    → (readiness_check lb).status ≡ 200
unfolding readiness_check servers
ready-status lb p = ground (arith, count_alive-healthy lb.heap lb.servers)

check_all_servers_keeps :
    {S : Type 0} (lb : LoadBalancer S) (retries : ℤ) (network : Text → ℕ → Attempt)
    → (check_all_servers lb retries network).0.servers ≡ lb.servers
unfolding check_all_servers
check_all_servers_keeps lb retries network = refl

-- Whatever the state before, after a round of checks in which the ping of one server of the list
-- succeeds, the readiness probe answers 200 and NextServer with least connections returns a server
-- of the list that is alive.
pub next_server-check_all_servers :
    (lb : LoadBalancer (Unit {0})) (retries : ℤ) (network : Text → ℕ → Attempt) (q : Ref)
    → In q lb.servers
    → ping_server retries network (lb.heap q) ≡ true
    → ((readiness_check (check_all_servers lb retries network).0).status ≡ 200)
      × ((r : Ref) × ((next_server least_connections (check_all_servers lb retries network).0 tt).1
            ≡ selected r)
          × In r lb.servers
          × (((check_all_servers lb retries network).0.heap r).alive ≡ true))
unfolding check_all_servers
next_server-check_all_servers lb retries network q i ping =
    let checked = (check_all_servers lb retries network).0 in
    let up : (checked.heap q).alive ≡ true =
      ap (λ s. s.alive) (check_all_servers_lem lb retries network q i) ∙ ping in
    let some_up = healthy-nonempty checked.heap lb.servers q i up in
    let (r, e, j, alive, least) = next_server-least_connections checked some_up in
    (ready-status checked some_up, (r, e, j, alive))
