-- ===== src/Entry/Addresses.antt =====
-- The servers of the balancer against the configured addresses.
use neura_balancer.Common.{
  ℕ, suc, ◌+◌, ◌<◌, ◌≡◌, refl, sym, ap, ◌∙◌, subst, List, [], ◌∷◌, map, length, get_elem?, All,
  arith,
}
use neura_balancer.Common.Text.{Text}
use neura_balancer.Balancer.Seed.{
  ServerTable, seed_server, seed_from, at, refs_from, place, new_balancer,
}
use neura_balancer.Balancer.Seed.Fresh.{seed_from_url}
use neura_balancer.Config.{Environment, Config, ok, load, validate, read_config}
use neura_balancer.Config.Servers.{IsTrimmed, parse_server_list-IsTrimmed}
use neura_balancer.Config.Validation.{loaded-ok}
use neura_balancer.Server.{Server}

seed_from-urls :
    (db : ServerTable) (table : db.Table) (n : ℕ) (urls : List Text)
    → All IsTrimmed urls
    → map (λ (s : Server). s.url) (seed_from db table n urls) ≡ urls
unfolding seed_server seed_from
seed_from-urls db table n [] h = refl
seed_from-urls db table n ([] ∷ urls) h = absurd (h.0.1 refl)
seed_from-urls db table n ((c ∷ cs) ∷ urls) h =
    rw (seed_from_url db table n (c ∷ cs) urls c cs h.0.0) (
      ap (λ us. (c ∷ cs) ∷ us)
        (seed_from-urls db (db.upsert_server table (c ∷ cs)) (suc n) urls h.1))

map-refs_from :
    (ss : List Server) (h : ℕ → Server) (i : ℕ)
    → ((j : ℕ) → j < length ss → h (i + j) ≡ at (get_elem? ss j))
    → map (λ r. (h r).url) (refs_from i (length ss)) ≡ map (λ (s : Server). s.url) ss
map-refs_from [] h i same = refl
map-refs_from (s ∷ ss) h i same =
    let e : i + 0 ≡ i = omega arith in
    let first : h i ≡ s = ap h (sym e) ∙ same 0 (omega arith) in
    ap (λ (u : Text). u ∷ map (λ r. (h r).url) (refs_from (suc i) (length ss)))
      (ap (λ (t : Server). t.url) first)
    ∙ ap (λ us. s.url ∷ us)
        (map-refs_from ss h (suc i) (λ j l.
          let f : suc i + j ≡ i + suc j = omega arith in ap h f ∙ same (suc j) (omega arith)))

place-urls :
    {S : Type 0} (ss : List Server) (s : S)
    → map (λ r. ((place ss s).heap r).url) (place ss s).servers ≡ map (λ (t : Server). t.url) ss
unfolding place
place-urls ss s =
    map-refs_from ss (λ r. at (get_elem? ss r)) 0
      (λ j l. let e : 0 + j ≡ j = omega arith in ap (λ k. at (get_elem? ss k)) e)

load-IsTrimmed : (env : Environment) {c : Config} → load env ≡ ok c → All IsTrimmed c.lb.servers
unfolding load read_config
load-IsTrimmed env h =
    let (valid, same) = loaded-ok (read_config env) (validate (read_config env)) h in
    subst (λ (c : Config). All IsTrimmed c.lb.servers) same (parse_server_list-IsTrimmed _)

-- The balancer of a configuration that loads has one server for each configured address, in the
-- order of the configuration and with that address as its URL.
pub new_balancer-load :
    {S : Type 0} (db : ServerTable) (table : db.Table) (s : S) (env : Environment) {c : Config}
    → load env ≡ ok c
    → let lb = new_balancer db table c.lb.servers s in
      map (λ r. (lb.heap r).url) lb.servers ≡ c.lb.servers
unfolding new_balancer
new_balancer-load db table s env {c} h =
    place-urls (seed_from db table 0 c.lb.servers) s
    ∙ seed_from-urls db table 0 c.lb.servers (load-IsTrimmed env h)
