-- ===== src/Balancer/Seed.antt =====
-- `New` of backend/internal/loadbalancer/balancer.go: the server list at the start. The queries of
-- backend/internal/database/db.go that it makes are an interface.
pub mod Fresh
use neura_balancer.Common.{
  ℕ, zero, suc, ◌+◌, Bool, true, false, if◌then◌else◌, Option, none, some, List, [], ◌∷◌, length,
  get_elem?, ℤ, pos, negsuc, ltb_ℤ,
}
use neura_balancer.Common.Text.{Text}
use neura_balancer.Common.Text.Spaces.{trim_space}
use neura_balancer.Balancer.{Strategy, LoadBalancer}
use neura_balancer.Server.{Server, Ref}

-- `none` is an error of a query. The error of `UpsertServer` is only logged.
pub record ServerTable : Type 1 where
  pub Table : Type 0
  pub upsert_server : Table → Text → Table
  pub get_server_id : Table → Text → Option ℤ
  pub get_server_capacity : Table → ℤ → Option ℤ
  pub get_server_weight : Table → ℤ → Option ℤ

abbrev pub or_else : Option ℤ → ℤ → ℤ
or_else none d = d
or_else (some a) d = a

module _ (db : ServerTable) where
  open db use {Table, upsert_server, get_server_id, get_server_capacity, get_server_weight}

  -- The server of one URL; `n` servers are in the list already.
  unfoldable pub seed_server : Table → ℕ → Text → Server
  seed_server table n url =
      let id = or_else (get_server_id table url) (negsuc n) in
      record {
        id = id;
        url = url;
        alive = true;
        weight = if ltb_ℤ (pos 0) id then or_else (get_server_weight table id) (pos 1) else pos 1;
        capacity =
            if ltb_ℤ (pos 0) id then or_else (get_server_capacity table id) (pos 10) else pos 10;
        connections = 0;
      }

  -- The loop over the URLs; a blank one is skipped.
  unfoldable pub seed_from : Table → ℕ → List Text → List Server
  unfolding seed_server
  seed_from table n [] = []
  seed_from table n (raw ∷ raws) =
      let url = trim_space raw in
      let skipped = seed_from table n raws in
      let table' = upsert_server table url in
      let rest = seed_from table' (suc n) raws in
      elim url [ [] ↦ skipped | c ∷ cs ↦ seed_server table' n (c ∷ cs) ∷ rest ]

abbrev pub no_server : Server
no_server = record {
  id = pos 0;
  url = [];
  alive = false;
  weight = pos 0;
  capacity = pos 0;
  connections = 0;
}

abbrev pub at : Option Server → Server
at none = no_server
at (some s) = s

abbrev pub refs_from : ℕ → ℕ → List Ref
refs_from i zero = []
refs_from i (suc n) = i ∷ refs_from (suc i) n

-- The servers are allocated one after the other, from pointer 0 on.
unfoldable pub place : {S : Type 0} → List Server → S → LoadBalancer S
place seeded s = record {
  heap = λ r. at (get_elem? seeded r);
  servers = refs_from 0 (length seeded);
  strategy = s;
}

unfoldable pub new_balancer :
    {S : Type 0} (db : ServerTable) → db.Table → List Text → S → LoadBalancer S
unfolding place seed_from
new_balancer db table urls s = place (seed_from db table 0 urls) s
