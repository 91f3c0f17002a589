-- ===== src/Api.antt =====
-- backend/internal/api/handlers.go: the probes and the list of servers, as functions from the
-- balancer's state to what they write as JSON.
pub mod Context
pub mod Middleware
pub mod Readiness
pub mod Router
pub mod Serving
use neura_balancer.Common.{ℕ, suc, Bool, if◌then◌else◌, ◌==◌, List, [], ◌∷◌, map, length, ℤ}
use neura_balancer.Common.Text.{Text, codes}
use neura_balancer.Balancer.{LoadBalancer}
use neura_balancer.Server.{Ref, Heap}

-- `LoadBalancer.Servers`: a copy of the list of pointers.
unfoldable pub servers : {S : Type 0} → LoadBalancer S → List Ref
servers lb = lb.servers

unfoldable pub count_alive : Heap → List Ref → ℕ
count_alive h [] = 0
count_alive h (r ∷ rs) = let n = count_alive h rs in if (h r).alive then suc n else n

-- The body of `HealthCheck`, with the time.
pub record Liveness : Type 0 where
  pub status : Text
  pub ts : ℕ

unfoldable pub health_check : ℕ → ℕ × Liveness
health_check now = (200, record { status = codes "ok"; ts = now })

-- The status code and the numbers of the body.
pub record Probe : Type 0 where
  pub status : ℕ
  pub total : ℕ
  pub healthy : ℕ

unfoldable pub readiness_check : {S : Type 0} → LoadBalancer S → Probe
unfolding servers count_alive
readiness_check lb =
    let all = servers lb in
    let healthy = count_alive lb.heap all in
    if healthy == 0
    then record { status = 503; total = length all; healthy = 0 }
    else record { status = 200; total = length all; healthy = healthy }

pub record ServerInfo : Type 0 where
  pub id : ℤ
  pub url : Text
  pub alive : Bool
  pub weight : ℤ
  pub capacity : ℤ
  pub connections : ℕ

unfoldable pub server_info : Heap → Ref → ServerInfo
server_info h r = record {
  id = (h r).id;
  url = (h r).url;
  alive = (h r).alive;
  weight = (h r).weight;
  capacity = (h r).capacity;
  connections = (h r).connections;
}

unfoldable pub servers_status : {S : Type 0} → LoadBalancer S → List ServerInfo
unfolding servers server_info
servers_status lb = map (server_info lb.heap) (servers lb)
