-- ===== src/Balancer/Health.antt =====
-- The health checks of backend/internal/loadbalancer/balancer.go: `pingServer`, `checkAllServers` and
-- `markServerDown`.
pub mod Pings
pub mod Checks
pub mod Recovery
pub mod Deadline
use neura_balancer.Common.{
  ℕ, zero, suc, ◌+◌, ◌&&◌, Bool, true, false, not, if◌then◌else◌, List, [], ◌∷◌, ◌++◌, ℤ, pos,
  pos_part, ltb_ℤ, ◌==◌,
}
use neura_balancer.Common.Text.{Text, codes, has_prefix}
use neura_balancer.Balancer.{LoadBalancer, Effect, update_server_status}
use neura_balancer.Server.{Server, Ref, Heap, update}

-- How one attempt of a ping goes.
pub data Attempt : Type 0 where
  not_created : Attempt
  not_answered : Attempt
  answered : ℕ → Attempt

unfoldable pub ping_url : Server → Text
ping_url s =
    let url = s.url ++ codes "/health" in
    if has_prefix (codes "http") url then url else codes "http://" ++ url

-- The loop, with the rounds left and the number of the next attempt.
unfoldable pub ping_from : ℕ → ℕ → (ℕ → Attempt) → Bool
ping_from zero i attempt = false
ping_from (suc rounds) i attempt =
    let rest = ping_from rounds (suc i) attempt in
    elim (attempt i) [
      | not_created ↦ false
      | not_answered ↦ rest
      | answered status ↦ if status == 200 then true else rest
    ]

-- `network` answers each attempt of a ping of a URL. With no retries, or fewer, no attempt is made.
unfoldable pub ping_server : ℤ → (Text → ℕ → Attempt) → Server → Bool
unfolding ping_from ping_url
ping_server retries network s = ping_from (pos_part retries) 0 (network (ping_url s))

-- `if s.ID > 0 { db.UpdateServerStatus(...) }`
abbrev pub status_update : Server → Bool → List Effect
status_update s alive = if ltb_ℤ (pos 0) s.id then update_server_status s.id alive ∷ [] else []

abbrev pub same_bool : Bool → Bool → Bool
same_bool true b = b
same_bool false b = not b

-- One round of the loop of `checkAllServers`, with what the ping said.
unfoldable pub check_server : Heap → Ref → Bool → Heap × List Effect
check_server h r alive = if same_bool (h r).alive alive then (h, []) else (
  update h r (record (h r) { alive = alive; connections = if alive then (h r).connections else 0 }),
  status_update (h r) alive,
)

unfoldable pub check_servers : Heap → List Ref → (Server → Bool) → Heap × List Effect
unfolding check_server
check_servers h [] ping = (h, [])
check_servers h (r ∷ rs) ping =
    let (h₁, told) = check_server h r (ping (h r)) in
    let (h₂, rest) = check_servers h₁ rs ping in (h₂, told ++ rest)

unfoldable pub check_all_servers :
    {S : Type 0} → LoadBalancer S → ℤ → (Text → ℕ → Attempt) → LoadBalancer S × List Effect
unfolding check_servers
check_all_servers lb retries network =
    let (h, told) = check_servers lb.heap lb.servers (ping_server retries network) in
    (record lb { heap = h }, told)

unfoldable pub mark_server_down : {S : Type 0} → LoadBalancer S → Ref → LoadBalancer S × List Effect
mark_server_down lb r = (
  record lb { heap = update lb.heap r (record (lb.heap r) { alive = false }) },
  status_update (lb.heap r) false,
)
