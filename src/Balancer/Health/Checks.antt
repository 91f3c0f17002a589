-- ===== src/Balancer/Health/Checks.antt =====
-- What a round of health checks does to each server.
use neura_balancer.Common.{
  ℕ, ◌≡◌, ◌∙◌, refl, ◌&&◌, ◌||◌, Bool, true, false, not, if◌then◌else◌, ◌==◌, inl, inr, List, [],
  ◌∷◌, In, ℤ, pos_part, arith,
}
use neura_balancer.Common.Text.{Text}
use neura_balancer.Balancer.{LoadBalancer}
use neura_balancer.Balancer.Health.{
  Attempt, ping_server, ping_from, check_server, check_servers, check_all_servers,
}
use neura_balancer.Server.{Server, Ref, Heap}

-- A server after a ping: its health is what the ping said, and its count is reset if it went down.
abbrev pub pinged : Server → Bool → Server
pinged s alive = record s {
  alive = alive;
  connections = if s.alive && not alive then 0 else s.connections;
}

pub check_server_lem :
    (h : Heap) (r q : Ref) (alive : Bool)
    → (check_server h r alive).0 q ≡ (if q == r then pinged (h r) alive else h q)
unfolding check_server
check_server_lem h r q alive = ground arith

abbrev contains : Ref → List Ref → Bool
contains q [] = false
contains q (r ∷ rs) = q == r || contains q rs

In-contains : (q : Ref) (rs : List Ref) → In q rs → contains q rs ≡ true
In-contains q [] i = elim i [ ]
In-contains q (r ∷ rs) (inl e) = ground arith
In-contains q (r ∷ rs) (inr i) = ground (arith, In-contains q rs i)

-- A ping that looks at neither the health nor the count of a server.
abbrev Stable : (Server → Bool) → Type 0
Stable ping = (s : Server) (a : Bool) → ping (pinged s a) ≡ ping s

check_servers_lem :
    (ping : Server → Bool) (stable : Stable ping) (rs : List Ref) (h : Heap) (q : Ref)
    → (check_servers h rs ping).0 q ≡ (if contains q rs then pinged (h q) (ping (h q)) else h q)
unfolding check_servers
check_servers_lem ping stable [] h q = refl
check_servers_lem ping stable (r ∷ rs) h q = ground (
  arith,
  check_server_lem h r q (ping (h r)),
  check_servers_lem ping stable rs (check_server h r (ping (h r))).0 q,
  stable (h r) (ping (h r)),
)

ping_server-Stable :
    (retries : ℤ) (network : Text → ℕ → Attempt) → Stable (ping_server retries network)
unfolding ping_server
ping_server-Stable retries network s a = refl

-- A round of checks gives each server of the list the health that its ping says; a server that was
-- alive and is not any more has its count of open requests reset, and no other part changes.
pub check_all_servers_lem :
    {S : Type 0} (lb : LoadBalancer S) (retries : ℤ) (network : Text → ℕ → Attempt) (q : Ref)
    → In q lb.servers
    → (check_all_servers lb retries network).0.heap q
      ≡ pinged (lb.heap q) (ping_server retries network (lb.heap q))
unfolding check_all_servers
check_all_servers_lem lb retries network q i =
    check_servers_lem (ping_server retries network) (ping_server-Stable retries network) lb.servers
      lb.heap q
    ∙ rw (In-contains q lb.servers i)

ping_no_retries :
    (retries : ℤ) (network : Text → ℕ → Attempt) (s : Server)
    → pos_part retries ≡ 0
    → ping_server retries network s ≡ false
unfolding ping_server
ping_no_retries retries network s z = rw (z, ping_from)

-- With no retries configured a round of checks takes every server down, whatever the network does.
pub check_all_servers_no_retries :
    {S : Type 0} (lb : LoadBalancer S) (retries : ℤ) (network : Text → ℕ → Attempt) (q : Ref)
    → In q lb.servers
    → pos_part retries ≡ 0
    → ((check_all_servers lb retries network).0.heap q).alive ≡ false
check_all_servers_no_retries lb retries network q i z =
    rw (check_all_servers_lem lb retries network q i)
      (ping_no_retries retries network (lb.heap q) z)
