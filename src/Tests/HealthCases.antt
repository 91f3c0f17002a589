-- ===== src/Tests/HealthCases.antt =====
-- The health checks of the fleet over time.
use neura_balancer.Common.{
  ℕ, ◌≡◌, ◌≢◌, refl, inl, inr, true, false, if◌then◌else◌, ◌==◌, [], ◌∷◌, In, pos, arith,
}
use neura_balancer.Common.Text.{Text}
use neura_balancer.Api.{readiness_check}
use neura_balancer.Balancer.{LoadBalancer, selected, next_server}
use neura_balancer.Balancer.Health.{
  Attempt, answered, not_answered, ping_url, ping_from, ping_server, check_all_servers,
}
use neura_balancer.Balancer.Health.Deadline.{Network, check_all_timed, check_all_timed_hung}
use neura_balancer.Balancer.Health.Recovery.{next_server-check_all_servers}
use neura_balancer.Balancer.Loops.{LoopEnd, run_health_checks}
use neura_balancer.Factory.{least_connections}
use neura_balancer.Server.{Ref}
use neura_balancer.Tests.Fixtures.{backend, three}

abbrev all_down : LoadBalancer (Unit {0})
all_down = record {
  heap = λ r. record (backend r 0) { alive = false };
  servers = three;
  strategy = tt;
}

abbrev all_up : LoadBalancer (Unit {0})
all_up = record { heap = λ r. backend r 0; servers = three; strategy = tt }

-- The second attempt of each ping is answered with 200.
abbrev second_try : Text → ℕ → Attempt
second_try url i = if i == 1 then answered 200 else not_answered

ping_succeeds : ping_server (pos 3) second_try (all_down.heap 2) ≡ true
unfolding ping_server ping_from
ping_succeeds = refl

next_server-check_all_servers_example :
    ((readiness_check (check_all_servers all_down (pos 3) second_try).0).status ≡ 200)
    × ((r : Ref) × ((next_server least_connections
            (check_all_servers all_down (pos 3) second_try).0
            tt).1
          ≡ selected r)
        × In r three
        × (((check_all_servers all_down (pos 3) second_try).0.heap r).alive ≡ true))
next_server-check_all_servers_example =
    next_server-check_all_servers all_down (pos 3) second_try 2 (inr (inr (inl refl))) ping_succeeds

-- Every attempt is answered, but only after ten seconds.
abbrev slow : Network
slow url i t = (answered 200, 10000)

slow_made : (slow (ping_url (all_up.heap 0)) 0 7).0 ≢ Attempt.not_created
slow_made = ground arith

check_all_timed_hung_example : ((check_all_timed all_up (pos 3) 3000 slow 7).heap 2).alive ≡ false
check_all_timed_hung_example =
    check_all_timed_hung all_up (pos 3) 3000 slow 7 0 (1 ∷ 2 ∷ []) 2 refl (omega arith) slow_made
      (omega arith) (inr (inr (inl refl)))

-- With an interval of 0 the ticker panics.
no_interval : (run_health_checks (pos 3) (pos 0) all_up []).1 ≡ LoopEnd.panicked
unfolding run_health_checks
no_interval = refl
