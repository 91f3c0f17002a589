-- ===== src/Tests/Fixtures.antt =====
-- A fleet of three servers, as in backend/internal/loadbalancer/strategies_test.go.
use neura_balancer.Common.{ℕ, suc, true, false, if◌then◌else◌, ◌==◌, List, [], ◌∷◌, pos}
use neura_balancer.Common.Text.{codes}
use neura_balancer.Metrics.Readings.{Readings}
use neura_balancer.Server.{Server, Ref, Heap}

-- The r-th server, with a number of open requests.
abbrev pub backend : ℕ → ℕ → Server
backend r conns = record {
  id = pos (suc r);
  url = codes "http://backend:8001";
  alive = true;
  weight = pos 1;
  capacity = pos 100;
  connections = conns;
}

abbrev pub fleet : Heap
fleet r = backend r (if r == 0 then 10 else (if r == 1 then 2 else 7))

-- The first server has weight 3.
abbrev pub weighted : Heap
weighted r = if r == 0 then record (backend 0 0) { weight = pos 3 } else backend r 0

-- The first server is down.
abbrev pub first_down : Heap
first_down r = if r == 0 then record (backend 0 0) { alive = false } else backend r 0

abbrev pub three : List Ref
three = 0 ∷ 1 ∷ 2 ∷ []

-- Readings that are 0 throughout.
abbrev pub idle : Readings ℕ
idle = record {
  cpu_usage = λ id. 0;
  memory_usage = λ id. 0;
  error_rate = λ id. 0;
  response_p95 = λ id. 0;
}
