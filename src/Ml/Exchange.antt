-- ===== src/Ml/Exchange.antt =====
-- `fetchPredictions` of backend/internal/loadbalancer/ml_strategy.go: one exchange with the model
-- server. The encoder, the network and the server are one argument, `send`.
use neura_balancer.Common.{
  ℕ, ◌≡◌, ◌↔◌, List, map, Option, none, some, length, ℤ, ◌==◌, if◌then◌else◌, arith,
}
use neura_balancer.Metrics.Readings.{Readings}
use neura_balancer.Server.{Ref, Heap}

pub record ServerFeatures (D : Type 0) : Type 0 where
  pub server_id : ℤ
  pub cpu_usage : D
  pub memory_usage : D
  pub active_conns : ℕ
  pub error_rate : D
  pub response_p95 : D
  pub weight : ℤ
  pub capacity : ℤ

-- `ts` is the time in seconds.
pub record MlRequest (D : Type 0) : Type 0 where
  pub servers : List (ServerFeatures D)
  pub ts : ℕ

-- How the exchange went: no request could be encoded or made, no response came, or a response
-- with a status and the decoded body (`none` where it does not decode).
pub data Exchange (F : Type 0) : Type 0 where
  not_encoded : Exchange F
  not_created : Exchange F
  not_answered : Exchange F
  answered : ℕ → Option (List F) → Exchange F

pub data FetchError : Type 0 where
  marshal : FetchError
  create_request : FetchError
  http : FetchError
  http_status : ℕ → FetchError
  decode : FetchError
  count_mismatch : ℕ → ℕ → FetchError

pub data Fetched (F : Type 0) : Type 0 where
  predictions : List F → Fetched F
  failed : FetchError → Fetched F

unfoldable pub features_of : {D : Type 0} → Heap → Readings D → Ref → ServerFeatures D
features_of h col r = record {
  server_id = (h r).id;
  cpu_usage = col.cpu_usage (h r).id;
  memory_usage = col.memory_usage (h r).id;
  active_conns = (h r).connections;
  error_rate = col.error_rate (h r).id;
  response_p95 = col.response_p95 (h r).id;
  weight = (h r).weight;
  capacity = (h r).capacity;
}

unfoldable pub check_count : {F : Type 0} → ℕ → List F → Fetched F
check_count wanted ps =
    if length ps == wanted then predictions ps else failed (count_mismatch (length ps) wanted)

unfoldable pub check_exchange : {F : Type 0} → ℕ → Exchange F → Fetched F
unfolding check_count
check_exchange wanted not_encoded = failed marshal
check_exchange wanted not_created = failed create_request
check_exchange wanted not_answered = failed http
check_exchange wanted (answered status none) =
    if status == 200 then failed decode else failed (http_status status)
check_exchange wanted (answered status (some ps)) =
    if status == 200 then check_count wanted ps else failed (http_status status)

unfoldable pub fetch_predictions :
    {F D : Type 0} → (MlRequest D → Exchange F) → Heap → Readings D → ℕ → List Ref → Fetched F
unfolding check_exchange
fetch_predictions send h col now servers =
    check_exchange (length servers)
      (send (record { servers = map (features_of h col) servers; ts = now }))

accepts :
    {F : Type 0} (wanted : ℕ) (x : Exchange F) (ps : List F)
    → (check_exchange wanted x ≡ predictions ps)
      ↔ ((x ≡ answered 200 (some ps)) × (length ps ≡ wanted))
unfolding check_exchange
accepts wanted not_encoded ps = ground arith
accepts wanted not_created ps = ground arith
accepts wanted not_answered ps = ground arith
accepts wanted (answered status none) ps = ground arith
accepts wanted (answered status (some qs)) ps = ground arith

-- Predictions are accepted exactly if the model server answered 200 with one score for each server.
pub fetch_predictions_accepts :
    {F D : Type 0} (send : MlRequest D → Exchange F) (h : Heap) (col : Readings D) (now : ℕ)
    (servers : List Ref) (ps : List F)
    → (fetch_predictions send h col now servers ≡ predictions ps) ↔ (
        (send (record { servers = map (features_of h col) servers; ts = now })
          ≡ answered 200 (some ps))
        × (length ps ≡ length servers))
unfolding fetch_predictions
fetch_predictions_accepts send h col now servers ps =
    accepts (length servers) (send (record { servers = map (features_of h col) servers; ts = now }))
      ps
