-- ===== src/ModelServer/Contract.antt =====
-- The load balancer's exchange with the model server: `fetchPredictions` against the handler of
-- /predict. The JSON of a request is an argument, as is its decoder, and of the body the handler reads
-- no more than 1 MiB. So is what comes of the scores through the JSON encoder, whose error the handler
-- drops, and the decoder.
use neura_balancer.Common.{ℕ, zero, ◌≡◌, refl, List, [], ◌∷◌, map, suc, pos, none, some}
use neura_balancer.Common.Text.{Text}
use neura_balancer.Metrics.Readings.{Readings}
use neura_balancer.Ml.Exchange as Fetch
use neura_balancer.Ml.Exchange.{
  Exchange, not_encoded, not_answered, answered, MlRequest, ServerFeatures, Fetched, http_status,
  fetch_predictions, check_exchange,
}
use neura_balancer.ModelServer.{
  Arithmetic, ModelServer, PredictServer, Body, not_json, request, Reply, http_error, predictions,
  panicked, handle_predict,
}
use neura_balancer.Server.{Ref, Heap}
use mathlib.Core.Option.{Option}

-- `io.LimitReader`.
abbrev pub limited : ℕ → Text → Text
limited zero cs = []
limited (suc n) [] = []
limited (suc n) (c ∷ cs) = c ∷ limited n cs

-- `json.Marshal` of a request, which fails at a float that is no number, `json.Unmarshal` of a body,
-- and what comes of the scores.
pub record Wire (F D : Type 0) : Type 0 where
  pub encode : MlRequest D → Option Text
  pub decode : Text → Option (List (PredictServer F))
  pub transfer : List F → Option (List F)

module _ {F D : Type 0} (ar : Arithmetic F) (narrow : D → F) (wire : Wire F D) where
  abbrev pub received : ServerFeatures D → PredictServer F
  received f = record {
    server_id = f.server_id;
    cpu_usage = narrow f.cpu_usage;
    memory_usage = narrow f.memory_usage;
    active_conns = pos f.active_conns;
    error_rate = narrow f.error_rate;
    response_p95 = narrow f.response_p95;
    weight = f.weight;
    capacity = f.capacity;
  }

  -- A panic of the handler closes the connection; the text of an error is no JSON object.
  abbrev pub as_exchange : Reply F → Exchange F
  as_exchange (http_error status) = answered status none
  as_exchange (predictions fs) = answered 200 (wire.transfer fs)
  as_exchange panicked = not_answered

  -- The model server as what the balancer's requests are sent to.
  abbrev pub decoded : Option (List (PredictServer F)) → Body F
  decoded none = not_json
  decoded (some srvs) = request srvs

  abbrev pub sent : Option (ModelServer F) → Option Text → Exchange F
  sent ms none = not_encoded
  sent ms (some body) =
      as_exchange (handle_predict ar ms (decoded (wire.decode (limited 1_048_576 body))))

  abbrev pub send_to : Option (ModelServer F) → MlRequest D → Exchange F
  send_to ms req = sent ms (wire.encode req)

  -- A model server in degraded mode makes every fetch of predictions fail with status 503, if the request can be
  -- encoded.
  pub fetch_predictions-degraded :
      (h : Heap) (col : Readings D) (now : ℕ) (rs : List Ref) (body : Text)
      → wire.encode (record { servers = map (Fetch.features_of h col) rs; ts = now }) ≡ some body
      → fetch_predictions (send_to none) h col now rs ≡ Fetch.failed (http_status 503)
  unfolding fetch_predictions check_exchange handle_predict
  fetch_predictions-degraded h col now rs body encoded = rw encoded refl
