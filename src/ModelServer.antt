-- ===== src/ModelServer.antt =====
-- ml/model-server/main.go: the scaler, the start of the server, and the handlers. The float
-- arithmetic, the ONNX runtime and the file system are arguments.
pub mod Serving
pub mod Contract
pub mod Process
pub mod Degraded
use neura_balancer.Common.{
  ℕ, suc, zero, Bool, true, false, if◌then◌else◌, ◌==◌, Option, none, some, List, [], ◌∷◌, length,
  get_elem?, ℤ,
}

-- `float32` as the server computes with it.
pub record Arithmetic (F : Type 0) : Type 0 where
  pub is_zero : F → Bool
  pub zero_value : F
  pub sub : F → F → F
  pub div : F → F → F
  pub of_int : ℤ → F

pub record Scaler (F : Type 0) : Type 0 where
  pub mean : List F
  pub scale : List F

abbrev pub expected_features : ℕ
expected_features = 6

pub data ScalerError : Type 0 where
  mean_length : ℕ → ScalerError
  scale_length : ℕ → ScalerError

-- `none` stands for the nil error.
unfoldable pub validate : {F : Type 0} → Scaler F → Option ScalerError
validate sc =
    if length sc.mean == expected_features
    then (if length sc.scale == expected_features
        then none
        else some (scale_length (length sc.scale)))
    else some (mean_length (length sc.mean))

module _ {F : Type 0} (ar : Arithmetic F) where
  -- One feature with the scale and the mean of its index, which are read in this order.
  unfoldable pub normalize_one : F → Option F → Option F → Option F
  normalize_one f none m = none
  normalize_one f (some s) none = if ar.is_zero s then some ar.zero_value else none
  normalize_one f (some s) (some m) =
      if ar.is_zero s then some ar.zero_value else some (ar.div (ar.sub f m) s)

  abbrev cons_both : Option F → Option (List F) → Option (List F)
  cons_both none fs = none
  cons_both (some f) none = none
  cons_both (some f) (some fs) = some (f ∷ fs)

  unfoldable pub normalize_from : Scaler F → ℕ → List F → Option (List F)
  unfolding normalize_one
  normalize_from sc i [] = some []
  normalize_from sc i (f ∷ fs) =
      cons_both (normalize_one f (get_elem? sc.scale i) (get_elem? sc.mean i))
        (normalize_from sc (suc i) fs)

  -- `none` is the panic of an index out of range.
  unfoldable pub normalize : Scaler F → List F → Option (List F)
  unfolding normalize_from
  normalize sc features = normalize_from sc 0 features

-- How the runtime answers for one input: no tensor for it or for the output, a failed run, or the
-- data of the output.
pub data Inference (F : Type 0) : Type 0 where
  no_input_tensor : Inference F
  no_output_tensor : Inference F
  run_failed : Inference F
  output : List F → Inference F

pub data PredictError : Type 0 where
  input_tensor : PredictError
  output_tensor : PredictError
  inference : PredictError
  empty_output : PredictError

pub data Predicted (F : Type 0) : Type 0 where
  score : F → Predicted F
  failed : PredictError → Predicted F
  panics : Predicted F

-- `session` is the loaded model with the runtime.
pub record ModelServer (F : Type 0) : Type 0 where
  pub sc : Scaler F
  pub session : List F → Inference F
  pub loaded : Bool

unfoldable pub read_output : {F : Type 0} → Inference F → Predicted F
read_output no_input_tensor = failed input_tensor
read_output no_output_tensor = failed output_tensor
read_output run_failed = failed inference
read_output (output []) = failed empty_output
read_output (output (f ∷ fs)) = score f

unfoldable pub infer : {F : Type 0} → ModelServer F → Option (List F) → Predicted F
unfolding read_output
infer ms none = panics
infer ms (some norm) = read_output (ms.session norm)

unfoldable pub predict : {F : Type 0} → Arithmetic F → ModelServer F → List F → Predicted F
unfolding infer
predict ar ms features = infer ms (normalize ar ms.sc features)

-- An element of the request's `servers`.
pub record PredictServer (F : Type 0) : Type 0 where
  pub server_id : ℤ
  pub cpu_usage : F
  pub memory_usage : F
  pub active_conns : ℤ
  pub error_rate : F
  pub response_p95 : F
  pub weight : ℤ
  pub capacity : ℤ

-- The body of a request, as read up to 1 MiB and decoded.
pub data Body (F : Type 0) : Type 0 where
  not_read : Body F
  not_json : Body F
  request : List (PredictServer F) → Body F

-- An error with its status, the predictions with status 200, or a panic.
pub data Reply (F : Type 0) : Type 0 where
  http_error : ℕ → Reply F
  predictions : List F → Reply F
  panicked : Reply F

module _ {F : Type 0} (ar : Arithmetic F) where
  unfoldable pub features_of : PredictServer F → List F
  features_of srv =
      srv.cpu_usage
      ∷ srv.memory_usage
      ∷ ar.of_int srv.active_conns
      ∷ srv.error_rate
      ∷ srv.response_p95
      ∷ ar.of_int srv.capacity
      ∷ []

  abbrev push_score : Predicted F → Reply F → Reply F
  push_score panics rest = panicked
  push_score (failed e) rest = http_error 500
  push_score (score f) (predictions fs) = predictions (f ∷ fs)
  push_score (score f) (http_error status) = http_error status
  push_score (score f) panicked = panicked

  -- The loop over the servers, which the first failure ends.
  unfoldable pub predict_all : ModelServer F → List (PredictServer F) → Reply F
  unfolding predict features_of
  predict_all ms [] = predictions []
  predict_all ms (srv ∷ srvs) = push_score (predict ar ms (features_of srv)) (predict_all ms srvs)

  unfoldable pub answer : ModelServer F → Body F → Reply F
  unfolding predict_all
  answer ms not_read = http_error 400
  answer ms not_json = http_error 400
  answer ms (request []) = http_error 400
  answer ms (request (srv ∷ srvs)) = predict_all ms (srv ∷ srvs)

  -- The handler of /predict; `none` is the server in degraded mode.
  unfoldable pub handle_predict : Option (ModelServer F) → Body F → Reply F
  unfolding answer
  handle_predict none body = http_error 503
  handle_predict (some ms) body = if ms.loaded then answer ms body else http_error 503

-- The handler of /health answers 200 always; this is its status text, where `true` is "ok".
unfoldable pub handle_health : {F : Type 0} → Option (ModelServer F) → ℕ × Bool
handle_health none = (200, false)
handle_health (some ms) = (200, ms.loaded)

-- What the start finds: whether both files exist, the scaler's file read and parsed, and the
-- session, `none` where the runtime, its options or the model fail.
pub record Startup (F : Type 0) : Type 0 where
  pub files_exist : Bool
  pub raw_scaler : Option (Option (Scaler F))
  pub session : Option (List F → Inference F)

pub data StartError : Type 0 where
  file_missing : StartError
  scaler_not_read : StartError
  scaler_not_parsed : StartError
  invalid_scaler : ScalerError → StartError
  onnx : StartError

pub data Started (F : Type 0) : Type 0 where
  started : ModelServer F → Started F
  start_failed : StartError → Started F

abbrev open_session : {F : Type 0} → Scaler F → Option (List F → Inference F) → Started F
open_session sc none = start_failed onnx
open_session sc (some session) = started (record { sc = sc; session = session; loaded = true })

abbrev check_scaler :
    {F : Type 0} → Scaler F → Option ScalerError → Option (List F → Inference F) → Started F
check_scaler sc (some e) session = start_failed (invalid_scaler e)
check_scaler sc none session = open_session sc session

unfoldable pub load_scaler :
    {F : Type 0} → Option (Option (Scaler F)) → Option (List F → Inference F) → Started F
unfolding validate
load_scaler none session = start_failed scaler_not_read
load_scaler (some none) session = start_failed scaler_not_parsed
load_scaler (some (some sc)) session = check_scaler sc (validate sc) session

unfoldable pub new_model_server : {F : Type 0} → Startup F → Started F
unfolding load_scaler
new_model_server world =
    if world.files_exist
    then load_scaler world.raw_scaler world.session
    else start_failed file_missing
