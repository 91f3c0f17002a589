-- ===== src/ModelServer/Process.antt =====
-- The configuration, the version handler and the start of ml/model-server/main.go. `fmt.Sscan`, the
-- operating system and the HTTP server are arguments.
use neura_balancer.Common.{
  Bool, if◌then◌else◌, Option, none, some, List, [], ◌∷◌, ◌++◌, ℤ, pos, scale, wrap_int,
}
use neura_balancer.Common.Text.{Text, codes}
use neura_balancer.Config.Variables.{Environment, non_empty}
use neura_balancer.ModelServer.{ModelServer, Started, started, start_failed}

-- `shutdown_timeout` is in nanoseconds.
pub record ServerConfig : Type 0 where
  pub port : Text
  pub model_path : Text
  pub scaler_path : Text
  pub onnx_lib_path : Text
  pub shutdown_timeout : ℤ

-- The environment, whether the system is Windows, and `fmt.Sscan` of an integer.
pub record System : Type 0 where
  pub env : Environment
  pub is_windows : Bool
  pub scan_int : Text → Option ℤ

module _ (sys : System) where
  unfoldable pub get_env : Text → Text → Text
  get_env key fallback = non_empty (sys.env.lookup_env key) fallback

  abbrev or_fallback : Option ℤ → ℤ → ℤ
  or_fallback none fallback = fallback
  or_fallback (some n) fallback = n

  unfoldable pub get_env_int : Text → ℤ → ℤ
  unfolding get_env
  get_env_int key fallback = elim (get_env key []) [
    | [] ↦ fallback
    | c ∷ cs ↦ or_fallback (sys.scan_int (c ∷ cs)) fallback
  ]

  unfoldable pub onnx_lib_default : Text
  unfolding get_env
  onnx_lib_default =
      if sys.is_windows
      then get_env (codes "ONNX_LIB_PATH_WIN") (codes "onnxruntime.dll")
      else codes "libonnxruntime.so"

  unfoldable pub load_config : ServerConfig
  unfolding get_env get_env_int onnx_lib_default
  load_config = record {
    port = get_env (codes "ML_SERVICE_PORT") (codes "8081");
    model_path = get_env (codes "MODEL_PATH") (codes "ml/models/load_balancer.onnx");
    scaler_path = get_env (codes "SCALER_PATH") (codes "ml/models/scaler.json");
    onnx_lib_path = get_env (codes "ONNX_LIB_PATH") onnx_lib_default;
    shutdown_timeout =
        wrap_int (scale (get_env_int (codes "SHUTDOWN_TIMEOUT_SECONDS") (pos 10)) 1_000_000_000);
  }

  -- The model's version in the body of the handler of /version.
  unfoldable pub handle_version : {F : Type 0} → Option (ModelServer F) → Text
  unfolding get_env
  handle_version none = codes "none - model not trained yet"
  handle_version (some ms) =
      if ms.loaded
      then get_env (codes "MODEL_VERSION") (codes "1.0.0")
      else codes "none - model not trained yet"

-- A failed start leaves the server without a model.
unfoldable pub model_of : {F : Type 0} → Started F → Option (ModelServer F)
model_of (started ms) = some ms
model_of (start_failed e) = none

pub data Event (F : Type 0) : Type 0 where
  served : Option (ModelServer F) → Text → Event F
  destroyed_session : Event F
  destroyed_environment : Event F
  fatal : Event F

abbrev cleanup : {F : Type 0} → Option (ModelServer F) → List (Event F)
cleanup none = []
cleanup (some ms) = destroyed_session ∷ destroyed_environment ∷ []

-- What `main` does; a server that fails ends the program by a fatal log line, which runs nothing
-- that was deferred.
unfoldable pub main : {F : Type 0} → System → Started F → Bool → List (Event F)
unfolding model_of
main sys start server_fails =
    let ms = model_of start in
    served ms (codes ":" ++ (load_config sys).port)
    ∷ (if server_fails then fatal ∷ [] else cleanup ms)
