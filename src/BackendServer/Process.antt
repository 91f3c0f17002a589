-- ===== src/BackendServer/Process.antt =====
-- The start, the routes and the end of backend/cmd/server/main.go. The environment after the .env file
-- has been read, zap and the HTTP server are arguments.
use neura_balancer.Common.{ℕ, Bool, if◌then◌else◌, List, [], ◌∷◌, ◌++◌}
use neura_balancer.Common.Text.{Text, codes, text_eq}
use neura_balancer.Config.Variables.{Environment, non_empty}
use neura_balancer.BackendServer.{Sampler, Rounding, handle_metrics}

unfoldable pub get_env : Environment → Text → Text → Text
get_env env key fallback = non_empty (env.lookup_env key) fallback

-- The log level is read and not used. `development` is zap's configuration for the console.
pub record Settings : Type 0 where
  pub port : Text
  pub instance_id : Text
  pub development : Bool

unfoldable pub load_settings : Environment → Settings
unfolding get_env
load_settings env =
    let port = get_env env (codes "BACKEND_PORT") (codes "8001") in
    record {
      port = port;
      instance_id = get_env env (codes "BACKEND_INSTANCE_ID") (codes "backend-" ++ port);
      development = text_eq (get_env env (codes "LOG_FORMAT") (codes "json")) (codes "text");
    }

pub data Body (D : Type 0) : Type 0 where
  health_body : Text → Body D
  usages : D × D → Body D
  identity : Text → Text → Body D

-- What the server answers to a path, which `ServeMux` has cleaned: the status and the JSON body.
unfoldable pub serve : {D : Type 0} → Settings → Rounding D → Sampler D → Text → ℕ × Body D
unfolding handle_metrics
serve c rd sm path =
    if text_eq path (codes "/health")
    then (200, health_body c.instance_id)
    else (if text_eq path (codes "/metrics")
        then (200, usages (handle_metrics rd sm))
        else (200, identity c.instance_id c.port))

-- What the program does: a failed start of the logger ends it, and a server that ends, by a signal or
-- an error, is shut down.
pub data Event : Type 0 where
  wrote_error : Event
  exited : Event
  sampling : Event
  listening : Text → Event
  shut_down : Event

unfoldable pub main : Environment → (Bool → Bool) → List Event
main env builds_logger =
    let c = load_settings env in
    if builds_logger c.development
    then sampling ∷ listening (codes ":" ++ c.port) ∷ shut_down ∷ []
    else wrote_error ∷ exited ∷ []
