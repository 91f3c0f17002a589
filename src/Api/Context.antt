-- ===== src/Api/Context.antt =====
-- The context that echo hands to the middleware and the handlers of backend/internal/api.
use neura_balancer.Common.{ℕ, Bool, if◌then◌else◌, Option, List, [], ◌∷◌}
use neura_balancer.Common.Text.{Text, codes, text_eq}
use neura_balancer.Api.{Liveness, Probe, ServerInfo}
use neura_balancer.Balancer.Proxy.{Request}

-- `http.Header`, with the keys in their canonical form.
abbrev pub Headers : Type 0
Headers = List (Text × Text)

-- `Header.Get`: the first value of a key, and the empty text without one.
unfoldable pub header_get : Text → Headers → Text
header_get key [] = []
header_get key ((k, v) ∷ hs) = let rest = header_get key hs in if text_eq k key then v else rest

unfoldable pub header_del : Text → Headers → Headers
header_del key [] = []
header_del key ((k, v) ∷ hs) =
    let rest = header_del key hs in if text_eq k key then rest else (k, v) ∷ rest

-- `Header.Set`
unfoldable pub header_set : Text → Text → Headers → Headers
unfolding header_del
header_set key value hs = (key, value) ∷ header_del key hs

-- `echo.HeaderXRequestID`
abbrev pub x_request_id : Text
x_request_id = codes "X-Request-Id"

-- The bodies: the JSON of the handlers, and bytes.
pub data Content : Type 0 where
  live : Liveness → Content
  probe : Probe → Content
  server_list : List ServerInfo → Content
  bytes : Text → Content

-- `headers` and `status` are those of echo's `Response`; `written` is what was written to the
-- connection.
pub record Context : Type 0 where
  pub request : Request
  pub headers : Headers
  pub status : ℕ
  pub written : Option (ℕ × Content)

-- A handler returns, with an error or without, or it panics.
pub data Handled : Type 0 where
  finished : Context → Bool → Handled
  panics : Context → Handled

abbrev pub context_of : Handled → Context
context_of (finished c has_failed) = c
context_of (panics c) = c
