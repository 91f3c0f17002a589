-- ===== src/Api/Middleware.antt =====
-- backend/internal/api/middleware.go: the identifier of a request, the level of its log line, and the
-- settings of echo's own middleware.
use neura_balancer.Common.{ℕ, Bool, true, false, if◌then◌else◌, leb, List, [], ◌∷◌}
use neura_balancer.Common.Text.{Text, codes}
use neura_balancer.Api.Context.{
  Context, Handled, finished, panics, header_get, header_set, x_request_id,
}

abbrev pub or_fresh : Text → Text → Text
or_fresh [] fresh = fresh
or_fresh (b ∷ bs) fresh = b ∷ bs

-- `RequestID` up to the next handler: the client's identifier, if it has sent one, and else a new one,
-- is set on the request and on the response.
unfoldable pub request_id : Text → Context → Context
unfolding header_get header_set
request_id fresh c =
    let id = or_fresh (header_get x_request_id c.request.headers) fresh in
    record c {
      request = record c.request { headers = header_set x_request_id id c.request.headers };
      headers = header_set x_request_id id c.headers;
    }

pub data LogLevel : Type 0 where
  debug : LogLevel
  info : LogLevel
  warn : LogLevel
  error : LogLevel

-- By whether the handler returned an error and by the status.
unfoldable pub request_level : Bool → ℕ → LogLevel
request_level true status = error
request_level false status =
    if leb 500 status then error else (if leb 400 status then warn else info)

-- The line of `StructuredLogger`; a panic passes it by.
unfoldable pub structured_logger : Handled → List LogLevel
structured_logger (finished c has_failed) = request_level has_failed c.status ∷ []
structured_logger (panics c) = []

-- `middleware.CORSConfig`
pub record CorsConfig : Type 0 where
  pub allow_origins : List Text
  pub allow_methods : List Text
  pub allow_headers : List Text
  pub expose_headers : List Text
  pub allow_credentials : Bool
  pub max_age : ℕ

unfoldable pub cors_config : CorsConfig
cors_config = record {
  allow_origins = codes "*" ∷ [];
  allow_methods = codes "GET" ∷ codes "POST" ∷ codes "PUT" ∷ codes "DELETE" ∷ codes "OPTIONS" ∷ [];
  allow_headers =
      codes "Origin"
      ∷ codes "Content-Type"
      ∷ codes "Accept"
      ∷ codes "Authorization"
      ∷ x_request_id
      ∷ [];
  expose_headers = codes "Content-Length" ∷ x_request_id ∷ [];
  allow_credentials = false;
  max_age = 86400;
}

-- The requests per second of one address.
unfoldable pub rate_limit : ℕ
rate_limit = 100
