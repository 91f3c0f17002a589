-- ===== src/Api/Router.antt =====
-- backend/internal/api/router.go: the routes and the middleware in their order.
use neura_balancer.Common.{List, [], ◌∷◌, ◌++◌}
use neura_balancer.Common.Text.{Text, codes}

pub data Handler : Type 0 where
  health_check : Handler
  readiness_check : Handler
  prometheus : Handler
  servers_status : Handler
  proxy_handler : Handler

pub data Middleware : Type 0 where
  recover : Middleware
  request_id : Middleware
  cors : Middleware
  structured_logger : Middleware
  tracing : Middleware
  rate_limiter : Middleware

pub data Method : Type 0 where
  get : Method
  any : Method

pub record Route : Type 0 where
  pub method : Method
  pub path : Text
  pub handler : Handler

-- The outermost middleware first.
pub record Router : Type 0 where
  pub middleware : List Middleware
  pub routes : List Route

abbrev group : Text → List Route → List Route
group prefix [] = []
group prefix (r ∷ rs) = record r { path = prefix ++ r.path } ∷ group prefix rs

unfoldable pub new_router : Router
new_router = record {
  middleware = recover ∷ request_id ∷ cors ∷ structured_logger ∷ tracing ∷ rate_limiter ∷ [];
  routes =
      record { method = get; path = codes "/health/live"; handler = health_check }
      ∷ record { method = get; path = codes "/health/ready"; handler = readiness_check }
      ∷ record { method = get; path = codes "/metrics"; handler = prometheus }
      ∷ group (codes "/api/v1") (
          record { method = get; path = codes "/servers"; handler = servers_status }
          ∷ record { method = any; path = codes "/request"; handler = proxy_handler }
          ∷ record { method = any; path = codes "/request/*"; handler = proxy_handler }
          ∷ []);
}
