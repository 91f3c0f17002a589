-- ===== src/Config.antt =====
-- backend/internal/config/config.go: the records, the loader and the validation.
pub mod Variables
pub mod Servers
pub mod Weights
pub mod Levels
pub mod Validation
pub mod Holding
pub mod Written
use neura_balancer.Common.{
  ℕ, ◌*◌, Bool, true, false, ◌||◌, ◌&&◌, if◌then◌else◌, Option, none, some, List, [], ◌∷◌, ◌++◌, ℤ,
  pos, scale, wrap_int,
}
use neura_balancer.Common.Text.{Text, codes, text_eq, format_int}
use neura_balancer.Common.Text.Numbers.{atoi, to_lower}
unfoldable pub use neura_balancer.Config.Variables.{get_env, get_env_int, parse_bool, get_env_bool}
pub use neura_balancer.Config.Variables.{Environment}
use neura_balancer.Config.Servers.{parse_server_list}
use neura_balancer.Config.Weights.{parse_weights}

pub record AppConfig : Type 0 where
  pub env : Text
  pub log_level : Text
  pub log_format : Text

pub record ServerConfig : Type 0 where
  pub port : ℤ

pub record LbConfig : Type 0 where
  pub strategy : Text
  pub servers : List Text
  pub weights : List (Text × ℤ)

-- `conn_max_lifetime` is in nanoseconds.
pub record DatabaseConfig : Type 0 where
  pub host : Text
  pub port : ℤ
  pub name : Text
  pub user : Text
  pub password : Text
  pub ssl_mode : Text
  pub max_open_conns : ℤ
  pub max_idle_conns : ℤ
  pub conn_max_lifetime : ℤ

pub record RedisConfig : Type 0 where
  pub addr : Text
  pub password : Text
  pub db : ℤ

pub record MlConfig : Type 0 where
  pub endpoint : Text
  pub timeout_ms : ℤ
  pub circuit_breaker_reset_sec : ℤ
  pub cache_size : ℤ

pub record TelemetryConfig : Type 0 where
  pub otel_enabled : Bool
  pub service_name : Text
  pub otlp_endpoint : Text
  pub prometheus_enabled : Bool

pub record HealthConfig : Type 0 where
  pub interval_seconds : ℤ
  pub timeout_seconds : ℤ
  pub retries : ℤ

pub record Config : Type 0 where
  pub app : AppConfig
  pub server : ServerConfig
  pub lb : LbConfig
  pub database : DatabaseConfig
  pub redis : RedisConfig
  pub ml : MlConfig
  pub telemetry : TelemetryConfig
  pub health : HealthConfig

pub data ConfigError : Type 0 where
  no_servers : ConfigError
  invalid_strategy : Text → ConfigError

pub data Loaded : Type 0 where
  ok : Config → Loaded
  err : ConfigError → Loaded

-- The keys of `validStrategies`.
unfoldable pub is_valid_strategy : Text → Bool
is_valid_strategy name =
    text_eq name (codes "round_robin")
    || text_eq name (codes "weighted_round_robin")
    || text_eq name (codes "least_connections")
    || text_eq name (codes "random")
    || text_eq name (codes "ml")

-- `none` stands for the nil error.
unfoldable pub validate : Config → Option ConfigError
unfolding is_valid_strategy
validate c = elim c.lb.servers [
  | [] ↦ some no_servers
  | u ∷ us ↦ if is_valid_strategy c.lb.strategy then none else some (invalid_strategy c.lb.strategy)
]

-- The configuration before it is validated.
unfoldable pub read_config : Environment → Config
read_config env =
    let text = get_env env in
    let int = get_env_int env in
    let bool = get_env_bool env in
    record {
      app = record {
        env = text (codes "APP_ENV") (codes "development");
        log_level = text (codes "LOG_LEVEL") (codes "info");
        log_format = text (codes "LOG_FORMAT") (codes "json");
      };
      server = record { port = int (codes "APP_PORT") (pos 8080) };
      lb = record {
        strategy =
            to_lower env.unicode_lower (text (codes "LB_STRATEGY") (codes "least_connections"));
        servers = parse_server_list (text (codes "SERVERS") []);
        weights = parse_weights env.environ;
      };
      database = record {
        host = text (codes "DB_HOST") (codes "localhost");
        port = int (codes "DB_PORT") (pos 5432);
        name = text (codes "DB_NAME") (codes "neurabalancer");
        user = text (codes "DB_USER") (codes "postgres");
        password = text (codes "DB_PASSWORD") [];
        ssl_mode = text (codes "DB_SSLMODE") (codes "disable");
        max_open_conns = int (codes "DB_MAX_OPEN_CONNS") (pos 25);
        max_idle_conns = int (codes "DB_MAX_IDLE_CONNS") (pos 10);
        conn_max_lifetime =
            wrap_int (scale (int (codes "DB_CONN_MAX_LIFETIME_MINUTES") (pos 30)) 60_000_000_000);
      };
      redis = record {
        addr = text (codes "REDIS_ADDR") (codes "localhost:6379");
        password = text (codes "REDIS_PASSWORD") [];
        db = int (codes "REDIS_DB") (pos 0);
      };
      ml = record {
        endpoint = text (codes "ML_MODEL_ENDPOINT") (codes "http://ml-service:8081");
        timeout_ms = int (codes "ML_MODEL_TIMEOUT_MS") (pos 300);
        circuit_breaker_reset_sec = int (codes "ML_CIRCUIT_BREAKER_RESET_SECONDS") (pos 30);
        cache_size = int (codes "ML_CACHE_SIZE") (pos 1000);
      };
      telemetry = record {
        otel_enabled = bool (codes "OTEL_ENABLED") true;
        service_name = text (codes "OTEL_SERVICE_NAME") (codes "neurabalancer");
        otlp_endpoint =
            text (codes "OTEL_EXPORTER_OTLP_ENDPOINT") (codes "http://otel-collector:4317");
        prometheus_enabled = bool (codes "PROMETHEUS_ENABLED") true;
      };
      health = record {
        interval_seconds = int (codes "HEALTH_CHECK_INTERVAL_SECONDS") (pos 5);
        timeout_seconds = int (codes "HEALTH_CHECK_TIMEOUT_SECONDS") (pos 3);
        retries = int (codes "HEALTH_CHECK_RETRIES") (pos 3);
      };
    }

unfoldable pub loaded : Config → Option ConfigError → Loaded
loaded c none = ok c
loaded c (some e) = err e

unfoldable pub load : Environment → Loaded
unfolding loaded
load env = let c = read_config env in loaded c (validate c)

-- `DatabaseConfig.DSN` and `ServerConfig.Addr`.
unfoldable pub dsn : DatabaseConfig → Text
dsn c =
    codes "host="
    ++ c.host
    ++ codes " port="
    ++ format_int c.port
    ++ codes " user="
    ++ c.user
    ++ codes " password="
    ++ c.password
    ++ codes " dbname="
    ++ c.name
    ++ codes " sslmode="
    ++ c.ssl_mode

unfoldable pub addr : ServerConfig → Text
addr c = codes ":" ++ format_int c.port
