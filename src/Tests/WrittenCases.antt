-- ===== src/Tests/WrittenCases.antt =====
-- A configuration whose values an environment holds.
use neura_balancer.Common.{
  ◌≡◌, refl, true, false, if◌then◌else◌, Option, none, some, List, [], ◌∷◌, pos, scale, wrap_int,
  arith,
}
use neura_balancer.Common.Text.{Text, codes, text_eq, format_int}
use neura_balancer.Common.Text.Numbers.{to_lower}
use neura_balancer.Common.Text.Spaces.{is_space, trim_left, trim_space}
use neura_balancer.Config.{Environment, Config, read_config}
use neura_balancer.Config.Servers.{join}
use neura_balancer.Config.Weights.{parse_weights, read_weights}
use neura_balancer.Config.Written.{IsWritten, read_config_written}

abbrev lookup : List (Text × Text) → Text → Option Text
lookup [] key = none
lookup ((k, t) ∷ rest) key = let found = lookup rest key in if text_eq k key then some t else found

abbrev config : Config
config = record {
  app = record {
    env = codes "app_env";
    log_level = codes "log_level";
    log_format = codes "log_format";
  };
  server = record { port = pos 56 };
  database = record {
    host = codes "db_host";
    port = pos 49;
    name = codes "db_name";
    user = codes "db_user";
    password = [];
    ssl_mode = codes "db_sslmode";
    max_open_conns = pos 119;
    max_idle_conns = pos 119;
    conn_max_lifetime = wrap_int (scale (pos 30) 60_000_000_000);
  };
  redis = record { addr = codes "redis_addr"; password = []; db = pos 56 };
  ml = record {
    endpoint = codes "ml_model_endpoint";
    timeout_ms = pos 133;
    circuit_breaker_reset_sec = pos 224;
    cache_size = pos 91;
  };
  telemetry = record {
    otel_enabled = true;
    service_name = codes "otel_service_name";
    otlp_endpoint = codes "otel_exporter_otlp_endpoint";
    prometheus_enabled = false;
  };
  health = record { interval_seconds = pos 203; timeout_seconds = pos 196; retries = pos 140 };
  lb = record { strategy = codes "random"; servers = codes "a" ∷ codes "b" ∷ []; weights = [] };
}

abbrev pairs : List (Text × Text)
pairs =
    (codes "APP_ENV", config.app.env)
    ∷ (codes "LOG_LEVEL", config.app.log_level)
    ∷ (codes "LOG_FORMAT", config.app.log_format)
    ∷ (codes "APP_PORT", format_int config.server.port)
    ∷ (codes "DB_HOST", config.database.host)
    ∷ (codes "DB_PORT", format_int config.database.port)
    ∷ (codes "DB_NAME", config.database.name)
    ∷ (codes "DB_USER", config.database.user)
    ∷ (codes "DB_PASSWORD", config.database.password)
    ∷ (codes "DB_SSLMODE", config.database.ssl_mode)
    ∷ (codes "DB_MAX_OPEN_CONNS", format_int config.database.max_open_conns)
    ∷ (codes "DB_MAX_IDLE_CONNS", format_int config.database.max_idle_conns)
    ∷ (codes "REDIS_ADDR", config.redis.addr)
    ∷ (codes "REDIS_PASSWORD", config.redis.password)
    ∷ (codes "REDIS_DB", format_int config.redis.db)
    ∷ (codes "ML_MODEL_ENDPOINT", config.ml.endpoint)
    ∷ (codes "ML_MODEL_TIMEOUT_MS", format_int config.ml.timeout_ms)
    ∷ (codes "ML_CIRCUIT_BREAKER_RESET_SECONDS", format_int config.ml.circuit_breaker_reset_sec)
    ∷ (codes "ML_CACHE_SIZE", format_int config.ml.cache_size)
    ∷ (
      codes "OTEL_ENABLED",
      (if config.telemetry.otel_enabled then codes "true" else codes "false"),
    )
    ∷ (codes "OTEL_SERVICE_NAME", config.telemetry.service_name)
    ∷ (codes "OTEL_EXPORTER_OTLP_ENDPOINT", config.telemetry.otlp_endpoint)
    ∷ (
      codes "PROMETHEUS_ENABLED",
      (if config.telemetry.prometheus_enabled then codes "true" else codes "false"),
    )
    ∷ (codes "HEALTH_CHECK_INTERVAL_SECONDS", format_int config.health.interval_seconds)
    ∷ (codes "HEALTH_CHECK_TIMEOUT_SECONDS", format_int config.health.timeout_seconds)
    ∷ (codes "HEALTH_CHECK_RETRIES", format_int config.health.retries)
    ∷ (codes "DB_CONN_MAX_LIFETIME_MINUTES", format_int (pos 30))
    ∷ (codes "LB_STRATEGY", codes "random")
    ∷ (codes "SERVERS", join b',' (codes "a") (codes "b" ∷ []))
    ∷ []

abbrev env : Environment
env = record { lookup_env = lookup pairs; environ = []; unicode_lower = λ c. c }

config-IsWritten : IsWritten env config
unfolding text_eq to_lower is_space trim_left trim_space parse_weights read_weights
config-IsWritten = record {
  app_env = (refl, ground arith);
  app_log_level = (refl, ground arith);
  app_log_format = (refl, ground arith);
  server_port = (refl, omega arith);
  database_host = (refl, ground arith);
  database_port = (refl, omega arith);
  database_name = (refl, ground arith);
  database_user = (refl, ground arith);
  database_password = refl;
  database_ssl_mode = (refl, ground arith);
  database_max_open_conns = (refl, omega arith);
  database_max_idle_conns = (refl, omega arith);
  redis_addr = (refl, ground arith);
  redis_password = refl;
  redis_db = (refl, omega arith);
  ml_endpoint = (refl, ground arith);
  ml_timeout_ms = (refl, omega arith);
  ml_circuit_breaker_reset_sec = (refl, omega arith);
  ml_cache_size = (refl, omega arith);
  telemetry_otel_enabled = refl;
  telemetry_service_name = (refl, ground arith);
  telemetry_otlp_endpoint = (refl, ground arith);
  telemetry_prometheus_enabled = refl;
  health_interval_seconds = (refl, omega arith);
  health_timeout_seconds = (refl, omega arith);
  health_retries = (refl, omega arith);
  minutes = pos 30;
  lifetime = (refl, omega arith);
  lifetime_scaled = refl;
  strategy = (refl, ground arith);
  strategy_lower = refl;
  first = codes "a";
  others = codes "b" ∷ [];
  servers_listed = refl;
  servers = (refl, ground arith);
  servers_free = ((ground arith, tt), ((ground arith, tt), tt));
  servers_trimmed = ((refl, ground arith), ((refl, ground arith), tt));
}

read_config_written_example : read_config env ≡ config
unfolding parse_weights
read_config_written_example = read_config_written env config config-IsWritten
