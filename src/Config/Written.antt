-- ===== src/Config/Written.antt =====
-- A configuration against the environment that its values are written to.
use neura_balancer.Common.{◌≡◌, refl, List, ◌∷◌, All, ℤ, scale, wrap_int}
use neura_balancer.Common.Text.{Text, codes}
use neura_balancer.Common.Text.Fields.{Free}
use neura_balancer.Common.Text.Numbers.{to_lower}
use neura_balancer.Config.{Environment, Config, read_config}
use neura_balancer.Config.Servers.{join, IsTrimmed, parse_server_list-join}
use neura_balancer.Config.Weights.{parse_weights}
use neura_balancer.Config.Holding.{
  HoldsText, HoldsRaw, HoldsInt, HoldsBool, get_env-HoldsText, get_env-HoldsRaw,
  get_env_int-HoldsInt, get_env_bool-HoldsBool,
}

-- The environment holds the values of a configuration. The lifetime of connections is held in minutes
-- and the servers as one text; the weights are those that the environment names.
pub record IsWritten (env : Environment) (c : Config) : Type 0 where
  pub app_env : HoldsText env (codes "APP_ENV") c.app.env
  pub app_log_level : HoldsText env (codes "LOG_LEVEL") c.app.log_level
  pub app_log_format : HoldsText env (codes "LOG_FORMAT") c.app.log_format
  pub server_port : HoldsInt env (codes "APP_PORT") c.server.port
  pub database_host : HoldsText env (codes "DB_HOST") c.database.host
  pub database_port : HoldsInt env (codes "DB_PORT") c.database.port
  pub database_name : HoldsText env (codes "DB_NAME") c.database.name
  pub database_user : HoldsText env (codes "DB_USER") c.database.user
  pub database_password : HoldsRaw env (codes "DB_PASSWORD") c.database.password
  pub database_ssl_mode : HoldsText env (codes "DB_SSLMODE") c.database.ssl_mode
  pub database_max_open_conns : HoldsInt env (codes "DB_MAX_OPEN_CONNS") c.database.max_open_conns
  pub database_max_idle_conns : HoldsInt env (codes "DB_MAX_IDLE_CONNS") c.database.max_idle_conns
  pub redis_addr : HoldsText env (codes "REDIS_ADDR") c.redis.addr
  pub redis_password : HoldsRaw env (codes "REDIS_PASSWORD") c.redis.password
  pub redis_db : HoldsInt env (codes "REDIS_DB") c.redis.db
  pub ml_endpoint : HoldsText env (codes "ML_MODEL_ENDPOINT") c.ml.endpoint
  pub ml_timeout_ms : HoldsInt env (codes "ML_MODEL_TIMEOUT_MS") c.ml.timeout_ms
  pub ml_circuit_breaker_reset_sec :
      HoldsInt env (codes "ML_CIRCUIT_BREAKER_RESET_SECONDS") c.ml.circuit_breaker_reset_sec
  pub ml_cache_size : HoldsInt env (codes "ML_CACHE_SIZE") c.ml.cache_size
  pub telemetry_otel_enabled : HoldsBool env (codes "OTEL_ENABLED") c.telemetry.otel_enabled
  pub telemetry_service_name : HoldsText env (codes "OTEL_SERVICE_NAME") c.telemetry.service_name
  pub telemetry_otlp_endpoint :
      HoldsText env (codes "OTEL_EXPORTER_OTLP_ENDPOINT") c.telemetry.otlp_endpoint
  pub telemetry_prometheus_enabled :
      HoldsBool env (codes "PROMETHEUS_ENABLED") c.telemetry.prometheus_enabled
  pub health_interval_seconds :
      HoldsInt env (codes "HEALTH_CHECK_INTERVAL_SECONDS") c.health.interval_seconds
  pub health_timeout_seconds :
      HoldsInt env (codes "HEALTH_CHECK_TIMEOUT_SECONDS") c.health.timeout_seconds
  pub health_retries : HoldsInt env (codes "HEALTH_CHECK_RETRIES") c.health.retries
  pub minutes : ℤ
  pub lifetime : HoldsInt env (codes "DB_CONN_MAX_LIFETIME_MINUTES") minutes
  pub lifetime_scaled : c.database.conn_max_lifetime ≡ wrap_int (scale minutes 60_000_000_000)
  pub strategy : HoldsText env (codes "LB_STRATEGY") c.lb.strategy
  pub strategy_lower : to_lower env.unicode_lower c.lb.strategy ≡ c.lb.strategy
  pub first : Text
  pub others : List Text
  pub servers_listed : c.lb.servers ≡ first ∷ others
  pub servers : HoldsText env (codes "SERVERS") (join b',' first others)
  pub servers_free : All (Free b',') (first ∷ others)
  pub servers_trimmed : All IsTrimmed (first ∷ others)

module _ (env : Environment) (c : Config) (w : IsWritten env c) where
  app_read : (read_config env).app ≡ c.app
  unfolding read_config
  app_read =
      rw
        (
          get_env-HoldsText env (codes "APP_ENV") _ c.app.env w.app_env,
          get_env-HoldsText env (codes "LOG_LEVEL") _ c.app.log_level w.app_log_level,
          get_env-HoldsText env (codes "LOG_FORMAT") _ c.app.log_format w.app_log_format,
        )
        refl

  server_read : (read_config env).server ≡ c.server
  unfolding read_config
  server_read = rw (get_env_int-HoldsInt env (codes "APP_PORT") _ c.server.port w.server_port) refl

  redis_read : (read_config env).redis ≡ c.redis
  unfolding read_config
  redis_read =
      rw
        (
          get_env-HoldsText env (codes "REDIS_ADDR") _ c.redis.addr w.redis_addr,
          get_env-HoldsRaw env (codes "REDIS_PASSWORD") c.redis.password w.redis_password,
          get_env_int-HoldsInt env (codes "REDIS_DB") _ c.redis.db w.redis_db,
        )
        refl

  ml_read : (read_config env).ml ≡ c.ml
  unfolding read_config
  ml_read =
      rw
        (
          get_env-HoldsText env (codes "ML_MODEL_ENDPOINT") _ c.ml.endpoint w.ml_endpoint,
          get_env_int-HoldsInt env (codes "ML_MODEL_TIMEOUT_MS") _ c.ml.timeout_ms w.ml_timeout_ms,
          get_env_int-HoldsInt env (codes "ML_CIRCUIT_BREAKER_RESET_SECONDS") _
              c.ml.circuit_breaker_reset_sec w.ml_circuit_breaker_reset_sec,
          get_env_int-HoldsInt env (codes "ML_CACHE_SIZE") _ c.ml.cache_size w.ml_cache_size,
        )
        refl

  telemetry_read : (read_config env).telemetry ≡ c.telemetry
  unfolding read_config
  telemetry_read =
      rw
        (
          get_env_bool-HoldsBool env (codes "OTEL_ENABLED") _ c.telemetry.otel_enabled
              w.telemetry_otel_enabled,
          get_env-HoldsText env (codes "OTEL_SERVICE_NAME") _ c.telemetry.service_name
              w.telemetry_service_name,
          get_env-HoldsText env (codes "OTEL_EXPORTER_OTLP_ENDPOINT") _ c.telemetry.otlp_endpoint
              w.telemetry_otlp_endpoint,
          get_env_bool-HoldsBool env (codes "PROMETHEUS_ENABLED") _ c.telemetry.prometheus_enabled
              w.telemetry_prometheus_enabled,
        )
        refl

  health_read : (read_config env).health ≡ c.health
  unfolding read_config
  health_read =
      rw
        (
          get_env_int-HoldsInt env (codes "HEALTH_CHECK_INTERVAL_SECONDS") _
              c.health.interval_seconds w.health_interval_seconds,
          get_env_int-HoldsInt env (codes "HEALTH_CHECK_TIMEOUT_SECONDS") _ c.health.timeout_seconds
              w.health_timeout_seconds,
          get_env_int-HoldsInt env (codes "HEALTH_CHECK_RETRIES") _ c.health.retries
              w.health_retries,
        )
        refl

  database_read : (read_config env).database ≡ c.database
  unfolding read_config
  database_read =
      rw
        (
          get_env-HoldsText env (codes "DB_HOST") _ c.database.host w.database_host,
          get_env_int-HoldsInt env (codes "DB_PORT") _ c.database.port w.database_port,
          get_env-HoldsText env (codes "DB_NAME") _ c.database.name w.database_name,
          get_env-HoldsText env (codes "DB_USER") _ c.database.user w.database_user,
          get_env-HoldsRaw env (codes "DB_PASSWORD") c.database.password w.database_password,
          get_env-HoldsText env (codes "DB_SSLMODE") _ c.database.ssl_mode w.database_ssl_mode,
          get_env_int-HoldsInt env (codes "DB_MAX_OPEN_CONNS") _ c.database.max_open_conns
              w.database_max_open_conns,
          get_env_int-HoldsInt env (codes "DB_MAX_IDLE_CONNS") _ c.database.max_idle_conns
              w.database_max_idle_conns,
          get_env_int-HoldsInt env (codes "DB_CONN_MAX_LIFETIME_MINUTES") _ w.minutes w.lifetime,
          ← w.lifetime_scaled,
        )
        refl

  lb_read : (read_config env).lb ≡ record c.lb { weights = parse_weights env.environ }
  unfolding read_config
  lb_read =
      rw
        (
          get_env-HoldsText env (codes "LB_STRATEGY") _ c.lb.strategy w.strategy,
          w.strategy_lower,
          get_env-HoldsText env (codes "SERVERS") _ (join b',' w.first w.others) w.servers,
          parse_server_list-join w.first w.others w.servers_free w.servers_trimmed,
          ← w.servers_listed,
        )
        refl

-- A configuration is read back from an environment that holds its values: the integers of 64 bits in
-- decimal, the truth values as words, the servers separated by commas, the strategy in lower case, and
-- no empty text but a password. The weights are the exception: they are whatever `parse_weights` reads
-- from the names of the variables.
pub read_config_written :
    (env : Environment) (c : Config)
    → IsWritten env c
    → read_config env ≡ record c { lb = record c.lb { weights = parse_weights env.environ } }
read_config_written env c w =
    rw
      (
        app_read env c w,
        server_read env c w,
        lb_read env c w,
        database_read env c w,
        redis_read env c w,
        ml_read env c w,
        telemetry_read env c w,
        health_read env c w,
      )
      refl
