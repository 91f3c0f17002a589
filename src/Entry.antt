-- ===== src/Entry.antt =====
-- backend/cmd/api/main.go: the start of the program, the parts that it opens and closes, and its end.
pub mod Serving
pub mod Addresses
pub mod Traces
use neura_balancer.Common.{
  Bool, true, false, ltb_ℤ, pos, if◌then◌else◌, Option, none, some, List, [], ◌∷◌, ◌++◌, ℤ, ℕ,
}
use neura_balancer.Common.Float32.{Float32}
use neura_balancer.Common.Text.{Text}
use neura_balancer.Balancer.{Strategy, LoadBalancer}
use neura_balancer.Balancer.Loops.{interval}
use neura_balancer.Balancer.Seed.{ServerTable, new_balancer}
use neura_balancer.Config.{Environment, Config, Loaded, ok, err, ConfigError, load, addr}
use neura_balancer.Config.Levels.{LoggerConfig, new_logger}
use neura_balancer.Database.Pool.{Postgres, Pool, new_db}
use neura_balancer.Factory.{Started, new_strategy}
use neura_balancer.Ml.Lru.{Lru}
use neura_balancer.Tracer.{Provider, Telemetry, Globals, unset, init, noop_provider}

pub data Part : Type 0 where
  logger : LoggerConfig → Part
  tracing : Provider → Part
  database : Pool → Part
  balancer : Part

-- What the program does, as far as the outside sees it.
pub data Event : Type 1 where
  wrote_error : Event
  opened : Part → Event
  served : (strat : Strategy) → LoadBalancer strat.State → Text → Event
  not_listening : Text → Event  -- `ListenAndServe` failed
  closed : Part → Event

-- `os.Exit(1)`, which runs nothing that was deferred, the end of `main`, or the panic of another
-- goroutine, which ends the program at once.
pub data End : Type 0 where
  exited : End
  returned : End
  crashed : End

abbrev pub Run : Type 1
Run = List Event × End

abbrev failing : Run
failing = (wrote_error ∷ [], exited)

-- A fatal log line.
abbrev fatal : Run
fatal = ([], exited)

abbrev closing : Part → End → List Event
closing part exited = []
closing part returned = closed part ∷ []
closing part crashed = []

-- Opens a part, defers its closing, and goes on.
abbrev pub with : Part → Run → Run
with part (events, end) = (opened part ∷ events ++ closing part end, end)

-- What the program meets: the environment, the libraries, PostgreSQL with the table of servers, and
-- whether the HTTP server can listen at its address. It then serves until a signal comes; both ways
-- lead to the same shutdown. `serves_first` is whether it serves before a panic of the ticker.
pub record World : Type 1 where
  pub env : Environment
  pub builds_logger : Bool
  pub telemetry : Telemetry
  pub postgres : Postgres
  pub db : ServerTable
  pub table : db.Table
  pub listens : Bool
  pub serves_first : Bool

abbrev pub or_noop : Option Provider → Provider
or_noop none = noop_provider
or_noop (some p) = p

-- The provider of the traces, and what is set for the program: a failed start is only logged.
unfoldable pub trace : World → Config → Globals × Provider
trace w c =
    if c.telemetry.otel_enabled
    then (let (g, p) = init w.telemetry c.telemetry.service_name c.telemetry.otlp_endpoint unset in
        (g, or_noop p))
    else (unset, noop_provider)

abbrev pub provider_of : World → Config → Provider
unfolding trace
provider_of w c = (trace w c).1

abbrev pub listening : World → (strat : Strategy) → LoadBalancer strat.State → Text → Event
listening w strat lb address = if w.listens then served strat lb address else not_listening address

module _ (fl : Float32) (D : Type 0) (format_float : D → Text) (lru : Lru (List fl.Carrier)) where
  -- `New` starts the goroutine of the health checks, whose ticker panics with an interval that is not
  -- positive.
  abbrev run_server : World → Config → Option (Started fl D format_float lru) → Run
  run_server w c none = fatal
  run_server w c (some (strat, s)) =
      let lb = new_balancer w.db w.table c.lb.servers s in
      with balancer (
        if ltb_ℤ (pos 0) (interval c.health.interval_seconds)
        then (listening w strat lb (addr c.server) ∷ [], returned)
        else (if w.serves_first then listening w strat lb (addr c.server) ∷ [] else [], crashed))

  abbrev run_database : World → Config → Option Pool → Run
  run_database w c none = fatal
  run_database w c (some pool) = with (database pool) (
      run_server w c (
        new_strategy fl D format_float lru c.lb.strategy c.ml.circuit_breaker_reset_sec
          c.ml.cache_size))

  abbrev run_logger : World → Config → Option LoggerConfig → Run
  run_logger w c none = failing
  run_logger w c (some l) =
      with (logger l)
        (with (tracing (provider_of w c)) (run_database w c (new_db w.postgres c.database)))

  abbrev run_config : World → Loaded → Run
  run_config w (err e) = failing
  run_config w (ok c) =
      run_logger w c
        (new_logger w.env.unicode_lower w.builds_logger c.app.log_level c.app.log_format)

  unfoldable pub main : World → Run
  main w = run_config w (load w.env)
