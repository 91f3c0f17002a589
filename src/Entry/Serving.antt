-- ===== src/Entry/Serving.antt =====
-- The runs of the program: those that reach the HTTP server, and those that end before.
use neura_balancer.Common.{
  ◌≡◌, refl, true, false, if◌then◌else◌, Bool-cases, pos, ltb_ℤ, Option-cases, none, some, inl, inr,
  List, [], ◌∷◌, All, ◌⊎◌,
}
use mathlib.Core.List.{append-nil}
use neura_balancer.Common.Float32.{Float32}
use neura_balancer.Common.Text.{Text}
use neura_balancer.Balancer.Loops.{interval}
use neura_balancer.Balancer.Seed.{new_balancer}
use neura_balancer.Config.{Config, ConfigError, Loaded, ok, err, load, addr}
use neura_balancer.Config.Levels.{LoggerConfig, new_logger}
use neura_balancer.Config.Validation.{load-new_strategy}
use neura_balancer.Database.Pool.{Pool, new_db}
use neura_balancer.Entry.{
  World, Event, wrote_error, opened, served, not_listening, listening, closed, exited, returned,
  crashed, logger, tracing, database, balancer, provider_of, main,
}
use neura_balancer.Factory.{Started, new_strategy}
use neura_balancer.Ml.Lru.{Lru}

module _ (fl : Float32) (D : Type 0) (format_float : D → Text) (lru : Lru (List fl.Carrier)) where
  -- With a configuration that loads, a logger and a database, the program always finds its strategy:
  -- it opens the logger, the tracing, the database and the balancer of the configured servers, and,
  -- with a positive interval of the health checks, serves at the configured address, if it can listen
  -- there, and closes them in the reverse order.
  pub main_serves :
      (w : World) {c : Config} {l : LoggerConfig} {pool : Pool}
      → load w.env ≡ ok c
      → new_logger w.env.unicode_lower w.builds_logger c.app.log_level c.app.log_format ≡ some l
      → new_db w.postgres c.database ≡ some pool
      → ltb_ℤ (pos 0) (interval c.health.interval_seconds) ≡ true
      → (started : Started fl D format_float lru) × (new_strategy fl D format_float lru
            c.lb.strategy c.ml.circuit_breaker_reset_sec c.ml.cache_size
          ≡ some started)
        × (main fl D format_float lru w ≡ (
          opened (logger l)
              ∷ opened (tracing (provider_of w c))
              ∷ opened (database pool)
              ∷ opened balancer
              ∷ listening w started.0
                  (new_balancer w.db w.table c.lb.servers started.1)
                  (addr c.server)
              ∷ closed balancer
              ∷ closed (database pool)
              ∷ closed (tracing (provider_of w c))
              ∷ closed (logger l)
              ∷ [],
          returned,
        ))
  unfolding main
  main_serves w {c} {l} {pool} loads logs connects ticks =
      elim (Option-cases (
        new_strategy fl D format_float lru c.lb.strategy c.ml.circuit_breaker_reset_sec
          c.ml.cache_size)) [
            | inl missing ↦ absurd ((load-new_strategy fl D format_float lru w.env loads).1 missing)
            | inr (started, found) ↦ (started, found, rw (loads, logs, connects, found, ticks))
          ]

  -- Without a database the program exits with the logger and the tracing open, and never serves.
  pub main_no_database :
      (w : World) {c : Config} {l : LoggerConfig}
      → load w.env ≡ ok c
      → new_logger w.env.unicode_lower w.builds_logger c.app.log_level c.app.log_format ≡ some l
      → new_db w.postgres c.database ≡ none
      → main fl D format_float lru w
        ≡ (opened (logger l) ∷ opened (tracing (provider_of w c)) ∷ [], exited)
  unfolding main
  main_no_database w loads logs down = rw (loads, logs, down)

  -- The program has opened everything, and a panic has ended it before or while it serves, with nothing
  -- closed, because the interval of the health checks is not positive in 64-bit nanoseconds.
  abbrev pub HasCrashed : World → Type 1
  HasCrashed w =
      (c : Config) × (l : LoggerConfig) × (pool : Pool) × (started : Started fl D format_float lru)
      × (load w.env ≡ ok c)
      × (ltb_ℤ (pos 0) (interval c.health.interval_seconds) ≡ false)
      × (main fl D format_float lru w ≡ (
        opened (logger l)
            ∷ opened (tracing (provider_of w c))
            ∷ opened (database pool)
            ∷ opened balancer
            ∷ (if w.serves_first
                then listening w started.0 (new_balancer w.db w.table c.lb.servers started.1)
                    (addr c.server)
                  ∷ []
                else []),
        crashed,
      ))

  -- With an interval that is not positive, the panic of the ticker ends the program with all of them
  -- open.
  main_crashes :
      (w : World) {c : Config} {l : LoggerConfig} {pool : Pool}
      → load w.env ≡ ok c
      → new_logger w.env.unicode_lower w.builds_logger c.app.log_level c.app.log_format ≡ some l
      → new_db w.postgres c.database ≡ some pool
      → ltb_ℤ (pos 0) (interval c.health.interval_seconds) ≡ false
      → HasCrashed w
  unfolding main
  main_crashes w {c} {l} {pool} loads logs connects ticks =
      elim (Option-cases (
        new_strategy fl D format_float lru c.lb.strategy c.ml.circuit_breaker_reset_sec
          c.ml.cache_size)) [
            | inl missing ↦ absurd ((load-new_strategy fl D format_float lru w.env loads).1 missing)
            | inr (started, found) ↦ (
              c,
              l,
              pool,
              started,
              loads,
              ticks,
              rw (loads, logs, connects, found, ticks) (simp append-nil refl),
            )
          ]

  Loaded-cases : (x : Loaded) → ((c : Config) × (x ≡ ok c)) ⊎ ((e : ConfigError) × (x ≡ err e))
  Loaded-cases (ok c) = inl (c, refl)
  Loaded-cases (err e) = inr (e, refl)

  -- The program has served, or failed to listen, from the configured servers and at the configured address, and has closed
  -- what it opened in the reverse order.
  abbrev pub HasServed : World → Type 1
  HasServed w =
      (c : Config) × (l : LoggerConfig) × (pool : Pool) × (started : Started fl D format_float lru)
      × (load w.env ≡ ok c)
      × (ltb_ℤ (pos 0) (interval c.health.interval_seconds) ≡ true)
      × (main fl D format_float lru w ≡ (
        opened (logger l)
            ∷ opened (tracing (provider_of w c))
            ∷ opened (database pool)
            ∷ opened balancer
            ∷ listening w started.0 (new_balancer w.db w.table c.lb.servers started.1)
                (addr c.server)
            ∷ closed balancer
            ∷ closed (database pool)
            ∷ closed (tracing (provider_of w c))
            ∷ closed (logger l)
            ∷ [],
        returned,
      ))

  -- An event that neither serves nor closes.
  abbrev pub IsStart : Event → Type 0
  IsStart wrote_error = Unit
  IsStart (opened part) = Unit
  IsStart (served strat lb address) = ⊥
  IsStart (not_listening address) = ⊥
  IsStart (closed part) = ⊥

  -- The configuration does not load, or the logger or the database cannot be had.
  abbrev pub CannotServe : World → Type 0
  CannotServe w =
      ((e : ConfigError) × (load w.env ≡ err e))
      ⊎ ((c : Config) × (load w.env ≡ ok c)
          × ((new_logger w.env.unicode_lower w.builds_logger c.app.log_level c.app.log_format
                ≡ none)
              ⊎ (new_db w.postgres c.database ≡ none)))

  -- The program has exited for one of these reasons, without serving, and has closed nothing.
  abbrev pub HasExited : World → Type 0
  HasExited w =
      CannotServe w
      × ((main fl D format_float lru w).1 ≡ exited)
      × All IsStart (main fl D format_float lru w).0

  exited_without_config : (w : World) {e : ConfigError} → load w.env ≡ err e → HasExited w
  unfolding main
  exited_without_config w {e} broken = (inl (e, broken), rw broken refl, rw broken (tt, tt))

  exited_without_logger :
      (w : World) {c : Config}
      → load w.env ≡ ok c
      → new_logger w.env.unicode_lower w.builds_logger c.app.log_level c.app.log_format ≡ none
      → HasExited w
  unfolding main
  exited_without_logger w {c} loads broken =
      (inr (c, loads, inl broken), rw (loads, broken) refl, rw (loads, broken) (tt, tt))

  exited_without_database :
      (w : World) {c : Config} {l : LoggerConfig}
      → load w.env ≡ ok c
      → new_logger w.env.unicode_lower w.builds_logger c.app.log_level c.app.log_format ≡ some l
      → new_db w.postgres c.database ≡ none
      → HasExited w
  exited_without_database w {c} loads logs down = (
    inr (c, loads, inr down),
    rw (main_no_database w loads logs down) refl,
    rw (main_no_database w loads logs down) (tt, (tt, tt)),
  )

  ends_opened :
      (w : World) {c : Config} {l : LoggerConfig} {pool : Pool}
      → load w.env ≡ ok c
      → new_logger w.env.unicode_lower w.builds_logger c.app.log_level c.app.log_format ≡ some l
      → new_db w.postgres c.database ≡ some pool
      → HasServed w ⊎ HasCrashed w
  ends_opened w {c} {l} {pool} loads logs connects =
      elim (Bool-cases (ltb_ℤ (pos 0) (interval c.health.interval_seconds))) [
        | inl ticks ↦
            let (started, found, runs) = main_serves w loads logs connects ticks in
            inl (c, l, pool, started, loads, ticks, runs)
        | inr none_ticks ↦ inr (main_crashes w loads logs connects none_ticks)
      ]

  -- Every run of the program either opens the logger, the tracing, the database and the balancer of
  -- the configured servers, serves at the configured address, or fails to listen there, and closes all
  -- of them in the reverse order; or, exactly where that would happen but the interval of the health
  -- checks is not positive in 64-bit nanoseconds, it crashes with all of them open; or it exits without
  -- serving and without closing anything, because the configuration does not load or there is no logger
  -- or no database.
  pub main_ends : (w : World) → (HasServed w ⊎ HasCrashed w) ⊎ HasExited w
  main_ends w = elim (Loaded-cases (load w.env)) [
    | inr (e, broken) ↦ inr (exited_without_config w broken)
    | inl (c, loads) ↦
        elim (Option-cases
          (new_logger w.env.unicode_lower w.builds_logger c.app.log_level c.app.log_format)) [
            | inl broken ↦ inr (exited_without_logger w loads broken)
            | inr (l, logs) ↦ elim (Option-cases (new_db w.postgres c.database)) [
              | inl down ↦ inr (exited_without_database w loads logs down)
              | inr (pool, connects) ↦ inl (ends_opened w loads logs connects)
            ]
          ]
  ]
