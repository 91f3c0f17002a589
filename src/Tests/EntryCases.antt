-- ===== src/Tests/EntryCases.antt =====
-- The start of the program, the request log, and the ML
-- strategy with a model server in degraded mode.
use neura_balancer.Common.{ℕ, ◌*◌, ◌/◌, ◌≡◌, ◌⊎◌, refl, true, false, some, List, [], ◌∷◌, pos}
use neura_balancer.Common.Float32.{natural_scores}
use neura_balancer.Common.Text.{codes, decimal, text_eq}
use neura_balancer.Common.Text.Numbers.{to_lower}
use neura_balancer.Config.{get_env, read_config, dsn}
use neura_balancer.Config.Levels.{LoggerConfig, info_level, level_named, parse_level, new_logger}
use neura_balancer.Database.{Table}
use neura_balancer.Database.Pool.{Pool, new_db}
use neura_balancer.Database.Requests.{is_registered, success_rate}
use neura_balancer.Database.Requests.Rates.{intended_rate, record_all, success_rate-record_all}
use neura_balancer.Entry.{World}
use neura_balancer.Entry.Serving.{HasServed, HasCrashed, HasExited, main_ends}
use neura_balancer.Metrics.Collector.{Request, new_collector}
use neura_balancer.Tests.BalancerCases as Fleet
use neura_balancer.Tests.CollectorCases.{tenths, lost, won}
use neura_balancer.Tests.ConfigCases.{environment, cache}

abbrev world : World
world = record {
  env = environment;
  builds_logger = true;
  telemetry = record { connects = false; exports = true; describes = true };
  postgres = record { opens = true; pings = true };
  db = Fleet.no_table;
  table = tt;
  listens = true;
  serves_first = false;
}

abbrev plain_logger : LoggerConfig
plain_logger = record { level = info_level; json = true }

logger_starts :
    new_logger environment.unicode_lower true
      (read_config environment).app.log_level
      (read_config environment).app.log_format
    ≡ some plain_logger
unfolding new_logger parse_level level_named to_lower read_config get_env text_eq
logger_starts = refl

abbrev pool : Pool
pool = record {
  source = dsn (read_config environment).database;
  max_open_conns = (read_config environment).database.max_open_conns;
  max_idle_conns = (read_config environment).database.max_idle_conns;
  conn_max_lifetime = (read_config environment).database.conn_max_lifetime;
}

database_opens : new_db world.postgres (read_config environment).database ≡ some pool
unfolding new_db
database_opens = refl

main_ends_example :
    (HasServed natural_scores ℕ decimal cache world
      ⊎ HasCrashed natural_scores ℕ decimal cache world)
    ⊎ HasExited natural_scores ℕ decimal cache world
main_ends_example = main_ends natural_scores ℕ decimal cache world

abbrev one_row : Table
one_row = record {
  rows =
      record {
        id = 1;
        name = codes "http://a:81";
        ip_address = codes "a";
        port = pos 81;
        is_active = true;
        weight = pos 1;
        capacity = pos 10;
      }
      ∷ [];
  next_id = 2;
}

first_is_registered : is_registered one_row (pos 1) ≡ true
unfolding is_registered
first_is_registered = refl

-- A ratio in tenths.
abbrev ratio : ℕ → ℕ → ℕ
ratio a b = 10 * a / b

abbrev requests : List (ℕ × Request ℕ)
requests = (1000, lost) ∷ (2000, won) ∷ []

success_rate-record_all_example :
    success_rate tenths ratio
      (record_all tenths pos one_row (new_collector tenths) [] requests).1
      (pos 1)
      300
      5000
    ≡ intended_rate tenths pos one_row ratio requests (pos 1) 300 5000
success_rate-record_all_example =
    success_rate-record_all tenths pos one_row ratio (new_collector tenths) requests (pos 1) 300
      5000 first_is_registered
