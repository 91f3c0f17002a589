-- ===== src/Database/Pool.antt =====
-- `New` of backend/internal/database/db.go: the connection pool.
use neura_balancer.Common.{Bool, if◌then◌else◌, Option, none, some, ℤ}
use neura_balancer.Common.Text.{Text}
use neura_balancer.Config.{DatabaseConfig, dsn}

pub record Pool : Type 0 where
  pub source : Text
  pub max_open_conns : ℤ
  pub max_idle_conns : ℤ
  pub conn_max_lifetime : ℤ

-- How PostgreSQL answers: whether the driver opens, and whether the ping gets through in time.
pub record Postgres : Type 0 where
  pub opens : Bool
  pub pings : Bool

-- `none` is an error.
unfoldable pub new_db : Postgres → DatabaseConfig → Option Pool
new_db world c =
    if world.opens
    then (if world.pings
        then some (record {
          source = dsn c;
          max_open_conns = c.max_open_conns;
          max_idle_conns = c.max_idle_conns;
          conn_max_lifetime = c.conn_max_lifetime;
        })
        else none)
    else none
