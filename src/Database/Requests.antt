-- ===== src/Database/Requests.antt =====
-- The request log and the metrics log of backend/internal/database/db.go, with the tables `requests`
-- and `metrics` of backend/migrations/001_initial_schema.up.sql. Their `server_id` refers to a row of
-- `servers`, so an insertion for an identifier without a row fails. `none` and `true` stand for the
-- error of a query.
pub mod Rates
use neura_balancer.Common.{
  ℕ, suc, ◌+◌, ◌*◌, Bool, true, false, ◌&&◌, if◌then◌else◌, ◌==◌, ltb, Option, none, some, List, [],
  ◌∷◌, ℤ, pos, int_eq,
}
use neura_balancer.Common.Text.{Text}
use neura_balancer.Database.{Row, Table, find_row, has_id}
use neura_balancer.Metrics.Float64.{Float64}

-- `created_at` is in milliseconds: `NOW()` at the write, which an insertion gets as `now`.
pub record RequestRow : Type 0 where
  pub server_id : ℤ
  pub status : Bool
  pub response_time_ms : ℤ
  pub created_at : ℕ

pub record MetricsRow (D : Type 0) : Type 0 where
  pub server_id : ℤ
  pub cpu_usage : D
  pub memory_usage : D
  pub request_count : ℤ
  pub success_rate : D
  pub created_at : ℕ

abbrev is_some {ℓ} : {A : Type ℓ} → Option A → Bool
is_some none = false
is_some (some a) = true

-- Whether the foreign key of a row is met.
unfoldable pub is_registered : Table → ℤ → Bool
is_registered t id = is_some (find_row (has_id id) t.rows)

unfoldable pub insert_request : Table → List RequestRow → ℤ → Bool → ℤ → ℕ → List RequestRow × Bool
unfolding is_registered
insert_request t log id success millis now =
    if is_registered t id
    then (
      record { server_id = id; status = success; response_time_ms = millis; created_at = now }
          ∷ log,
      false,
    )
    else (log, true)

unfoldable pub insert_metrics :
    {D : Type 0} → Table → List (MetricsRow D) → ℤ → D → D → ℤ → D → ℕ → List (MetricsRow D) × Bool
unfolding is_registered
insert_metrics t log id cpu mem count rate now =
    if is_registered t id
    then (
      record {
        server_id = id;
        cpu_usage = cpu;
        memory_usage = mem;
        request_count = count;
        success_rate = rate;
        created_at = now;
      }
          ∷ log,
      false,
    )
    else (log, true)

-- `server_id = $1 AND created_at > NOW() - $2`, for a window of whole seconds.
unfoldable pub in_window : ℤ → ℕ → ℕ → RequestRow → Bool
in_window id seconds now row = int_eq id row.server_id && ltb now (row.created_at + 1000 * seconds)

-- `COUNT(*)`, and the count of the rows that succeeded.
unfoldable pub count_rows : (RequestRow → Bool) → List RequestRow → ℕ × ℕ
count_rows p [] = (0, 0)
count_rows p (row ∷ rows) =
    let (total, successes) = count_rows p rows in
    if p row
    then (suc total, if row.status then suc successes else successes)
    else (total, successes)

-- `successes / total`, and 1 where there is no request. The query itself is taken to succeed.
unfoldable pub success_rate :
    (fl : Float64) → (ℕ → ℕ → fl.Carrier) → List RequestRow → ℤ → ℕ → ℕ → fl.Carrier
unfolding count_rows in_window
success_rate fl ratio log id seconds now =
    let (total, successes) = count_rows (in_window id seconds now) log in
    if total == 0 then fl.one_value else ratio successes total

-- `SELECT name FROM servers WHERE is_active = TRUE ORDER BY name`; the collation, by which the
-- database compares texts, is an argument.
unfoldable pub insert_ordered : (Text → Text → Bool) → Text → List Text → List Text
insert_ordered before name [] = name ∷ []
insert_ordered before name (n ∷ ns) =
    let rest = insert_ordered before name ns in if before n name then n ∷ rest else name ∷ n ∷ ns

unfoldable pub get_active_servers : (Text → Text → Bool) → List Row → List Text
unfolding insert_ordered
get_active_servers before [] = []
get_active_servers before (row ∷ rows) =
    let rest = get_active_servers before rows in
    if row.is_active then insert_ordered before row.name rest else rest
