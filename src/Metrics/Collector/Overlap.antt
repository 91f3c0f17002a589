-- ===== src/Metrics/Collector/Overlap.antt =====
-- Calls of `Collector.RecordRequest` in backend/internal/metrics/collector.go by any number of
-- goroutines at once, an access to the collector at a time: each metric has its own lock, and nothing
-- is held between reading the error rate of a server and setting it.
pub mod Blended
pub mod Orders
use neura_balancer.Common.{
  ℕ, if◌then◌else◌, Option, none, some, List, [], ◌∷◌, ◌++◌, get_elem?, set_elem,
}
use neura_balancer.Metrics.Collector.{
  Collector, Request, Insert, insert_request, set_gauge, get_gauge_value, blend,
}
use neura_balancer.Metrics.Float64.{Float64}

-- Where a call stands.
pub data Phase (D : Type 0) : Type 0 where
  counting : Request D → Phase D  -- before the counter
  timing : Request D → Phase D  -- before the histogram
  summing : Request D → Phase D  -- before the summary
  reading : Request D → Phase D  -- before the error rate is read
  setting : Request D → D → Phase D  -- before it is set, with the value read
  inserting : Request D → Phase D  -- before the goroutine of the insert starts
  ended : Request D → Phase D

module _ (fl : Float64) where
  open fl use {Carrier}

  abbrev pub Moved : Type 0
  Moved = Collector Carrier × Phase Carrier × List (Insert Carrier)

  -- One step of a call; a call that has ended makes none.
  unfoldable pub move : Collector Carrier → Phase Carrier → Option Moved
  move c (counting r) = some (
    record c { http_total = (r.method, r.path, r.status, r.server_id) ∷ c.http_total },
    timing r,
    [],
  )
  move c (timing r) = some (
    record c { http_duration = (r.method, r.path, r.server_id, r.seconds) ∷ c.http_duration },
    summing r,
    [],
  )
  move c (summing r) = some (
    record c { response_summary = (r.server_id, r.seconds) ∷ c.response_summary },
    if r.success then inserting r else reading r,
    [],
  )
  move c (reading r) = some (c, setting r (get_gauge_value c.error_rate r.server_id), [])
  move c (setting r v) =
      some
        (record c { error_rate = set_gauge c.error_rate r.server_id (blend fl v) }, inserting r, [])
  move c (inserting r) = some (c, ended r, insert_request r.server_id r.success r.seconds ∷ [])
  move c (ended r) = none

  pub record System : Type 0 where
    pub collector : Collector Carrier
    pub callers : List (Phase Carrier)
    pub inserts : List (Insert Carrier)

  abbrev pub settle : System → ℕ → Option Moved → System
  settle y i none = y
  settle y i (some (c, p, inserts)) = record {
    collector = c;
    callers = set_elem y.callers i p;
    inserts = y.inserts ++ inserts;
  }

  unfoldable pub resume : System → ℕ → Option (Phase Carrier) → System
  resume y i none = y
  resume y i (some p) = settle y i (move y.collector p)

  pub data Turn : Type 0 where
    records : Request Carrier → Turn
    moves : ℕ → Turn

  unfoldable pub step : System → Turn → System
  unfolding resume
  step y (records r) = record y { callers = y.callers ++ counting r ∷ [] }
  step y (moves i) = resume y i (get_elem? y.callers i)

  unfoldable pub run : System → List Turn → System
  unfolding step
  run y [] = y
  run y (t ∷ ts) = run (step y t) ts
