-- ===== src/Metrics/Collector.antt =====
-- `Collector` of backend/internal/metrics/collector.go: what a request and a poll record, and the
-- getters. Prometheus keeps a gauge for each label, 0 at first; a counter, a histogram and a summary
-- are the list of what they were given, the latest first.
pub mod ErrorRate
pub mod Overlap
pub mod Ranges
pub mod Percentile
use neura_balancer.Common.{
  ℕ, suc, Bool, true, false, if◌then◌else◌, ◌==◌, ◌||◌, Option, none, some, List, [], ◌∷◌, ℤ,
  int_eq,
}
use neura_balancer.Common.Text.{Text}
use neura_balancer.Metrics.Float64.{Float64}
use neura_balancer.Metrics.Readings.{Readings}

-- A gauge vector with the label `server_id`.
abbrev pub Gauges : Type 0 → Type 0
Gauges D = ℤ → D

abbrev pub set_gauge : {D : Type 0} → Gauges D → ℤ → D → Gauges D
set_gauge g id v other = if int_eq other id then v else g other

pub record Request (D : Type 0) : Type 0 where
  pub server_id : ℤ
  pub method : Text
  pub path : Text
  pub status : ℕ
  pub seconds : D
  pub success : Bool

pub record Collector (D : Type 0) : Type 0 where
  pub http_total : List (Text × Text × ℕ × ℤ)
  pub http_duration : List (Text × Text × ℤ × D)
  pub response_summary : List (ℤ × D)
  pub cpu_usage : Gauges D
  pub memory_usage : Gauges D
  pub error_rate : Gauges D
  pub active_conns : Gauges D
  pub ml_inference_seconds : List D
  pub ml_predictions : ℕ
  pub ml_errors : ℕ
  pub ml_cache_hits : ℕ
  pub ml_cache_misses : ℕ
  pub ml_circuit_open : ℕ

-- What is written to the database, in a goroutine of its own.
pub data Insert (D : Type 0) : Type 0 where
  insert_request : ℤ → Bool → D → Insert D
  insert_metrics : ℤ → D → D → D → Insert D

-- How the exchange with a server's /metrics went; a response has a status and, where its body
-- decodes, the two usages.
pub data Polled (D : Type 0) : Type 0 where
  not_created : Polled D
  not_answered : Polled D
  answered : ℕ → Option (D × D) → Polled D

-- The quantiles of one server's summary, with their values.
abbrev pub Summary : Type 0 → Type 0
Summary D = List (D × D)

-- `getGaugeValue`: a gauge vector with one label has a gauge for every value of it.
abbrev pub get_gauge_value : {D : Type 0} → Gauges D → ℤ → D
get_gauge_value g id = g id

module _ (fl : Float64) where
  unfoldable pub new_collector : Collector fl.Carrier
  new_collector = record {
    http_total = [];
    http_duration = [];
    response_summary = [];
    cpu_usage = λ id. fl.zero_value;
    memory_usage = λ id. fl.zero_value;
    error_rate = λ id. fl.zero_value;
    active_conns = λ id. fl.zero_value;
    ml_inference_seconds = [];
    ml_predictions = 0;
    ml_errors = 0;
    ml_cache_hits = 0;
    ml_cache_misses = 0;
    ml_circuit_open = 0;
  }

  unfoldable pub blend : fl.Carrier → fl.Carrier
  blend current = fl.add (fl.mul fl.nine_tenths current) fl.one_tenth

  unfoldable pub update_error_rate : Collector fl.Carrier → ℤ → Collector fl.Carrier
  unfolding blend
  update_error_rate c id = record c {
    error_rate = set_gauge c.error_rate id (blend (get_gauge_value c.error_rate id));
  }

  unfoldable pub record_request :
      Collector fl.Carrier → Request fl.Carrier → Collector fl.Carrier × Insert fl.Carrier
  unfolding update_error_rate
  record_request c r =
      let counted = record c {
        http_total = (r.method, r.path, r.status, r.server_id) ∷ c.http_total;
        http_duration = (r.method, r.path, r.server_id, r.seconds) ∷ c.http_duration;
        response_summary = (r.server_id, r.seconds) ∷ c.response_summary;
      } in
      (
        if r.success then counted else update_error_rate counted r.server_id,
        insert_request r.server_id r.success r.seconds,
      )

  abbrev pub out_of_range : fl.Carrier → Bool
  out_of_range v = fl.lt v fl.zero_value || fl.lt fl.hundred v

  -- `none` is an error.
  unfoldable pub fetch_server_metrics : Polled fl.Carrier → Option (fl.Carrier × fl.Carrier)
  fetch_server_metrics not_created = none
  fetch_server_metrics not_answered = none
  fetch_server_metrics (answered status none) = none
  fetch_server_metrics (answered status (some (cpu, mem))) =
      if status == 200
      then (if out_of_range cpu then none else (if out_of_range mem then none else some (cpu, mem)))
      else none

  -- `DB.SuccessRate`, with 1 in place of an error.
  abbrev rate_or_one : Option fl.Carrier → fl.Carrier
  rate_or_one none = fl.one_value
  rate_or_one (some rate) = rate

  -- The write of the values that were fetched.
  unfoldable pub set_server_metrics :
      Collector fl.Carrier
      → ℤ
      → Option fl.Carrier
      → Option (fl.Carrier × fl.Carrier)
      → Collector fl.Carrier × List (Insert fl.Carrier)
  set_server_metrics c id rate none = (c, [])
  set_server_metrics c id rate (some (cpu, mem)) = (
    record c {
      cpu_usage = set_gauge c.cpu_usage id cpu;
      memory_usage = set_gauge c.memory_usage id mem;
    },
    insert_metrics id cpu mem (rate_or_one rate) ∷ [],
  )

  unfoldable pub update_server_metrics :
      Collector fl.Carrier
      → ℤ
      → Option fl.Carrier
      → Polled fl.Carrier
      → Collector fl.Carrier × List (Insert fl.Carrier)
  unfolding set_server_metrics fetch_server_metrics
  update_server_metrics c id rate polled =
      set_server_metrics c id rate (fetch_server_metrics polled)

  unfoldable pub set_active_connections : Collector fl.Carrier → ℤ → ℕ → Collector fl.Carrier
  set_active_connections c id n = record c {
    active_conns = set_gauge c.active_conns id (fl.of_count n);
  }

  unfoldable pub record_ml_inference : Collector fl.Carrier → fl.Carrier → Collector fl.Carrier
  record_ml_inference c seconds = record c {
    ml_inference_seconds = seconds ∷ c.ml_inference_seconds;
    ml_predictions = suc c.ml_predictions;
  }

  unfoldable pub record_ml_error : Collector fl.Carrier → Collector fl.Carrier
  record_ml_error c = record c { ml_errors = suc c.ml_errors }

  unfoldable pub record_ml_cache_hit : Collector fl.Carrier → Collector fl.Carrier
  record_ml_cache_hit c = record c { ml_cache_hits = suc c.ml_cache_hits }

  unfoldable pub record_ml_cache_miss : Collector fl.Carrier → Collector fl.Carrier
  record_ml_cache_miss c = record c { ml_cache_misses = suc c.ml_cache_misses }

  unfoldable pub set_circuit_open : Collector fl.Carrier → Bool → Collector fl.Carrier
  set_circuit_open c tripped = record c { ml_circuit_open = if tripped then 1 else 0 }

  -- The first value of a quantile in one summary.
  unfoldable pub find_quantile : fl.Carrier → Summary fl.Carrier → Option fl.Carrier
  find_quantile quantile [] = none
  find_quantile quantile ((q, v) ∷ qs) =
      let found = find_quantile quantile qs in if fl.equal q quantile then some v else found

  -- `summaries` is what `Collect` sends: the summaries of all servers, in the order of a map. The
  -- identifier of the server is not used.
  unfoldable pub get_response_percentile : List (Summary fl.Carrier) → ℤ → fl.Carrier → fl.Carrier
  unfolding find_quantile
  get_response_percentile [] id quantile = fl.zero_value
  get_response_percentile (s ∷ summaries) id quantile =
      let rest = get_response_percentile summaries id quantile in
      elim (find_quantile quantile s) [ none ↦ rest | some v ↦ v ]

  -- The getters as the ML strategy reads them.
  unfoldable pub readings :
      Collector fl.Carrier → List (Summary fl.Carrier) → fl.Carrier → Readings fl.Carrier
  unfolding get_response_percentile
  readings c summaries p95 = record {
    cpu_usage = c.cpu_usage;
    memory_usage = c.memory_usage;
    error_rate = c.error_rate;
    response_p95 = λ id. get_response_percentile summaries id p95;
  }
