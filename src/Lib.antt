-- ===== src/Lib.antt =====
-- NeuraBalancer, an HTTP load balancer with pluggable strategies, one of which asks a model server.
--
-- A request enters through the HTTP API, `LoadBalancer.ProxyRequest` asks the active strategy for a
-- server (`NextServer`), forwards the request and releases the server. Background loops ping the
-- servers and mark them up or down. All of this works on shared `Server` objects.
--
-- Which file models which part:
-- - Common and below: shared names, lists and sums over native numbers, signed integers, texts as lists
--   of code points, and float32 as a type with a comparison.
-- - Server: `Server` of backend/internal/loadbalancer/balancer.go. A `*Server` is a number (`Ref`) into
--   a heap, a function from pointers to servers, so that aliasing is kept. Server.Resets has
--   the counter of one server an access at a time, with the resets of the health checks.
-- - Strategies and below: backend/internal/loadbalancer/strategies.go. `Select` returns the new state
--   of the strategy and a `Pick`: a server, nil, or a run-time panic. 64-bit counters are bit patterns
--   with their wrap-around.
-- - Ml and below: backend/internal/loadbalancer/ml_strategy.go (the circuit breaker, the exchange with
--   the model server, `pickBest`, the cache key, `MLStrategy.Select`). Ml.Callers has calls of `Select`
--   by any number of goroutines at once, an access to shared state at a time.
-- - Metrics and below: backend/internal/metrics/collector.go. Metrics.Readings has the getters as the ML
--   strategy reads them, Metrics.Collector the state and the operations behind them,
--   Metrics.Collector.Percentile the goroutine and the channel of `GetResponsePercentile`, and
--   Metrics.Collector.Overlap calls of `RecordRequest` by any number of goroutines at once.
-- - Balancer and below: backend/internal/loadbalancer/balancer.go. Operations return the new state, a
--   result, and the calls of the collector and the database as a list of effects. Balancer.Sessions has
--   overlapping requests as a step relation, Balancer.Threads the goroutines of requests and of the
--   health checks an access to shared state at a time, with the lock `lb.mu`, Balancer.Loops the loops
--   of the health checks and of the metrics poller, Balancer.Gauges the collector's gauge of open
--   requests along with them, and Balancer.Health.Deadline the health checks with the time that they
--   take.
-- - Factory: backend/internal/loadbalancer/factory.go, and the strategies as values of the interface.
-- - Config and below: backend/internal/config/config.go, and Config.Levels: logger.go. The environment
--   is a record of its variables; the maps of weights are association lists.
-- - Api and below: backend/internal/api/handlers.go, middleware.go and router.go. Api.Context is echo's
--   context, Api.Serving takes a request through the middleware to its handler; a handler returns the
--   balancer, what happened to the context, what was told to the others, and the log lines.
-- - ModelServer and below: ml/model-server/main.go (the scaler, the start, /predict and /health; in
--   Process the configuration, /version and the run of the program), its contract with the load balancer in
--   ModelServer.Contract, and a server without a model in ModelServer.Degraded.
-- - Database and below: backend/internal/database/db.go over tables with the columns of
--   backend/migrations/001_initial_schema.up.sql that the queries use: the server registry, in Requests
--   the request and metrics logs, and in Pool the connection.
-- - BackendServer and below: the sampled usages of backend/cmd/server/main.go, in Process its settings,
--   routes and run, and in Contract and Serving what the load balancer reads of its answers.
-- - Tracer: backend/internal/tracer/tracer.go.
-- - Entry and below: backend/cmd/api/main.go, which puts the parts together. A run is the list of what
--   is opened, served and closed, with its end.
-- - Tests: concrete runs.
--
-- Bounds and conventions: counts of open requests are natural numbers (they start at 0 and the decrement
-- is guarded; only Server.Resets, where a reset may come between the guard and the decrement, has them
-- as integers); counters of the strategies wrap at 2^64; the health check's retries bound its loop, so no
-- fuel is needed; a response body is a finite list of reads. Times are natural numbers from a clock that
-- does not go back, in nanoseconds where a duration is compared with them; a duration is the 64-bit
-- product of a setting and its unit.
-- A loop gets the finite sequence of what its `select` takes, ticks and the closing of its channel: where
-- both are ready Go takes either, so every order is a run. An interleaving
-- of goroutines is a finite list of turns; a request has ten of them at most,
-- not counting those at which its server has not answered, and a call of the ML strategy eight, so no
-- fuel is needed.
--
-- Parameters: the LRU cache of golang-lru, `rand.Intn`, the verb `%.2f`, float32 comparison and
-- arithmetic, `math.Round`, `fmt.Sscan`, the ONNX runtime, JSON, the URL parser, PostgreSQL's reading of
-- integers and its collation, echo with its middleware, the start of gRPC and OpenTelemetry, and
-- the network enter as arguments or as records with the laws that are used.
--
-- Not modelled: trace spans and log lines other than their level, the timing of tickers and of the
-- shutdown of HTTP servers, what the model server destroys of the ONNX runtime at its end (with requests
-- under way where the shutdown runs into its timeout), what a cache that `lru.New` could not build does
-- after its first panic, what other goroutines do during one call of a strategy where requests
-- and health checks are interleaved (there it is one step, and reads a heap that may be any; Ml.Callers
-- takes the call of the ML strategy apart), and the training code in Python.
pub mod Common
pub mod Server
pub mod Strategies
pub mod Metrics
pub mod Ml
pub mod Balancer
pub mod Factory
pub mod Config
pub mod Api
pub mod ModelServer
pub mod Database
pub mod BackendServer
pub mod Tracer
pub mod Entry
mod Tests
