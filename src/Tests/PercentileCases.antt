-- ===== src/Tests/PercentileCases.antt =====
-- The response time of a fleet of three servers, read from the channel of the collector.
use neura_balancer.Common.{ℕ, ◌≡◌, ◌≢◌, some, List, [], ◌∷◌, ◌++◌, pos, arith}
use neura_balancer.Metrics.Collector.{Summary, find_quantile, get_response_percentile}
use neura_balancer.Metrics.Collector.Percentile.{sender, reader, start, run}
use neura_balancer.Metrics.Collector.Percentile.Answered.{rounds, run-get_response_percentile}
use neura_balancer.Metrics.Collector.Percentile.Leaks.{behind_first, run_leaks}
use neura_balancer.Tests.CollectorCases.{tenths}

abbrev summaries : List (Summary ℕ)
summaries = ((50, 2) ∷ (95, 3) ∷ []) ∷ ((95, 5) ∷ []) ∷ ((95, 8) ∷ []) ∷ []

run-get_response_percentile_example :
    (run tenths 95 (start summaries) ((reader ∷ sender ∷ []) ++ rounds 4)).returned ≡ some 3
unfolding get_response_percentile find_quantile
run-get_response_percentile_example =
    run-get_response_percentile tenths summaries (pos 2) 95 (reader ∷ sender ∷ []) 4 (omega arith)

run_leaks_example : (run tenths 95 (start summaries) (rounds 9)).unsent ≢ []
unfolding behind_first find_quantile
run_leaks_example = run_leaks tenths summaries 95 (rounds 9) (omega arith)
