-- ===== src/Tests/CallerCases.antt =====
-- Two calls of the ML strategy at once.
use neura_balancer.Common.{
  ℕ, ◌*◌, ◌≡◌, refl, false, none, List, [], ◌∷◌, ◌++◌, length, replicate, pos, arith,
}
use neura_balancer.Common.Float32.{natural_scores}
use neura_balancer.Common.Text.{text_eq, format_int, decimal}
use neura_balancer.Ml.CacheKey.{build_cache_key}
use neura_balancer.Ml.Callers.{Input, System, Turn, calls, moves, run, step, resume, move}
use neura_balancer.Ml.Callers.Breaker.{idle, is_open-run_interleaved}
use neura_balancer.Ml.Callers.Cached.{run-choosing}
use neura_balancer.Ml.CircuitBreaker.{is_open, new_circuit_breaker, record_success}
use neura_balancer.Ml.CircuitBreaker.Window.{in_window, last_trip}
use neura_balancer.Ml.Exchange.{Exchange, MlRequest, fetch_predictions, check_exchange, check_count}
use neura_balancer.Ml.Lru.{one_entry-KeepsEntries}
use neura_balancer.Ml.Strategy.{new_ml_strategy}
use neura_balancer.Tests.Fixtures as Fixtures
use neura_balancer.Tests.Fixtures.{fleet, three}
use neura_balancer.Tests.MlCases.{print, print-Free, answering, silent, cache, scores}

abbrev at_time : ℕ → (MlRequest ℕ → Exchange ℕ) → Input ℕ ℕ
at_time now send = record { now = now; heap = fleet; readings = Fixtures.idle; send = send }

abbrev Turns : Type 0
Turns = List (Turn natural_scores print cache)

abbrev quiet : System natural_scores print cache
quiet = idle natural_scores print cache (new_ml_strategy cache (pos 30) (pos 8))

-- The first call fails at 5 s while the second waits for its answer.
abbrev one_fails : Turns
one_fails =
    calls three
    ∷ calls three
    ∷ (replicate 3 (moves 1 (at_time 1_000_000_000 answering))
        ++ (replicate 4 (moves 0 (at_time 4_000_000_000 silent))
            ++ moves 0 (at_time 5_000_000_000 silent) ∷ []))

is_open-run_interleaved_example :
    (is_open (run natural_scores print cache quiet one_fails).strategy.breaker 20_000_000_000).1
    ≡ in_window
        (pos (30 * 1_000_000_000))
        (last_trip none (run natural_scores print cache quiet one_fails).log)
        20_000_000_000
is_open-run_interleaved_example =
    is_open-run_interleaved natural_scores print cache 30 (pos 8) one_fails 20_000_000_000
      (omega arith) (omega arith)

-- The second call finds the predictions of the first in the cache.
abbrev one_stores : Turns
one_stores =
    calls three
    ∷ calls three
    ∷ (replicate 6 (moves 0 (at_time 5 answering)) ++ replicate 3 (moves 1 (at_time 6 silent)))

run-choosing_example : length scores ≡ length three
unfolding run step resume move is_open fetch_predictions check_exchange check_count build_cache_key
    text_eq format_int decimal new_ml_strategy new_circuit_breaker record_success
run-choosing_example =
    run-choosing natural_scores print cache print-Free (one_entry-KeepsEntries (List ℕ)) (pos 30)
      (pos 8) one_stores 1 three scores false refl
