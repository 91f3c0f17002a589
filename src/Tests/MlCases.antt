-- ===== src/Tests/MlCases.antt =====
-- The ML strategy with natural numbers as scores and a cache of one entry.
use neura_balancer.Common.{ℕ, ◌+◌, ◌≡◌, ◌⊎◌, refl, false, none, some, List, [], ◌∷◌, pos, arith}
use neura_balancer.Common.Float32.{natural_scores}
use neura_balancer.Common.Text.{Text, decimal, text_eq, format_int}
use neura_balancer.Common.Text.Fields.{Free}
use neura_balancer.Ml.CacheKey.{build_cache_key}
use neura_balancer.Ml.CircuitBreaker.{CircuitBreaker, is_open}
use neura_balancer.Ml.CircuitBreaker.Window.{asked, failed, Event}
use neura_balancer.Ml.Exchange.{Exchange, MlRequest, answered, not_answered, fetch_predictions}
use neura_balancer.Ml.Lru.{Lru, one_entry}
use neura_balancer.Ml.Scores.{pick_best, scored, NoneBelow, BestBelow, pick_best_cases}
use neura_balancer.Ml.Strategy.{MlStrategy, MlWorld, select, or_nil}
use neura_balancer.Ml.Strategy.Caching.{or_pick, select_twice}
use neura_balancer.Ml.Strategy.Outage.{Call, select_all, fall_backs, select_outage}
use neura_balancer.Ml.Strategy.Fallback.{select_cached_full}
use neura_balancer.ModelServer.{Startup, start_failed, file_missing, new_model_server}
use neura_balancer.ModelServer.Contract.{send_to}
use neura_balancer.ModelServer.Process.{model_of}
use neura_balancer.Tests.ServiceCases.{wire, arithmetic}
use neura_balancer.Server.{Ref, Heap, can_accept_request}
use neura_balancer.Strategies.Pick.{nil_server}
use neura_balancer.Strategies.WeightedRoundRobin
use neura_balancer.Strategies.WeightedRoundRobin.{new_weighted_round_robin}
use neura_balancer.Tests.Fixtures.{fleet, three, idle}

abbrev pub scores : List ℕ
scores = 5 ∷ 3 ∷ 4 ∷ []

pick_best_cases_example :
    ((pick_best natural_scores fleet three scores ≡ none)
      × NoneBelow natural_scores fleet 1000 (scored natural_scores fleet three scores))
    ⊎ ((r : Ref) × (pick_best natural_scores fleet three scores ≡ some r)
        × BestBelow natural_scores fleet 1000 (scored natural_scores fleet three scores) r)
pick_best_cases_example = pick_best_cases natural_scores fleet three scores

abbrev pub print : ℕ → Text
print n = b'0' ∷ []

pub print-Free : (d : ℕ) → Free b'|' (print d)
print-Free d = (omega arith, tt)

-- A model server that answers with the scores, and one that does not answer.
abbrev pub answering : MlRequest ℕ → Exchange ℕ
answering req = answered 200 (some scores)

abbrev pub silent : MlRequest ℕ → Exchange ℕ
silent req = not_answered

abbrev pub cache : Lru (List ℕ)
cache = one_entry (List ℕ)

abbrev closed : CircuitBreaker
closed = record { opened = false; last_failure = 0; reset_after = pos 30 }

abbrev start : MlStrategy cache.Cache
start = record { breaker = closed; fallback = new_weighted_round_robin; cache = some none }

abbrev pub world_with : (MlRequest ℕ → Exchange ℕ) → MlWorld ℕ ℕ
world_with send = record { asked_at = 20; sent_at = 0; failed_at = 21; send = send }

-- A call at a time, to a model server.
abbrev call : ℕ → (MlRequest ℕ → Exchange ℕ) → Call ℕ ℕ
call time send = record {
  world = record { asked_at = time; sent_at = 0; failed_at = time + 1; send = send };
  heap = fleet;
  readings = idle;
  servers = three;
}

-- A failure at time 21, a call within the window of 30, and one after it.
select_outage_example :
    let outage =
      select_all natural_scores print cache
        (select natural_scores print cache start (call 20 silent).world fleet idle three).strategy
        (call 40 answering ∷ []) in
    let outcome =
      select natural_scores print cache outage.1 (call 60 answering).world fleet idle three in
    (outage.0
      ≡ fall_backs
          (WeightedRoundRobin.select new_weighted_round_robin fleet three).0
          (call 40 answering ∷ []))
    × (outcome.strategy.breaker.opened ≡ false)
    × (outcome.pick
        ≡ or_pick
            (pick_best natural_scores fleet three scores)
            (WeightedRoundRobin.select outage.1.fallback fleet three).1)
unfolding is_open fetch_predictions
select_outage_example =
    select_outage natural_scores print cache start (call 20 silent) none refl refl refl refl
      (call 40 answering ∷ []) (call 60 answering) scores (refl, tt) refl refl refl

select_twice_example :
    let outcome = select natural_scores print cache start (world_with answering) fleet idle three in
    let key = build_cache_key print fleet idle three in
    (outcome.strategy.breaker.opened ≡ false)
    × (outcome.strategy.cache ≡ some (cache.add (cache.get none key).0 key scores))
    × (outcome.pick
        ≡ or_pick
            (pick_best natural_scores fleet three scores)
            (WeightedRoundRobin.select new_weighted_round_robin fleet three).1)
    × ((select natural_scores print cache outcome.strategy
          (world_with silent)
          fleet
          idle
          three).pick
        ≡ or_nil (pick_best natural_scores fleet three scores))
unfolding is_open fetch_predictions
select_twice_example =
    select_twice natural_scores print cache start (world_with answering) fleet idle three none
      scores refl refl refl refl (world_with silent) fleet idle three refl

-- A model server whose files are missing.
abbrev missing : Startup ℕ
missing = record { files_exist = false; raw_scaler = none; session = none }

missing_fails : new_model_server missing ≡ start_failed file_missing
unfolding new_model_server
missing_fails = refl

abbrev to_missing : MlRequest ℕ → Exchange ℕ
to_missing = send_to arithmetic (λ a. a) wire (model_of (new_model_server missing))

-- Every server is at its capacity.
abbrev full : Heap
full r = record (fleet r) { connections = 100 }

abbrev warm : MlStrategy cache.Cache
warm = record start { cache = some (some (build_cache_key print full idle three, scores)) }

select_cached_full_example :
    (select natural_scores print cache warm (world_with answering) full idle three).pick
    ≡ nil_server
unfolding is_open can_accept_request build_cache_key text_eq format_int decimal
select_cached_full_example =
    select_cached_full natural_scores print cache warm (world_with answering) full idle three
      (some (build_cache_key print full idle three, scores)) scores refl refl refl
      (refl, (refl, (refl, tt)))

-- A failure at 5 s, asked about at 20 s, with a reset of 30 s.
abbrev calls : List (ℕ × Event)
calls = (5_000_000_000, failed) ∷ (10_000_000_000, asked) ∷ []
