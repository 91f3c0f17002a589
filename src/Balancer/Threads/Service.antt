-- ===== src/Balancer/Threads/Service.antt =====
-- Requests that are served although health checks come between.
use neura_balancer.Common.{
  ℕ, ◌≤◌, ◌≡◌, refl, ap, ◌∙◌, inl, inr, Bool-cases, ◌==◌, Option, none, some, List, [], ◌∷◌, ◌++◌,
  get_elem?, get-append, get-set_elem, All, arith,
}
use neura_balancer.Balancer.{Strategy, LoadBalancer, Effect}
use neura_balancer.Balancer.Threads.{
  Phase, arrived, copied, picked, counted, telling, forwarding, failed, leaving, released,
  retelling, finished, Input, move, System, is_locked, settle, resume, Event, arrives, moves,
  checks, step, run,
}
use neura_balancer.Balancer.Threads.Progress.{IsUnchecked, rank, turns, run_finishes}
use neura_balancer.Balancer.Threads.Waiting.{
  checks_in, accesses_left, check_next-threads, run_frees,
}

rank_le : (p : Phase) → rank p ≤ 10
rank_le arrived = omega arith
rank_le (copied rs) = omega arith
rank_le (picked r) = omega arith
rank_le (counted r) = omega arith
rank_le (telling r n) = omega arith
rank_le (forwarding r) = omega arith
rank_le (failed r) = omega arith
rank_le (leaving r) = omega arith
rank_le (released r) = omega arith
rank_le (retelling r n) = omega arith
rank_le finished = omega arith

module _ (strat : Strategy) where
  abbrev IsThere : System strat.State → ℕ → Type 0
  IsThere s i = (p : Phase) × (get_elem? s.threads i ≡ some p)

  settle-IsThere :
      (s : System strat.State) (i j : ℕ)
      (out : Option (LoadBalancer strat.State × Phase × List Effect))
      → IsThere s i
      → IsThere (settle s j out) i
  settle-IsThere s i j none there = there
  settle-IsThere s i j (some (lb', q, told)) (p, here) = elim (Bool-cases (j == i)) [
    | inl same ↦ (q, get-set_elem s.threads i j q here ∙ rw same refl)
    | inr apart ↦ (p, get-set_elem s.threads i j q here ∙ rw apart refl)
  ]

  resume-IsThere :
      (s : System strat.State) (i j : ℕ) (x : Input strat) (o : Option Phase)
      → IsThere s i
      → IsThere (resume strat s j x o) i
  unfolding resume
  resume-IsThere s i j x none there = there
  resume-IsThere s i j x (some q) there =
      settle-IsThere s i j (move strat x s.lb (is_locked s.round) q) there

  -- A request does not vanish.
  run-IsThere :
      (s : System strat.State) (es : List (Event strat)) (i : ℕ)
      → IsThere s i
      → IsThere (run strat s es) i
  unfolding run step
  run-IsThere s [] i there = there
  run-IsThere s (arrives ∷ es) i (p, here) =
      run-IsThere (step strat s arrives) es i (p, get-append s.threads (arrived ∷ []) i here)
  run-IsThere s (moves j x ∷ es) i there =
      run-IsThere (step strat s (moves j x)) es i
        (resume-IsThere s i j x (get_elem? s.threads j) there)
  run-IsThere s (checks alive ∷ es) i (p, here) =
      run-IsThere (step strat s (checks alive)) es i
        (p, ap (λ ps. get_elem? ps i) (check_next-threads strat s s.round alive) ∙ here)

  run-append :
      (s : System strat.State) (es fs : List (Event strat))
      → run strat s (es ++ fs) ≡ run strat (run strat s es) fs
  unfolding run
  run-append s [] fs = refl
  run-append s (e ∷ es) fs = run-append (step strat s e) es fs

  -- A request whose server answers, or fails to, is finished: once a round of health checks that is
  -- under way has pinged the servers that it still has to ping, ten turns of the request before the
  -- next round are enough at which the exchange with its server would have ended, whatever the other
  -- requests do before, between and beside them, with or without an answer, and whatever the answer.
  pub run_serves :
      (s : System strat.State) (es fs : List (Event strat)) (i : ℕ) (p : Phase)
      → get_elem? s.threads i ≡ some p
      → checks_in es ≡ accesses_left s.round
      → All (IsUnchecked strat) fs
      → 10 ≤ turns strat i fs
      → get_elem? (run strat s (es ++ fs)).threads i ≡ some finished
  run_serves s es fs i p here over un enough =
      let (q, there) = run-IsThere s es i (p, here) in
      ap (λ t. get_elem? t.threads i) (run-append s es fs)
      ∙ run_finishes strat (run strat s es) fs i q (run_frees strat s es over) un there
          (omega (arith, rank_le q, enough))
