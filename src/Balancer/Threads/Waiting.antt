-- ===== src/Balancer/Threads/Waiting.antt =====
-- What the lock of the health checks keeps waiting: `checkAllServers` holds `lb.mu` for the whole of
-- its round, the pings over the network included.
use neura_balancer.Common.{
  ℕ, zero, suc, ◌<◌, ◌≡◌, refl, sym, ap, ◌∙◌, inl, inr, Bool, Bool-cases, true, ◌==◌, ==_iff,
  Option, Option-cases, none, some, List, [], ◌∷◌, get_elem?, get-append, arith,
}
use neura_balancer.Balancer.{Strategy}
use neura_balancer.Balancer.Threads.{
  arrived, Input, move, System, is_locked, resume, check_next, Event, arrives, moves, checks, step,
  run,
}
use neura_balancer.Balancer.Threads.Progress.{resume-round, settle_keeps}
use neura_balancer.Server.{Ref}

abbrev pub checks_in : {strat : Strategy} → List (Event strat) → ℕ
checks_in [] = 0
checks_in (arrives ∷ es) = checks_in es
checks_in (moves i x ∷ es) = checks_in es
checks_in (checks alive ∷ es) = suc (checks_in es)

abbrev pub accesses_left : Option (List Ref) → ℕ
accesses_left none = 0
accesses_left (some []) = 1
accesses_left (some (r ∷ rs)) = suc (accesses_left (some rs))

freed : (round : Option (List Ref)) → accesses_left round ≡ 0 → round ≡ none
freed none h = refl
freed (some []) h = absurd (omega (arith, h))
freed (some (r ∷ rs)) h = absurd (omega (arith, h))

module _ (strat : Strategy) where
  -- An arrived request that finds the lock taken stays where it is.
  resume-arrived :
      (s : System strat.State) (i j : ℕ) (x : Input strat)
      → is_locked s.round ≡ true
      → get_elem? s.threads i ≡ some arrived
      → get_elem? (resume strat s j x (get_elem? s.threads j)).threads i ≡ some arrived
  unfolding resume move
  resume-arrived s i j x locked here = elim (Bool-cases (j == i)) [
    | inl same ↦ let e : j ≡ i = (==_iff j i).0 same in rw e (rw here (rw locked here))
    | inr apart ↦ elim (Option-cases (get_elem? s.threads j)) [
      | inl missing ↦ rw missing here
      | inr (q, there) ↦
          rw there
            (settle_keeps strat s i j arrived (move strat x s.lb (is_locked s.round) q) here apart)
    ]
  ]

  check_next_left :
      (s : System strat.State) (round : Option (List Ref)) (alive : Bool) (n : ℕ)
      → accesses_left round ≡ suc n
      → accesses_left (check_next s round alive).round ≡ n
  unfolding check_next
  check_next_left s none alive n h = absurd (omega (arith, h))
  check_next_left s (some []) alive n h = omega (arith, h)
  check_next_left s (some (r ∷ rs)) alive n h = omega (arith, h)

  pub check_next-threads :
      (s : System strat.State) (round : Option (List Ref)) (alive : Bool)
      → (check_next s round alive).threads ≡ s.threads
  unfolding check_next
  check_next-threads s none alive = refl
  check_next-threads s (some []) alive = refl
  check_next-threads s (some (r ∷ rs)) alive = refl

  taken : (round : Option (List Ref)) (n : ℕ) → n < accesses_left round → is_locked round ≡ true
  taken none n h = absurd (omega (arith, h))
  taken (some rs) n h = refl

  left_over : (n m : ℕ) → suc n < m → (k : ℕ) × (m ≡ suc k) × (n < k)
  left_over n zero h = absurd (omega (arith, h))
  left_over n (suc k) h = (k, refl, omega (arith, h))

  -- From the moment at which a round of health checks takes the lock until it has pinged its last
  -- server and made one access more, a request that has arrived gets nowhere, whatever the requests
  -- and the pings do.
  pub run_waits :
      (s : System strat.State) (es : List (Event strat)) (i : ℕ)
      → checks_in es < accesses_left s.round
      → get_elem? s.threads i ≡ some arrived
      → get_elem? (run strat s es).threads i ≡ some arrived
  unfolding run step
  run_waits s [] i some_left here = here
  run_waits s (arrives ∷ es) i some_left here =
      run_waits (step strat s arrives) es i some_left (get-append s.threads (arrived ∷ []) i here)
  run_waits s (moves j x ∷ es) i some_left here =
      let kept = ap accesses_left (resume-round strat s j x (get_elem? s.threads j)) in
      run_waits (step strat s (moves j x)) es i (omega (arith, some_left, kept))
        (resume-arrived s i j x (taken s.round (checks_in es) some_left) here)
  run_waits s (checks alive ∷ es) i some_left here =
      let (k, e, less) = left_over (checks_in es) (accesses_left s.round) some_left in
      let left = check_next_left s s.round alive k e in
      run_waits (step strat s (checks alive)) es i (omega (arith, less, left))
        (ap (λ ps. get_elem? ps i) (check_next-threads s s.round alive) ∙ here)

  -- A round of health checks that holds the lock has given it back once each server that it still has
  -- to ping has been, and one access more, whatever the requests do between them.
  pub run_frees :
      (s : System strat.State) (es : List (Event strat))
      → checks_in es ≡ accesses_left s.round
      → (run strat s es).round ≡ none
  unfolding run step
  run_frees s [] h = freed s.round (omega (arith, h))
  run_frees s (arrives ∷ es) h = run_frees (step strat s arrives) es h
  run_frees s (moves j x ∷ es) h =
      let kept = resume-round strat s j x (get_elem? s.threads j) in
      run_frees (step strat s (moves j x)) es (h ∙ ap accesses_left (sym kept))
  run_frees s (checks alive ∷ es) h =
      run_frees (step strat s (checks alive)) es
        (sym (check_next_left s s.round alive (checks_in es) (sym h)))
