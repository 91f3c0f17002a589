-- ===== src/Balancer/Threads/Progress.antt =====
-- How far the goroutines of requests get, and what they wait for.
use neura_balancer.Common.{
  ℕ, ◌⊎◌, ◌+◌, ◌-◌, ◌<◌, ◌≤◌, ◌≡◌, refl, ap, ◌∙◌, inl, inr, Bool-cases, true, false, if◌then◌else◌,
  ◌==◌, ==_iff, Option, Option-cases, none, some, List, [], ◌∷◌, get_elem?, get-set_elem,
  get-append, All, arith,
}
use neura_balancer.Balancer.{Strategy, LoadBalancer, Effect}
use neura_balancer.Balancer.Proxy.{Request, Forwarded, not_created, not_answered, answered}
use neura_balancer.Balancer.Threads.{
  Phase, arrived, copied, picked, counted, telling, forwarding, failed, leaving, released,
  retelling, finished, Input, after_pick, after_forward, advance, move, System, is_locked, settle,
  resume, Event, arrives, moves, checks, step, run,
}
use neura_balancer.Server.{Ref}
use neura_balancer.Strategies.Pick.{Pick, nil_server, server, run_time_panic}

-- The steps that a request still has before it, at most.
abbrev pub rank : Phase → ℕ
rank arrived = 10
rank (copied rs) = 9
rank (picked r) = 8
rank (counted r) = 7
rank (telling r n) = 6
rank (forwarding r) = 5
rank (failed r) = 4
rank (leaving r) = 3
rank (released r) = 2
rank (retelling r n) = 1
rank finished = 0

finished_of_rank : (p : Phase) → rank p ≤ 0 → p ≡ finished
finished_of_rank arrived h = absurd (omega (arith, h))
finished_of_rank (copied rs) h = absurd (omega (arith, h))
finished_of_rank (picked r) h = absurd (omega (arith, h))
finished_of_rank (counted r) h = absurd (omega (arith, h))
finished_of_rank (telling r n) h = absurd (omega (arith, h))
finished_of_rank (forwarding r) h = absurd (omega (arith, h))
finished_of_rank (failed r) h = absurd (omega (arith, h))
finished_of_rank (leaving r) h = absurd (omega (arith, h))
finished_of_rank (released r) h = absurd (omega (arith, h))
finished_of_rank (retelling r n) h = absurd (omega (arith, h))
finished_of_rank finished h = refl

rank-after_pick : (p : Pick) → rank (after_pick p) ≤ 8
rank-after_pick nil_server = omega arith
rank-after_pick (server r) = omega arith
rank-after_pick run_time_panic = omega arith

rank-after_forward : (r : Ref) (f : Forwarded) → rank (after_forward r f) ≤ 4
rank-after_forward r not_created = omega arith
rank-after_forward r not_answered = omega arith
rank-after_forward r (answered resp) = omega arith

module _ (strat : Strategy) where
  -- Whether a turn finds that the server has answered, or has failed to.
  abbrev pub has_outcome : Option Forwarded → ℕ
  has_outcome none = 0
  has_outcome (some f) = 1

  has_outcome_le : (o : Option Forwarded) → has_outcome o ≤ 1
  has_outcome_le none = omega arith
  has_outcome_le (some f) = omega arith

  -- A request that is not finished can move as long as no round of checks holds the lock and its
  -- server, if it waits for it, has answered; it is then nearer to its end.
  abbrev Nearer : ℕ → Phase → Option (LoadBalancer strat.State × Phase × List Effect) → Type 0
  Nearer n p none = (p ≡ finished) ⊎ (n ≡ 0)
  Nearer n p (some (lb', p', told)) = rank p' < rank p

  advance-Nearer :
      (lb : LoadBalancer strat.State) (r : Ref) (req : Request) (o : Option Forwarded)
      → Nearer (has_outcome o) (forwarding r) (advance lb r req o)
  advance-Nearer lb r req none = inr refl
  advance-Nearer lb r req (some f) = omega (arith, rank-after_forward r f)

  move-Nearer :
      (x : Input strat) (lb : LoadBalancer strat.State) (p : Phase)
      → Nearer (has_outcome x.outcome) p (move strat x lb false p)
  unfolding move
  move-Nearer x lb arrived = omega arith
  move-Nearer x lb (copied []) = omega arith
  move-Nearer x lb (copied (r ∷ rs)) =
      omega (arith, rank-after_pick (strat.select lb.strategy x.world x.seen (r ∷ rs)).1)
  move-Nearer x lb (picked r) = omega arith
  move-Nearer x lb (counted r) = omega arith
  move-Nearer x lb (telling r n) = omega arith
  move-Nearer x lb (forwarding r) = advance-Nearer lb r x.request x.outcome
  move-Nearer x lb (failed r) = omega arith
  move-Nearer x lb (leaving r) = omega arith
  move-Nearer x lb (released r) = omega arith
  move-Nearer x lb (retelling r n) = omega arith
  move-Nearer x lb finished = inl refl

  -- Where a request stands after a step, with the turns that it has got by then taken off its rank.
  abbrev StandsNearer : System strat.State → ℕ → Phase → ℕ → Type 0
  StandsNearer s i p n = (p' : Phase) × (get_elem? s.threads i ≡ some p') × (rank p' ≤ rank p - n)

  settle_self :
      (s : System strat.State) (i n : ℕ) (p : Phase)
      (out : Option (LoadBalancer strat.State × Phase × List Effect))
      → get_elem? s.threads i ≡ some p
      → n ≤ 1
      → Nearer n p out
      → StandsNearer (settle s i out) i p n
  settle_self s i n p none here le (inl over) = (p, here, (rw over (omega arith)))
  settle_self s i n p none here le (inr still) = (p, here, omega (arith, still))
  settle_self s i n p (some (lb', p', told)) here le less =
      let self : (i == i) ≡ true = (==_iff i i).1 refl in
      (p', get-set_elem s.threads i i p' here ∙ rw self refl, omega (arith, less, le))

  pub settle_keeps :
      (s : System strat.State) (i j : ℕ) (p : Phase)
      (out : Option (LoadBalancer strat.State × Phase × List Effect))
      → get_elem? s.threads i ≡ some p
      → (j == i) ≡ false
      → get_elem? (settle s j out).threads i ≡ some p
  settle_keeps s i j p none here apart = here
  settle_keeps s i j p (some (lb', p', told)) here apart =
      get-set_elem s.threads i j p' here ∙ rw apart refl

  settle-round :
      (s : System strat.State) (j : ℕ)
      (out : Option (LoadBalancer strat.State × Phase × List Effect))
      → (settle s j out).round ≡ s.round
  settle-round s j none = refl
  settle-round s j (some (lb', p', told)) = refl

  pub resume-round :
      (s : System strat.State) (j : ℕ) (x : Input strat) (o : Option Phase)
      → (resume strat s j x o).round ≡ s.round
  unfolding resume
  resume-round s j x none = refl
  resume-round s j x (some p) = settle-round s j (move strat x s.lb (is_locked s.round) p)

  resume_nearer :
      (s : System strat.State) (i j : ℕ) (p : Phase) (x : Input strat)
      → s.round ≡ none
      → get_elem? s.threads i ≡ some p
      → StandsNearer
          (resume strat s j x (get_elem? s.threads j))
          i
          p
          (if j == i then has_outcome x.outcome else 0)
  unfolding resume
  resume_nearer s i j p x free here = elim (Bool-cases (j == i)) [
    | inl same ↦
        let e : j ≡ i = (==_iff j i).0 same in
        let unlocked : is_locked s.round ≡ false = ap is_locked free in
        rw (same, e)
          (rw here (
            settle_self s i (has_outcome x.outcome) p (move strat x s.lb (is_locked s.round) p) here
              (has_outcome_le x.outcome) (rw unlocked (move-Nearer x s.lb p))))
    | inr apart ↦ rw apart (elim (Option-cases (get_elem? s.threads j)) [
      | inl missing ↦ rw missing (p, here, omega arith)
      | inr (q, there) ↦ rw there (
        p,
        settle_keeps s i j p (move strat x s.lb (is_locked s.round) q) here apart,
        omega arith,
      )
    ])
  ]

  -- The turns of a request that do not find it waiting for its server.
  abbrev pub turn : ℕ → Event strat → ℕ
  turn i arrives = 0
  turn i (moves j x) = if j == i then has_outcome x.outcome else 0
  turn i (checks alive) = 0

  abbrev pub turns : ℕ → List (Event strat) → ℕ
  turns i [] = 0
  turns i (e ∷ es) = turn i e + turns i es

  -- No round of checks begins.
  abbrev pub IsUnchecked : Event strat → Type 0
  IsUnchecked arrives = Unit
  IsUnchecked (moves j x) = Unit
  IsUnchecked (checks alive) = ⊥

  step_nearer :
      (s : System strat.State) (i : ℕ) (p : Phase) (e : Event strat)
      → s.round ≡ none
      → IsUnchecked e
      → get_elem? s.threads i ≡ some p
      → ((step strat s e).round ≡ none) × StandsNearer (step strat s e) i p (turn i e)
  unfolding step
  step_nearer s i p arrives free un here =
      (free, (p, get-append s.threads (arrived ∷ []) i here, omega arith))
  step_nearer s i p (moves j x) free un here =
      (resume-round s j x (get_elem? s.threads j) ∙ free, resume_nearer s i j p x free here)
  step_nearer s i p (checks alive) free un here = elim un [ ]

  -- While no round of checks is under way, a request is finished by ten turns, or as many as it still
  -- has steps before it, at which its server has answered or failed to, whatever the other requests do
  -- between them and whatever the servers answer.
  pub run_finishes :
      (s : System strat.State) (es : List (Event strat)) (i : ℕ) (p : Phase)
      → s.round ≡ none
      → All IsUnchecked es
      → get_elem? s.threads i ≡ some p
      → rank p ≤ turns i es
      → get_elem? (run strat s es).threads i ≡ some finished
  unfolding run
  run_finishes s [] i p free un here few =
      let over : p ≡ finished = finished_of_rank p few in here ∙ ap some over
  run_finishes s (e ∷ es) i p free un here few =
      let (free', (p', here', less)) = step_nearer s i p e free un.0 here in
      run_finishes (step strat s e) es i p' free' un.1 here' (omega (arith, few, less))
